-- ===== src/Reassembly/Provenance.antt =====
-- Where bytes come from: the pieces that `take_bytes` of src/reassembly.rs hands out name the packets
-- and the ranges in them that the bytes were captured in.
use tlscap.Prelude.{
  ℕ, zero, suc, ◌∙◌, ap, ap₂, sym, ◌+◌, ◌-◌, ◌≤◌, ◌<◌, ◌≡◌, refl, some, List, [], ◌∷◌, ◌++◌, arith,
  leb, ◌==◌, min, length, take, drop, slice, Bool-cases, inl, inr, append_assoc, append-nil,
  length-drop, take-take, drop-take, drop-drop,
}
use tlscap.Reassembly.{
  Segment, StreamReassembler, SourcePiece, Taken, trimmed, piece, take_loop, take_bytes,
}
use tlscap.Reassembly.Placed.{Placed, Laid}

module _ (packets : ℕ → List ℕ) where
  -- The segment's bytes are those of its packet in its range.
  pub record IsCaptured (offset : ℕ) (seg : Segment) : Type 0 where
    pub source : seg.bytes ≡ slice (packets seg.packet_index) seg.range.start seg.range.end
    pub spans : seg.range.end ≡ seg.range.start + length seg.bytes

  pub trimmed-IsCaptured :
      (k n : ℕ) (seg : Segment)
      → IsCaptured k seg
      → n < length seg.bytes
      → IsCaptured (k + n) (trimmed n seg)
  unfolding trimmed
  trimmed-IsCaptured k n seg c lt = record {
    source =
        ap (drop n) c.source
        ∙ drop-take n _ _
        ∙ ap₂ take (omega arith) (drop-drop n seg.range.start (packets seg.packet_index));
    spans = omega (arith, c.spans, length-drop n seg.bytes);
  }

  -- The bytes that the pieces point at.
  abbrev pub gathered : List SourcePiece → List ℕ
  gathered [] = []
  gathered (p ∷ ps) = slice (packets p.packet_index) p.range.start p.range.end ++ gathered ps

  gathered-append : (ps qs : List SourcePiece) → gathered (ps ++ qs) ≡ gathered ps ++ gathered qs
  gathered-append [] qs = refl
  gathered-append (p ∷ ps) qs =
      ap (◌++◌ _) (gathered-append ps qs) ∙ sym (append_assoc _ (gathered ps) (gathered qs))

  piece-gathered :
      (k n : ℕ) (seg : Segment)
      → IsCaptured k seg
      → n ≤ length seg.bytes
      → take n seg.bytes ≡ gathered (piece n seg ∷ [])
  piece-gathered k n seg c le =
      let e : min n (seg.range.end - seg.range.start) ≡ seg.range.start + n - seg.range.start =
        omega (arith, c.spans) in
      ap (take n) c.source
      ∙ take-take n _ _
      ∙ ap (λ m. take m (drop seg.range.start (packets seg.packet_index))) e
      ∙ sym (append-nil _)

  more-gathered :
      (o n : ℕ) (out : List ℕ) (pieces : List SourcePiece) (seg : Segment)
      → out ≡ gathered pieces
      → IsCaptured o seg
      → out ++ take (min n (length seg.bytes)) seg.bytes
        ≡ gathered (pieces ++ piece (min n (length seg.bytes)) seg ∷ [])
  more-gathered o n out pieces seg h c =
      ap₂ ◌++◌ h (piece-gathered o (min n (length seg.bytes)) seg c (omega arith))
      ∙ sym (gathered-append pieces (piece (min n (length seg.bytes)) seg ∷ []))

  take_loop-gathered :
      (o : ℕ) (segs : List Segment) (n : ℕ) (out : List ℕ) (pieces : List SourcePiece)
      (r : StreamReassembler) (t : Taken)
      → Laid IsCaptured o segs
      → out ≡ gathered pieces
      → take_loop segs n out pieces r ≡ some t
      → t.out ≡ gathered t.pieces
  unfolding take_loop
  take_loop-gathered o segs zero out pieces r t l h e = ground arith
  take_loop-gathered o [] (suc n) out pieces r t l h e = absurd (cc)
  take_loop-gathered o (seg ∷ segs) (suc n) out pieces r t l h e =
      let c = min (suc n) (length seg.bytes) in
      let more = more-gathered o (suc n) out pieces seg h l.0 in
      elim (Bool-cases (c == length seg.bytes)) [
        | inl whole ↦
            take_loop-gathered (o + length seg.bytes) segs (suc n - c) (out ++ take c seg.bytes)
              (pieces ++ piece c seg ∷ []) (record r { contiguous_len = r.contiguous_len - c }) t
              l.1 more (rw (whole, take_loop) at e)
        | inr part ↦ let e' = rw (part, take_loop) at e in ground arith
      ]

  -- If every segment held was cut from its packet as its range says, then the bytes that
  -- `take_bytes` hands out are those at the places that its pieces name, in their order.
  pub take_bytes-gathered :
      (n : ℕ) (r : StreamReassembler) (t : Taken)
      → Placed IsCaptured r
      → take_bytes n r ≡ some t
      → t.out ≡ gathered t.pieces
  unfolding take_bytes
  take_bytes-gathered n r t p e = elim (Bool-cases (leb n r.contiguous_len)) [
    | inl enough ↦
        take_loop-gathered _ r.contiguous n [] [] r t p.laid refl (rw (enough, take_bytes) at e)
    | inr short ↦ let e' = rw (short, take_bytes) at e in absurd (cc)
  ]
