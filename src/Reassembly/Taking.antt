-- ===== src/Reassembly/Taking.antt =====
-- The loop of `take_bytes` of src/reassembly.rs against the list of contiguous bytes.
use tlscap.Prelude.{
  ℕ, zero, suc, ◌∙◌, ap, sym, ◌+◌, ◌-◌, ◌≤◌, ◌<◌, ◌≡◌, refl, some, List, [], ◌∷◌, ◌++◌, arith, ◌==◌,
  ==_iff, min, length, take, drop, Bool-cases, inl, inr, append_assoc, append-nil, length-append,
  take-append, drop-append, take-min, drop-all,
}
use tlscap.Reassembly.{Segment, StreamReassembler, SourcePiece, Taken, trimmed, piece, take_loop}
use tlscap.Reassembly.WellFormed.{Segments, total, trimmed-IsSegment}

-- The bytes of a list of segments, in order.
abbrev pub contents : List Segment → List ℕ
contents [] = []
contents (seg ∷ segs) = seg.bytes ++ contents segs

pub length-contents : (segs : List Segment) → length (contents segs) ≡ total segs
length-contents [] = refl
length-contents (seg ∷ segs) =
    omega (arith, length-append seg.bytes (contents segs), length-contents segs)

-- The bytes that the pieces' ranges span.
abbrev pub spanned : List SourcePiece → ℕ
spanned [] = 0
spanned (p ∷ ps) = (p.range.end - p.range.start) + spanned ps

spanned-append : (ps qs : List SourcePiece) → spanned (ps ++ qs) ≡ spanned ps + spanned qs
spanned-append [] qs = omega arith
spanned-append (p ∷ ps) qs = omega (arith, spanned-append ps qs)

-- What taking `n` bytes off `segs` gives, after `out` and `pieces`.
pub record Takes (segs : List Segment) (n : ℕ) (out : List ℕ) (pieces : List SourcePiece)
    (r : StreamReassembler) (t : Taken) : Type 0 where
  pub first : t.out ≡ out ++ take n (contents segs)
  pub rest : contents t.reassembler.contiguous ≡ drop n (contents segs)
  pub spans : spanned t.pieces ≡ spanned pieces + n
  pub left : t.reassembler.contiguous_len + n ≡ r.contiguous_len
  pub segments : Segments t.reassembler.contiguous
  pub base : t.reassembler.base_seq ≡ r.base_seq
  pub next : t.reassembler.next_expected_relative ≡ r.next_expected_relative
  pub pending : t.reassembler.pending ≡ r.pending
  pub pending_len : t.reassembler.pending_len ≡ r.pending_len
  pub limits : t.reassembler.limits ≡ r.limits
  pub since : t.reassembler.pending_since ≡ r.pending_since

pub take_first :
    (n : ℕ) (xs ys : List ℕ)
    → take n (xs ++ ys) ≡ take (min n (length xs)) xs ++ take (n - min n (length xs)) ys
take_first n xs ys =
    let e : n - min n (length xs) ≡ n - length xs = omega arith in
    rw (take-min n xs, e) (take-append n xs ys)

drop_first :
    (n : ℕ) (xs ys : List ℕ) → length xs ≤ n → drop n (xs ++ ys) ≡ drop (n - min n (length xs)) ys
drop_first n xs ys h =
    let e : n - min n (length xs) ≡ n - length xs = omega arith in
    rw (drop-append n xs ys, drop-all n xs h, e)

-- A whole segment, and then the rest.
whole_Takes :
    (seg : Segment) (segs : List Segment) (n : ℕ) (out : List ℕ) (pieces : List SourcePiece)
    (r : StreamReassembler) (t : Taken)
    → let c = min n (length seg.bytes) in
      c ≡ length seg.bytes
      → n ≤ r.contiguous_len
      → Takes segs
          (n - c)
          (out ++ take c seg.bytes)
          (pieces ++ piece c seg ∷ [])
          (record r { contiguous_len = r.contiguous_len - c })
          t
      → Takes (seg ∷ segs) n out pieces r t
whole_Takes seg segs n out pieces r t e k q = record {
  first = q.first ∙ append_assoc out _ _ ∙ ap (◌++◌ out) (sym (take_first n seg.bytes _));
  rest = q.rest ∙ sym (drop_first n seg.bytes _ (omega arith));
  spans = omega (arith, q.spans, spanned-append pieces (piece (min n (length seg.bytes)) seg ∷ []));
  left = omega (arith, q.left);
  segments = q.segments;
  base = q.base;
  next = q.next;
  pending = q.pending;
  pending_len = q.pending_len;
  limits = q.limits;
  since = q.since;
}

-- The result when the first segment has more than the `n` bytes that are wanted.
abbrev part_taken :
    Segment → List Segment → ℕ → List ℕ → List SourcePiece → StreamReassembler → Taken
part_taken seg segs n out pieces r =
    let c = min n (length seg.bytes) in
    record {
      out = out ++ take c seg.bytes;
      pieces = pieces ++ piece c seg ∷ [];
      reassembler = record r {
        contiguous_len = r.contiguous_len - c;
        contiguous = trimmed c seg ∷ segs;
      };
    }

part_Takes :
    (seg : Segment) (segs : List Segment) (n : ℕ) (out : List ℕ) (pieces : List SourcePiece)
    (r : StreamReassembler)
    → Segments (seg ∷ segs)
    → n < length seg.bytes
    → n ≤ r.contiguous_len
    → Takes (seg ∷ segs) n out pieces r (part_taken seg segs n out pieces r)
unfolding trimmed
part_Takes seg segs n out pieces r s lt k =
    let c : min n (length seg.bytes) ≡ n = omega arith in
    let z : n - length seg.bytes ≡ 0 = omega arith in
    record {
      first = ap (◌++◌ out) (
          rw (c, take-append n seg.bytes (contents segs), z) (sym (append-nil (take n seg.bytes))));
      rest = rw (c, drop-append n seg.bytes (contents segs), z) refl;
      spans = omega (arith, spanned-append pieces (piece (min n (length seg.bytes)) seg ∷ []));
      left = omega arith;
      segments = (trimmed-IsSegment _ seg s.0 (omega arith), s.1);
      base = refl;
      next = refl;
      pending = refl;
      pending_len = refl;
      limits = refl;
      since = refl;
    }

pub take_loop-Takes :
    (segs : List Segment) (n : ℕ) (out : List ℕ) (pieces : List SourcePiece) (r : StreamReassembler)
    → Segments segs
    → n ≤ total segs
    → n ≤ r.contiguous_len
    → (t : Taken) × (take_loop segs n out pieces r ≡ some t) × Takes segs n out pieces r t
unfolding take_loop
take_loop-Takes segs zero out pieces r s h k = (
  _,
  refl,
  record {
    first = sym (append-nil out);
    rest = refl;
    spans = omega arith;
    left = omega arith;
    segments = s;
    base = refl;
    next = refl;
    pending = refl;
    pending_len = refl;
    limits = refl;
    since = refl;
  },
)
take_loop-Takes [] (suc n) out pieces r s h k = elim h [ ]
take_loop-Takes (seg ∷ segs) (suc n) out pieces r s h k =
    elim (Bool-cases (min (suc n) (length seg.bytes) == length seg.bytes)) [
      | inl whole ↦
          let c = min (suc n) (length seg.bytes) in
          let (t, e, q) =
            take_loop-Takes segs (suc n - c) (out ++ take c seg.bytes) (pieces ++ piece c seg ∷ [])
              (record r { contiguous_len = r.contiguous_len - c }) s.1 (ground arith)
              (omega arith) in
          (
            t,
            rw (whole, take_loop) e,
            whole_Takes seg segs (suc n) out pieces r t ((==_iff _ _).0 whole) (omega arith) q,
          )
      | inr part ↦ (
        part_taken seg segs (suc n) out pieces r,
        rw (part, take_loop),
        part_Takes seg segs (suc n) out pieces r s (ground arith) k,
      )
    ]
