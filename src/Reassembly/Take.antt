-- ===== src/Reassembly/Take.antt =====
-- `take_bytes` and `peek` of src/reassembly.rs against the list of contiguous bytes.
use tlscap.Prelude.{
  ℕ, ◌∙◌, ap, sym, ◌+◌, ◌-◌, ◌≤◌, ◌≡◌, some, List, [], ◌∷◌, ◌++◌, arith, leb, le→leb, min, length,
  take, Bool-cases, inl, inr, append_assoc, append-nil, length-append, length-take, length-drop,
  take-all, take-append-drop,
}
use tlscap.Reassembly.{Segment, StreamReassembler, Taken, take_bytes, peek_loop, peek}
use tlscap.Reassembly.WellFormed.{WellFormed}
use tlscap.Reassembly.Taking.{
  contents, length-contents, spanned, Takes, take_first, take_loop-Takes,
}

pub take_bytes-Takes :
    (n : ℕ) (r : StreamReassembler)
    → WellFormed r
    → n ≤ r.contiguous_len
    → (t : Taken) × (take_bytes n r ≡ some t) × Takes r.contiguous n [] [] r t
unfolding take_bytes
take_bytes-Takes n r w h = rw (le→leb n r.contiguous_len h) (
    take_loop-Takes r.contiguous n [] [] r w.contiguous_segments
      (omega (arith, w.contiguous_counted)) h)

pub Takes-WellFormed :
    (n : ℕ) (r : StreamReassembler) (t : Taken)
    → WellFormed r
    → Takes r.contiguous n [] [] r t
    → WellFormed t.reassembler
Takes-WellFormed n r t w q = record {
  counted = record {
    contiguous_counted = omega (
      arith,
      q.left,
      w.contiguous_counted,
      length-contents t.reassembler.contiguous,
      length-contents r.contiguous,
      length-drop n (contents r.contiguous),
      ap length q.rest,
    );
    pending_counted = rw (q.pending_len, q.pending) w.pending_counted;
    delivered_counted = omega (arith, q.left, q.next, w.delivered_counted);
    contiguous_segments = q.segments;
    pending_segments = rw q.pending w.pending_segments;
    bytes_within = rw (q.pending_len, q.limits) w.bytes_within;
    packets_within = rw (q.pending, q.limits) w.packets_within;
  };
  above = rw (q.pending, q.next) w.above;
  clock = rw (q.pending, q.since) w.clock;
}

peek_loop-take :
    (segs : List Segment) (n : ℕ) (out : List ℕ)
    → peek_loop segs n out ≡ out ++ take (n - length out) (contents segs)
unfolding peek_loop
peek_loop-take [] n out =
    rw (take-all {A = ℕ} (n - length out) [] (omega arith)) (sym (append-nil out))
peek_loop-take (seg ∷ segs) n out = elim (Bool-cases (leb n (length out))) [
  | inl full ↦
      let z : n - length out ≡ 0 = ground arith in rw (full, peek_loop, z) (sym (append-nil out))
  | inr more ↦
      let c = min (n - length out) (length seg.bytes) in
      let left : n - length (out ++ take c seg.bytes) ≡ (n - length out) - c =
        omega (arith, length-append out (take c seg.bytes), length-take c seg.bytes) in
      rw (more, peek_loop)
        (peek_loop-take segs n (out ++ take c seg.bytes)
          ∙ append_assoc out _ _
          ∙ ap (◌++◌ out) (rw left (sym (take_first (n - length out) seg.bytes (contents segs)))))
]

pub peek-take : (n : ℕ) (r : StreamReassembler) → peek n r ≡ take n (contents r.contiguous)
unfolding peek
peek-take n r = let z : n - 0 ≡ n = omega arith in rw z at (peek_loop-take r.contiguous n [])

-- Taking `n` bytes that are there returns, does not panic, hands out what `peek` shows, exactly `n`
-- bytes with pieces that span as many, leaves the bytes behind them, in order, touches nothing that
-- is pending, and keeps the reassembler well-formed.
pub take_bytes_splits :
    (n : ℕ) (r : StreamReassembler)
    → WellFormed r
    → n ≤ r.contiguous_len
    → (t : Taken) × (take_bytes n r ≡ some t)
      × (t.out ≡ peek n r)
      × (length t.out ≡ n)
      × (t.out ++ contents t.reassembler.contiguous ≡ contents r.contiguous)
      × (spanned t.pieces ≡ n)
      × (t.reassembler.pending ≡ r.pending)
      × WellFormed t.reassembler
take_bytes_splits n r w h =
    let (t, e, q) = take_bytes-Takes n r w h in
    (
      t,
      e,
      q.first ∙ sym (peek-take n r),
      omega (
        arith,
        ap length q.first,
        length-take n (contents r.contiguous),
        length-contents r.contiguous,
        w.contiguous_counted,
      ),
      rw (q.first, q.rest) (take-append-drop n (contents r.contiguous)),
      omega (arith, q.spans),
      q.pending,
      Takes-WellFormed n r t w q,
    )

-- What is taken is no longer there.
pub take_bytes_leaves :
    (n : ℕ) (r : StreamReassembler)
    → WellFormed r
    → n ≤ r.contiguous_len
    → (t : Taken) × (take_bytes n r ≡ some t)
      × WellFormed t.reassembler
      × (t.reassembler.contiguous_len + n ≡ r.contiguous_len)
take_bytes_leaves n r w h =
    let (t, e, shown, l, split, spans, kept, w') = take_bytes_splits n r w h in
    (
      t,
      e,
      w',
      omega (
        arith,
        l,
        ap length split,
        length-append t.out (contents t.reassembler.contiguous),
        length-contents t.reassembler.contiguous,
        length-contents r.contiguous,
        w.contiguous_counted,
        w'.contiguous_counted,
      ),
    )
