-- ===== src/Reassembly/Wraparound.antt =====
-- What src/reassembly.rs makes of a stream longer than the sequence numbers count: `relative_seq`
-- never says more than 32 bits, while `next_expected_relative` goes on in 64.
use tlscap.Prelude.{
  ℕ, ◌+◌, ◌≤◌, ◌<◌, ◌%◌, ◌≡◌, ap, sym, Option, none, ◌∙◌, some, arith, length, le→leb, Bool-cases,
  inl, inr,
}
use tlscap.Prelude.Words.{u32_mod, wrapping_sub, wrapping_add}
use tlscap.Reassembly.{
  Segment, StreamReassembler, duplicate_discarded, is_empty, push, push_relative, relative_seq,
  get_or_insert,
}

wrapping_sub-wrapping_add :
    (isn n : ℕ) → isn < u32_mod → wrapping_sub (wrapping_add isn n) isn ≡ n % u32_mod
wrapping_sub-wrapping_add isn n h = omega arith

push_relative-duplicate :
    (now later rel : ℕ) (seg : Segment) (r : StreamReassembler)
    → rel + length seg.bytes ≤ r.next_expected_relative
    → push_relative now later rel seg r ≡ (r, duplicate_discarded)
unfolding push_relative
push_relative-duplicate now later rel seg r h = rw (le→leb _ _ h)

based : (o : Option ℕ) (x y : ℕ) → o ≡ some y → get_or_insert o x ≡ y
based none x y e = absurd (cc)
based (some z) x y e = ground arith

-- Once 4 GiB of a stream have been delivered, the very next segment that the sender writes, with the
-- sequence number of the next expected byte, is discarded as a duplicate, and nothing changes.
pub push_past_4_GiB :
    (now later isn : ℕ) (seg : Segment) (r : StreamReassembler)
    → isn < u32_mod
    → r.base_seq ≡ some isn
    → u32_mod ≤ r.next_expected_relative
    → length seg.bytes ≤ u32_mod
    → push now later (wrapping_add isn r.next_expected_relative) seg r ≡ (r, duplicate_discarded)
unfolding push relative_seq
push_past_4_GiB now later isn seg r hi b far short = elim (Bool-cases (is_empty seg.bytes)) [
  | inl e ↦ rw e
  | inr full ↦
      let seq = wrapping_add isn r.next_expected_relative in
      let anchor : get_or_insert r.base_seq seq ≡ isn = based r.base_seq seq isn b in
      let wrapped = wrapping_sub-wrapping_add isn r.next_expected_relative hi in
      rw (full, anchor)
        (push_relative-duplicate now later (wrapping_sub seq isn) seg
            (record r { base_seq = some isn }) (rw wrapped (omega arith))
          ∙ ap (λ o. (record r { base_seq = o }, duplicate_discarded)) (sym b))
]
