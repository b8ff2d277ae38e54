-- ===== src/Reassembly/Loops.antt =====
-- Rules for the loops of src/reassembly.rs, and for the cases of `push_relative` and
-- `buffer_pending`: what each step keeps, the whole routine keeps.
use tlscap.Prelude.{
  ℕ, ◌+◌, ◌<◌, ◌≡◌, refl, [], ◌∷◌, inl, inr, arith, ltb, ◌==◌, Bool-cases, ltb→lt, ==_iff, length,
  Sorted,
}
use tlscap.Reassembly.{
  Segment, StreamReassembler, deliver, pop_pending, drain_stale, drain_loop, over_budget,
  evict_loop,
}

pub drain_stale-pending :
    (key : ℕ) (seg : Segment) (r : StreamReassembler) → (drain_stale key seg r).pending ≡ r.pending
unfolding drain_stale
drain_stale-pending key seg r = ground arith

-- `P` of the reassembler is kept by the loop of `drain_pending`.
pub drain_induction {ℓ} :
    (P : StreamReassembler → Type ℓ)
    → ((key : ℕ) (seg : Segment) (rest : Sorted Segment) (r : StreamReassembler)
        → r.pending ≡ (key, seg) ∷ rest
        → key < r.next_expected_relative
        → P r
        → P (drain_stale key seg (pop_pending seg rest r)))
    → ((key : ℕ) (seg : Segment) (rest : Sorted Segment) (r : StreamReassembler)
        → r.pending ≡ (key, seg) ∷ rest
        → key ≡ r.next_expected_relative
        → P r
        → P (deliver seg (pop_pending seg rest r)))
    → (l : Sorted Segment) (r : StreamReassembler) → r.pending ≡ l
    → P r
    → P (drain_loop l r)
unfolding drain_loop
drain_induction P stale exact [] r e h = h
drain_induction P stale exact ((key, seg) ∷ rest) r e h =
    elim (Bool-cases (ltb key r.next_expected_relative)) [
      | inl below ↦
          rw (below, drain_loop)
            (drain_induction P stale exact rest _ (drain_stale-pending key seg _)
              (stale key seg rest r e (ltb→lt _ _ below) h))
      | inr above ↦ elim (Bool-cases (key == r.next_expected_relative)) [
        | inl hit ↦
            rw (above, hit, drain_loop)
              (drain_induction P stale exact rest _ refl
                (exact key seg rest r e ((==_iff _ _).0 hit) h))
        | inr gap ↦ rw (above, drain_loop, gap) h
      ]
    ]

-- The same for the eviction loop.
pub evict_induction {ℓ} :
    (P : StreamReassembler → ℕ → Type ℓ)
    → ((key : ℕ) (seg : Segment) (rest : Sorted Segment) (r : StreamReassembler) (n : ℕ)
        → r.pending ≡ (key, seg) ∷ rest
        → P r n
        → P (pop_pending seg rest r) (n + length seg.bytes))
    → (l : Sorted Segment) (r : StreamReassembler) (n : ℕ) → r.pending ≡ l
    → P r n
    → P (evict_loop l r n).0 (evict_loop l r n).1
unfolding evict_loop pop_pending
evict_induction P step [] r n e h = h
evict_induction P step ((key, seg) ∷ rest) r n e h = elim (Bool-cases (over_budget r)) [
  | inl over ↦
      rw (over, evict_loop)
        (evict_induction P step rest _ (n + length seg.bytes) refl (step key seg rest r n e h))
  | inr within ↦ rw (within, evict_loop) h
]
