-- ===== src/Reassembly/Drain.antt =====
-- `drain_pending` of src/reassembly.rs and the well-formedness invariant.
use tlscap.Prelude.{
  ℕ, suc, ◌+◌, ◌≡◌, refl, false, [], ◌∷◌, arith, ltb, ◌==◌, Sorted, Ascending, Bool-cases, inl, inr,
}
use tlscap.Reassembly.{
  Segment, StreamReassembler, is_empty, deliver, pop_pending, drain_stale, drain_loop,
  drain_pending, reset_clock,
}
use tlscap.Reassembly.Loops.{drain_induction, drain_stale-pending}
use tlscap.Reassembly.WellFormed.{
  Counted, WellFormed, is_none, deliver-Counted, pop_pending-Counted, drain_stale-Counted,
}

drain_loop-Counted :
    (l : Sorted Segment) (r : StreamReassembler)
    → r.pending ≡ l
    → Counted r
    → Counted (drain_loop l r)
drain_loop-Counted =
    drain_induction Counted
      (λ key seg rest r e h c.
        let (s, c') = pop_pending-Counted key seg rest r e c in drain_stale-Counted key seg _ s c')
      (λ key seg rest r e h c.
        let (s, c') = pop_pending-Counted key seg rest r e c in deliver-Counted seg _ s c')

-- The loop leaves what lies beyond a gap.
drain_loop-Ascending :
    (l : Sorted Segment) (r : StreamReassembler) (lo : ℕ)
    → r.pending ≡ l
    → Ascending lo l
    → let d = drain_loop l r in Ascending (d.next_expected_relative + 1) d.pending
unfolding drain_loop
drain_loop-Ascending [] r lo e a = rw e tt
drain_loop-Ascending ((key, seg) ∷ rest) r lo e a =
    elim (Bool-cases (ltb key r.next_expected_relative)) [
      | inl below ↦
          rw (below, drain_loop)
            (drain_loop-Ascending rest _ (suc key) (drain_stale-pending key seg _) a.1)
      | inr above ↦ elim (Bool-cases (key == r.next_expected_relative)) [
        | inl hit ↦ rw (above, hit, drain_loop) (drain_loop-Ascending rest _ (suc key) refl a.1)
        | inr gap ↦ rw (above, drain_loop, gap) (rw e (ground arith))
      ]
    ]

-- While something is pending, the clock runs.
abbrev pub Ticks : StreamReassembler → Type 0
Ticks r = is_empty r.pending ≡ false → is_none r.pending_since ≡ false

drain_loop-Ticks :
    (l : Sorted Segment) (r : StreamReassembler) → r.pending ≡ l → Ticks r → Ticks (drain_loop l r)
unfolding drain_stale deliver pop_pending
drain_loop-Ticks =
    drain_induction Ticks (λ key seg rest r e h t. ground (arith, t (rw e refl)))
      (λ key seg rest r e h t. ground (arith, t (rw e refl)))

pub reset_clock-clock :
    (r : StreamReassembler) → Ticks r → is_none (reset_clock r).pending_since ≡ is_empty r.pending
reset_clock-clock r t = ground arith

-- From a state that is well-formed but for the order of what is pending.
pub drain_pending-WellFormed :
    (r : StreamReassembler)
    → Counted r
    → Ascending 0 r.pending
    → Ticks r
    → WellFormed (drain_pending r)
unfolding drain_pending
drain_pending-WellFormed r c a t =
    let d = drain_loop r.pending r in
    let c' : Counted d = drain_loop-Counted r.pending r refl c in
    record {
      counted = record {
        contiguous_counted = c'.contiguous_counted;
        pending_counted = c'.pending_counted;
        delivered_counted = c'.delivered_counted;
        contiguous_segments = c'.contiguous_segments;
        pending_segments = c'.pending_segments;
        bytes_within = c'.bytes_within;
        packets_within = c'.packets_within;
      };
      above = drain_loop-Ascending r.pending r 0 refl a;
      clock = reset_clock-clock d (drain_loop-Ticks r.pending r refl t);
    }
