-- ===== src/Reassembly/Buffer.antt =====
-- `buffer_pending` of src/reassembly.rs and the well-formedness invariant.
use tlscap.Prelude.{
  ℕ, ◌∙◌, ap, sym, suc, ◌+◌, ◌-◌, ◌≤◌, ◌<◌, ◌≡◌, refl, false, none, some, [], ◌∷◌, arith, length,
  Sorted, lookup, insert, Ascending, Ascending-mono, insert-Ascending, lookup_below, Bool-cases,
  inl, inr,
}
use tlscap.Reassembly.{
  Segment, StreamReassembler, is_empty, pop_pending, reset_clock, over_budget, evict_loop,
  store_pending, enforce_limits, buffer_pending,
}
use tlscap.Reassembly.Loops.{evict_induction}
use tlscap.Reassembly.WellFormed.{
  Counted, WellFormed, IsSegment, Segments, PendingSegments, total, pending_total,
}
use tlscap.Reassembly.Drain.{Ticks, reset_clock-clock}
use tlscap.Reassembly.Cases.{enforce_limits_cases, buffer_pending_cases}

pub pending_total-insert_new :
    (k : ℕ) (seg : Segment) (m : Sorted Segment)
    → lookup k m ≡ none
    → pending_total (insert k seg m) ≡ pending_total m + length seg.bytes
pending_total-insert_new k seg [] h = omega arith
pending_total-insert_new k seg ((j, w) ∷ m) h = ground (arith, pending_total-insert_new k seg m)

pub insert_over :
    (lo k : ℕ) (seg old : Segment) (m : Sorted Segment)
    → Ascending lo m
    → lookup k m ≡ some old
    → (pending_total (insert k seg m) + length old.bytes ≡ pending_total m + length seg.bytes)
      × (length (insert k seg m) ≡ length m)
insert_over lo k seg old [] a h = cc
insert_over lo k seg old ((j, w) ∷ m) a h =
    ground (arith, insert_over (suc j) k seg old m a.1, lookup_below k (suc j) m, a.1)

pub lookup-le_total :
    (k : ℕ) (old : Segment) (m : Sorted Segment)
    → lookup k m ≡ some old
    → length old.bytes ≤ pending_total m
lookup-le_total k old [] h = cc
lookup-le_total k old ((j, w) ∷ m) h = ground (arith, lookup-le_total k old m)

insert-PendingSegments :
    (k : ℕ) (seg : Segment) (m : Sorted Segment)
    → IsSegment seg
    → PendingSegments m
    → PendingSegments (insert k seg m)
insert-PendingSegments k seg [] s h = (s, tt)
insert-PendingSegments k seg ((j, w) ∷ m) s h = ground (arith, insert-PendingSegments k seg m)

-- The reassembler after the insertion, before the limits are enforced.
record Stored (r : StreamReassembler) : Type 0 where
  contiguous_counted : r.contiguous_len ≡ total r.contiguous
  pending_counted : r.pending_len ≡ pending_total r.pending
  delivered_counted : r.contiguous_len ≤ r.next_expected_relative
  contiguous_segments : Segments r.contiguous
  pending_segments : PendingSegments r.pending
  above : Ascending (r.next_expected_relative + 1) r.pending
  ticks : Ticks r

store_pending-Stored :
    (now later rel : ℕ) (seg : Segment) (r : StreamReassembler)
    → r.next_expected_relative < rel
    → IsSegment seg
    → WellFormed r
    → lookup rel r.pending ≡ none
    → Stored (store_pending now later rel seg r)
unfolding store_pending
store_pending-Stored now later rel seg r lt s w new = record {
  contiguous_counted = w.contiguous_counted;
  pending_counted =
      omega (arith, w.pending_counted, pending_total-insert_new rel seg r.pending new);
  delivered_counted = w.delivered_counted;
  contiguous_segments = w.contiguous_segments;
  pending_segments = insert-PendingSegments rel seg r.pending s w.pending_segments;
  above = insert-Ascending _ rel seg r.pending (omega arith) w.above;
  ticks = λ _. ground (arith, w.clock);
}

store_pending-Stored_over :
    (now later rel : ℕ) (seg old : Segment) (r : StreamReassembler)
    → r.next_expected_relative < rel
    → IsSegment seg
    → WellFormed r
    → lookup rel r.pending ≡ some old
    → Stored (
        store_pending now later rel seg
          (record r { pending_len = r.pending_len - length old.bytes }))
unfolding store_pending
store_pending-Stored_over now later rel seg old r lt s w hit = record {
  contiguous_counted = w.contiguous_counted;
  pending_counted = omega (
    arith,
    w.pending_counted,
    lookup-le_total rel old r.pending hit,
    insert_over _ rel seg old r.pending w.above hit,
  );
  delivered_counted = w.delivered_counted;
  contiguous_segments = w.contiguous_segments;
  pending_segments = insert-PendingSegments rel seg r.pending s w.pending_segments;
  above = insert-Ascending _ rel seg r.pending (omega arith) w.above;
  ticks = λ _. ground (arith, w.clock);
}

evict_step-Stored :
    (key : ℕ) (seg : Segment) (rest : Sorted Segment) (r : StreamReassembler)
    → r.pending ≡ (key, seg) ∷ rest
    → Stored r
    → Stored (pop_pending seg rest r)
unfolding pop_pending
evict_step-Stored key seg rest r e s =
    let pc : r.pending_len ≡ pending_total ((key, seg) ∷ rest) = rw e at s.pending_counted in
    let ps : PendingSegments ((key, seg) ∷ rest) = rw e at s.pending_segments in
    let pa : Ascending (r.next_expected_relative + 1) ((key, seg) ∷ rest) = rw e at s.above in
    record {
      contiguous_counted = s.contiguous_counted;
      pending_counted = omega arith;
      delivered_counted = s.delivered_counted;
      contiguous_segments = s.contiguous_segments;
      pending_segments = ps.1;
      above = Ascending-mono rest (omega arith) pa.1;
      ticks = λ _. s.ticks (rw e refl);
    }

evict_loop-Stored :
    (l : Sorted Segment) (r : StreamReassembler) (n : ℕ)
    → r.pending ≡ l
    → Stored r
    → Stored (evict_loop l r n).0
evict_loop-Stored =
    evict_induction (λ r n. Stored r) (λ key seg rest r n e h. evict_step-Stored key seg rest r e h)

over_budget_nothing :
    (r : StreamReassembler) → r.pending_len ≡ 0 → r.pending ≡ [] → over_budget r ≡ false
unfolding over_budget
over_budget_nothing r p e = rw (p, e) (ground arith)

-- The loop ends below both caps.
evict_loop-over_budget :
    (l : Sorted Segment) (r : StreamReassembler) (n : ℕ)
    → r.pending ≡ l
    → Stored r
    → over_budget (evict_loop l r n).0 ≡ false
unfolding evict_loop
evict_loop-over_budget [] r n e s =
    let pc : r.pending_len ≡ 0 = s.pending_counted ∙ ap pending_total e in
    over_budget_nothing r pc e
evict_loop-over_budget ((key, seg) ∷ rest) r n e s = elim (Bool-cases (over_budget r)) [
  | inl over ↦
      rw (over, evict_loop)
        (evict_loop-over_budget rest _ (n + length seg.bytes) refl
          (evict_step-Stored key seg rest r e s))
  | inr within ↦ rw (within, evict_loop) within
]

within-Counted : (r : StreamReassembler) → Stored r → over_budget r ≡ false → Counted r
unfolding over_budget
within-Counted r s b = record {
  contiguous_counted = s.contiguous_counted;
  pending_counted = s.pending_counted;
  delivered_counted = s.delivered_counted;
  contiguous_segments = s.contiguous_segments;
  pending_segments = s.pending_segments;
  bytes_within = ground arith;
  packets_within = ground arith;
}

reset_clock-WellFormed :
    (r : StreamReassembler) → Stored r → over_budget r ≡ false → WellFormed (reset_clock r)
reset_clock-WellFormed r s b =
    let c = within-Counted r s b in
    record {
      counted = record {
        contiguous_counted = c.contiguous_counted;
        pending_counted = c.pending_counted;
        delivered_counted = c.delivered_counted;
        contiguous_segments = c.contiguous_segments;
        pending_segments = c.pending_segments;
        bytes_within = c.bytes_within;
        packets_within = c.packets_within;
      };
      above = s.above;
      clock = reset_clock-clock r s.ticks;
    }

enforce_limits-WellFormed :
    (later : ℕ) (r : StreamReassembler)
    → is_empty r.pending ≡ false
    → Stored r
    → WellFormed (enforce_limits later r).0
enforce_limits-WellFormed later r full s =
    enforce_limits_cases (λ x. WellFormed x.0) later r
      (λ fits _. record {
        counted = within-Counted r s fits;
        above = s.above;
        clock = s.ticks full ∙ sym full;
      })
      (λ _. record {
        counted = record {
          contiguous_counted = s.contiguous_counted;
          pending_counted = refl;
          delivered_counted = s.delivered_counted;
          contiguous_segments = s.contiguous_segments;
          pending_segments = tt;
          bytes_within = omega arith;
          packets_within = omega arith;
        };
        above = tt;
        clock = refl;
      })
      (λ _ _.
        reset_clock-WellFormed _ (evict_loop-Stored r.pending r 0 refl s)
          (evict_loop-over_budget r.pending r 0 refl s))

insert-is_empty : (k : ℕ) (seg : Segment) (m : Sorted Segment) → is_empty (insert k seg m) ≡ false
insert-is_empty k seg [] = refl
insert-is_empty k seg ((j, w) ∷ m) = ground arith

store_pending-is_empty :
    (now later rel : ℕ) (seg : Segment) (r : StreamReassembler)
    → is_empty (store_pending now later rel seg r).pending ≡ false
unfolding store_pending
store_pending-is_empty now later rel seg r = insert-is_empty rel seg r.pending

pub buffer_pending-WellFormed :
    (now later rel : ℕ) (seg : Segment) (r : StreamReassembler)
    → r.next_expected_relative < rel
    → IsSegment seg
    → WellFormed r
    → WellFormed (buffer_pending now later rel seg r).0
buffer_pending-WellFormed now later rel seg r lt s w =
    buffer_pending_cases (λ x. WellFormed x.0) now later rel seg r (λ _ _ _. w)
      (λ new.
        enforce_limits-WellFormed later _ (store_pending-is_empty now later rel seg r)
          (store_pending-Stored now later rel seg r lt s w new))
      (λ old hit _.
        enforce_limits-WellFormed later _ (store_pending-is_empty now later rel seg _)
          (store_pending-Stored_over now later rel seg old r lt s w hit))
