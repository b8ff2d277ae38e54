-- ===== src/Reassembly/WellFormed.antt =====
-- The well-formedness invariant of a reassembler, and the measures that it is stated with.
use tlscap.Prelude.{
  ℕ, ◌+◌, ◌≤◌, ◌<◌, ◌≡◌, Bool, true, false, Option, none, some, List, [], ◌∷◌, ◌++◌, arith, leb,
  Bool-cases, inl, inr, length, length-drop, Sorted, Ascending,
}
use tlscap.Reassembly.{
  Segment, StreamReassembler, is_empty, trimmed, deliver, pop_pending, drain_stale,
}

-- All bytes of a list of segments.
abbrev pub total : List Segment → ℕ
total [] = 0
total (seg ∷ segs) = length seg.bytes + total segs

abbrev pub pending_total : Sorted Segment → ℕ
pending_total [] = 0
pending_total ((k, seg) ∷ m) = length seg.bytes + pending_total m

-- A segment is not empty, and its range in the packet has its length.
pub record IsSegment (seg : Segment) : Type 0 where
  pub filled : 0 < length seg.bytes
  pub spans : seg.range.end ≡ seg.range.start + length seg.bytes

abbrev pub Segments : List Segment → Type 0
Segments [] = Unit {0}
Segments (seg ∷ segs) = IsSegment seg × Segments segs

abbrev pub PendingSegments : Sorted Segment → Type 0
PendingSegments [] = Unit {0}
PendingSegments ((k, seg) ∷ m) = IsSegment seg × PendingSegments m

abbrev pub is_none : Option ℕ → Bool
is_none none = true
is_none (some x) = false

-- What the loop of `drain_pending` keeps too.
pub record Counted (r : StreamReassembler) : Type 0 where
  pub contiguous_counted : r.contiguous_len ≡ total r.contiguous
  pub pending_counted : r.pending_len ≡ pending_total r.pending
  pub delivered_counted : r.contiguous_len ≤ r.next_expected_relative
  pub contiguous_segments : Segments r.contiguous
  pub pending_segments : PendingSegments r.pending
  pub bytes_within : r.pending_len ≤ r.limits.max_bytes
  pub packets_within : length r.pending ≤ r.limits.max_packets

-- The counters are exact, the limits hold, what is pending lies above the next expected byte in
-- ascending order, and the clock runs exactly while something is pending.
pub record WellFormed (r : StreamReassembler) : Type 0 where
  pub counted : Counted r
  pub open counted use *
  pub above : Ascending (r.next_expected_relative + 1) r.pending
  pub clock : is_none r.pending_since ≡ is_empty r.pending

pub total-append : (xs ys : List Segment) → total (xs ++ ys) ≡ total xs + total ys
total-append [] ys = omega arith
total-append (x ∷ xs) ys = omega (arith, total-append xs ys)

Segments-append : (xs ys : List Segment) → Segments xs → Segments ys → Segments (xs ++ ys)
Segments-append [] ys h k = k
Segments-append (x ∷ xs) ys h k = (h.0, Segments-append xs ys h.1 k)

pub trimmed-IsSegment :
    (n : ℕ) (seg : Segment) → IsSegment seg → n < length seg.bytes → IsSegment (trimmed n seg)
unfolding trimmed
trimmed-IsSegment n seg s h = ground (arith, length-drop n seg.bytes)

pub deliver-Counted :
    (seg : Segment) (r : StreamReassembler) → IsSegment seg → Counted r → Counted (deliver seg r)
unfolding deliver
deliver-Counted seg r s c = record {
  contiguous_counted = omega (arith, c.contiguous_counted, total-append r.contiguous (seg ∷ []));
  pending_counted = c.pending_counted;
  delivered_counted = omega (arith, c.delivered_counted);
  contiguous_segments = Segments-append r.contiguous (seg ∷ []) c.contiguous_segments (s, tt);
  pending_segments = c.pending_segments;
  bytes_within = c.bytes_within;
  packets_within = c.packets_within;
}

pub pop_pending-Counted :
    (key : ℕ) (seg : Segment) (rest : Sorted Segment) (r : StreamReassembler)
    → r.pending ≡ (key, seg) ∷ rest
    → Counted r
    → IsSegment seg × Counted (pop_pending seg rest r)
unfolding pop_pending
pop_pending-Counted key seg rest r e c =
    let pc : r.pending_len ≡ pending_total ((key, seg) ∷ rest) = rw e at c.pending_counted in
    let ps : PendingSegments ((key, seg) ∷ rest) = rw e at c.pending_segments in
    let pw : length ((key, seg) ∷ rest) ≤ r.limits.max_packets = rw e at c.packets_within in
    (
      ps.0,
      record {
        contiguous_counted = c.contiguous_counted;
        pending_counted = omega arith;
        delivered_counted = c.delivered_counted;
        contiguous_segments = c.contiguous_segments;
        pending_segments = ps.1;
        bytes_within = omega (arith, c.bytes_within);
        packets_within = omega arith;
      },
    )

pub drain_stale-Counted :
    (key : ℕ) (seg : Segment) (r : StreamReassembler)
    → IsSegment seg
    → Counted r
    → Counted (drain_stale key seg r)
unfolding drain_stale
drain_stale-Counted key seg r s c =
    elim (Bool-cases (leb (key + length seg.bytes) r.next_expected_relative)) [
      | inl e ↦ rw e c
      | inr e ↦ rw e (deliver-Counted _ r (trimmed-IsSegment _ seg s (ground arith)) c)
    ]
