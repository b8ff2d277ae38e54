-- ===== src/Reassembly/Invariant.antt =====
-- Every operation of src/reassembly.rs keeps the well-formedness invariant.
use tlscap.Prelude.{
  ℕ, ◌∙◌, ◌+◌, ◌≡◌, refl, Option, arith, length, Ascending-mono, Bool-cases, inl, inr,
}
use tlscap.Reassembly.{
  Segment, StreamReassembler, PendingLimits, is_empty, deliver, drain_pending, push_relative, push,
  relative_seq, set_isn, with_pending_limits,
}
use tlscap.Reassembly.WellFormed.{WellFormed, IsSegment, deliver-Counted, trimmed-IsSegment}
use tlscap.Reassembly.Drain.{drain_pending-WellFormed}
use tlscap.Reassembly.Cases.{push_relative_cases}
use tlscap.Reassembly.Buffer.{buffer_pending-WellFormed}

deliver-WellFormed :
    (seg : Segment) (r : StreamReassembler)
    → IsSegment seg
    → WellFormed r
    → WellFormed (drain_pending (deliver seg r))
unfolding deliver
deliver-WellFormed seg r s w =
    drain_pending-WellFormed (deliver seg r) (deliver-Counted seg r s w.counted)
      (Ascending-mono r.pending (omega arith) w.above) (λ e. w.clock ∙ e)

pub push_relative-WellFormed :
    (now later rel : ℕ) (seg : Segment) (r : StreamReassembler)
    → IsSegment seg
    → WellFormed r
    → WellFormed (push_relative now later rel seg r).0
push_relative-WellFormed now later rel seg r s w =
    push_relative_cases (λ x. WellFormed x.0) now later rel seg r (λ _. w)
      (λ n e lt. deliver-WellFormed _ r (trimmed-IsSegment n seg s lt) w)
      (λ lt. buffer_pending-WellFormed now later rel seg r lt s w) s.filled

pub rebase-WellFormed :
    (b : Option ℕ) (r : StreamReassembler) → WellFormed r → WellFormed (record r { base_seq = b })
rebase-WellFormed b r w = record {
  counted = record {
    contiguous_counted = w.contiguous_counted;
    pending_counted = w.pending_counted;
    delivered_counted = w.delivered_counted;
    contiguous_segments = w.contiguous_segments;
    pending_segments = w.pending_segments;
    bytes_within = w.bytes_within;
    packets_within = w.packets_within;
  };
  above = w.above;
  clock = w.clock;
}

pub set_isn-WellFormed :
    (first_byte_seq : ℕ) (r : StreamReassembler)
    → WellFormed r
    → WellFormed (set_isn first_byte_seq r)
unfolding set_isn
set_isn-WellFormed first_byte_seq r = rebase-WellFormed _ r

pub with_pending_limits-WellFormed :
    (limits : PendingLimits) → WellFormed (with_pending_limits limits)
unfolding with_pending_limits
with_pending_limits-WellFormed limits = record {
  counted = record {
    contiguous_counted = refl;
    pending_counted = refl;
    delivered_counted = omega arith;
    contiguous_segments = tt;
    pending_segments = tt;
    bytes_within = omega arith;
    packets_within = omega arith;
  };
  above = tt;
  clock = refl;
}

-- `push` keeps a reassembler well-formed, whichever way it goes, if the range given for the payload
-- has the payload's length.
pub push-WellFormed :
    (now later seq : ℕ) (seg : Segment) (r : StreamReassembler)
    → seg.range.end ≡ seg.range.start + length seg.bytes
    → WellFormed r
    → WellFormed (push now later seq seg r).0
unfolding push relative_seq
push-WellFormed now later seq seg r spans w = elim (Bool-cases (is_empty seg.bytes)) [
  | inl e ↦ rw e w
  | inr full ↦ rw full (
      push_relative-WellFormed now later _ seg _ (record { filled = ground arith; spans = spans })
        (rebase-WellFormed _ r w))
]
