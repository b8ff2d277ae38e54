-- ===== src/Reassembly/Examples.antt =====
-- Tests of the model of src/reassembly.rs, and its theorems at concrete inputs.
use tlscap.Prelude.{
  ℕ, ◌+◌, ◌<◌, ◌≡◌, ◌↔◌, ◌⊎◌, refl, none, some, List, [], ◌∷◌, ◌++◌, arith, length, if◌then◌else◌,
  ◌==◌, insert,
}
use tlscap.Prelude.Words.{wrapping_add, wrapping_sub, u32_mod}
use tlscap.Reassembly.{
  Segment, StreamReassembler, PendingLimits, Taken, duplicate_discarded, with_pending_limits,
  set_isn, push, relative_seq, push_relative, place, deliver, trimmed, drain_pending, drain_loop,
  buffer_pending, store_pending, enforce_limits, over_budget, evict_loop, peek, take_bytes,
  take_loop,
}
use tlscap.Reassembly.WellFormed.{WellFormed}
use tlscap.Reassembly.Invariant.{
  push-WellFormed, set_isn-WellFormed, with_pending_limits-WellFormed,
}
use tlscap.Reassembly.Taking.{contents, spanned}
use tlscap.Reassembly.Take.{take_bytes_splits}
use tlscap.Reassembly.Session.{Event, arrives, wants, run, opened}
use tlscap.Reassembly.Carries.{from_offset}
use tlscap.Reassembly.Stream.{run-prefix}
use tlscap.Reassembly.Coverage.{Within, Held, Lossless, push-Held}
use tlscap.Reassembly.Arrival.{NoLoss, ArrivesAt, run-first_missing}
use tlscap.Reassembly.Abandon.{Loses, Young, push_relative-Loses, push_within_limits}
use tlscap.Reassembly.Placed.{Placed}
use tlscap.Reassembly.Provenance.{IsCaptured, gathered, take_bytes-gathered}
use tlscap.Reassembly.Wraparound.{push_past_4_GiB}

abbrev limits : PendingLimits
limits = record { max_bytes = 6; max_packets = 2; max_age = 30 }

-- The last sequence number, so that the stream wraps after one byte.
abbrev isn : ℕ
isn = 4_294_967_295

abbrev letters : ℕ → ℕ
letters i = i + 97

abbrev captured : ℕ → ℕ → List ℕ → Segment
captured index start bytes = record {
  packet_index = index;
  range = record { start = start; end = start + length bytes };
  bytes = bytes;
}

abbrev ab : Segment
ab = captured 0 1 (97 ∷ 98 ∷ [])

abbrev bcd : Segment
bcd = captured 1 0 (98 ∷ 99 ∷ 100 ∷ [])

abbrev fgh : Segment
fgh = captured 2 0 (102 ∷ 103 ∷ 104 ∷ [])

abbrev fresh : StreamReassembler
fresh = set_isn isn (with_pending_limits limits)

-- Out of order, overlapping, and read in between.
abbrev reordered : List Event
reordered = arrives 0 0 0 bcd ∷ arrives 1 1 isn ab ∷ wants 3 ∷ arrives 2 2 4 fgh ∷ []

reordered_runs : run (opened limits isn) reordered ≡ record {
  reassembler = record {
    base_seq = some isn;
    next_expected_relative = 4;
    contiguous = captured 1 2 (100 ∷ []) ∷ [];
    contiguous_len = 1;
    pending = (5, fgh) ∷ [];
    pending_len = 3;
    limits = limits;
    pending_since = some 2;
  };
  output = 97 ∷ 98 ∷ 99 ∷ [];
}
unfolding run set_isn with_pending_limits push relative_seq push_relative place deliver trimmed
    drain_pending drain_loop buffer_pending store_pending enforce_limits over_budget evict_loop
    take_bytes take_loop
reordered_runs = refl

fresh-WellFormed : WellFormed fresh
fresh-WellFormed = set_isn-WellFormed isn _ (with_pending_limits-WellFormed limits)

run-prefix_example :
    let s = run (opened limits isn) reordered in
    (s.output ≡ from_offset letters 0 (length s.output))
    × (contents s.reassembler.contiguous
        ≡ from_offset letters (length s.output) s.reassembler.contiguous_len)
    × (length s.output + s.reassembler.contiguous_len ≡ s.reassembler.next_expected_relative)
run-prefix_example = run-prefix letters limits isn reordered (omega arith)

reordered-NoLoss : NoLoss (opened limits isn) reordered
unfolding run set_isn with_pending_limits push relative_seq push_relative place deliver trimmed
    drain_pending drain_loop buffer_pending store_pending enforce_limits over_budget evict_loop
    take_bytes take_loop
reordered-NoLoss = (tt, (tt, (tt, tt)))

run-first_missing_example :
    let next = (run (opened limits isn) reordered).reassembler.next_expected_relative in
    ((i : ℕ) → i < next → ArrivesAt isn i reordered) × (¬ (ArrivesAt isn next reordered))
run-first_missing_example =
    run-first_missing letters limits isn reordered (omega arith) reordered-NoLoss

-- `bcd` waits for the byte before it.
abbrev gapped : StreamReassembler
gapped = record {
  base_seq = some isn;
  next_expected_relative = 0;
  contiguous = [];
  contiguous_len = 0;
  pending = (1, bcd) ∷ [];
  pending_len = 3;
  limits = limits;
  pending_since = some 0;
}

gapped-WellFormed : WellFormed gapped
gapped-WellFormed = record {
  counted = record {
    contiguous_counted = refl;
    pending_counted = refl;
    delivered_counted = omega arith;
    contiguous_segments = tt;
    pending_segments = (record { filled = omega arith; spans = refl }, tt);
    bytes_within = omega arith;
    packets_within = omega arith;
  };
  above = omega arith;
  clock = refl;
}

push-WellFormed_example : WellFormed (push 1 1 isn ab gapped).0
push-WellFormed_example = push-WellFormed 1 1 isn ab gapped refl gapped-WellFormed

-- 20 units after the gap opened, two more bytes fit.
ab_fits : Lossless (push 20 20 6 ab gapped).1
ab_fits = push_within_limits 20 20 6 ab gapped gapped-WellFormed (omega arith) (omega arith) young
  where
    young : Young 20 20 gapped
    young = (omega arith, λ since e. omega arith)

-- Six bytes in the place of the three that wait: exactly what the cap allows.
abbrev bcdefg : Segment
bcdefg = captured 4 0 (98 ∷ 99 ∷ 100 ∷ 101 ∷ 102 ∷ 103 ∷ [])

push_within_limits_example : Lossless (push 20 20 0 bcdefg gapped).1
push_within_limits_example =
    push_within_limits 20 20 0 bcdefg gapped gapped-WellFormed (omega arith) (omega arith)
      (omega arith, λ since e. omega arith)

push-Held_example :
    Held (push 20 20 6 ab gapped).0 8 ↔ (Held gapped 8 ⊎ Within (wrapping_sub 6 isn) 2 8)
push-Held_example = push-Held 20 20 6 8 ab gapped gapped-WellFormed ab_fits

-- Four more bytes do not fit: the three that wait are given up.
abbrev ijkl : Segment
ijkl = captured 3 0 (105 ∷ 106 ∷ 107 ∷ 108 ∷ [])

push_relative-Loses_example :
    Loses (insert 8 ijkl gapped.pending) gapped (push_relative 1 1 8 ijkl gapped).0 3
unfolding push_relative place buffer_pending store_pending enforce_limits over_budget evict_loop
push_relative-Loses_example =
    push_relative-Loses 1 1 8 3 ijkl gapped gapped-WellFormed
      (record { filled = omega arith; spans = refl }) refl

abbrev ready : StreamReassembler
ready = record {
  base_seq = some isn;
  next_expected_relative = 4;
  contiguous = ab ∷ captured 1 1 (99 ∷ 100 ∷ []) ∷ [];
  contiguous_len = 4;
  pending = [];
  pending_len = 0;
  limits = limits;
  pending_since = none;
}

ready-WellFormed : WellFormed ready
ready-WellFormed = record {
  counted = record {
    contiguous_counted = refl;
    pending_counted = refl;
    delivered_counted = omega arith;
    contiguous_segments = (
      record { filled = omega arith; spans = refl },
      (record { filled = omega arith; spans = refl }, tt),
    );
    pending_segments = tt;
    bytes_within = omega arith;
    packets_within = omega arith;
  };
  above = tt;
  clock = refl;
}

take_bytes_splits_example :
    (t : Taken) × (take_bytes 3 ready ≡ some t)
    × (t.out ≡ peek 3 ready)
    × (length t.out ≡ 3)
    × (t.out ++ contents t.reassembler.contiguous ≡ contents ready.contiguous)
    × (spanned t.pieces ≡ 3)
    × (t.reassembler.pending ≡ ready.pending)
    × WellFormed t.reassembler
take_bytes_splits_example = take_bytes_splits 3 ready ready-WellFormed (omega arith)

abbrev capture : ℕ → List ℕ
capture index = if index == 0 then 0 ∷ 97 ∷ 98 ∷ [] else 98 ∷ 99 ∷ 100 ∷ []

ready-Placed : Placed (IsCaptured capture) ready
ready-Placed = record {
  count = refl;
  behind = omega arith;
  laid = (record { source = refl; spans = refl }, (record { source = refl; spans = refl }, tt));
  waiting = tt;
}

abbrev three : Taken
three = record {
  out = 97 ∷ 98 ∷ 99 ∷ [];
  pieces =
      record { packet_index = 0; range = record { start = 1; end = 3 } }
      ∷ record { packet_index = 1; range = record { start = 1; end = 2 } }
      ∷ [];
  reassembler = record ready { contiguous = captured 1 2 (100 ∷ []) ∷ []; contiguous_len = 1 };
}

take_bytes-gathered_example : three.out ≡ gathered capture three.pieces
unfolding take_bytes take_loop trimmed
take_bytes-gathered_example = take_bytes-gathered capture 3 ready three ready-Placed refl

-- Everything up to 4 GiB has been delivered and taken.
abbrev far : StreamReassembler
far = record ready { next_expected_relative = u32_mod; contiguous = []; contiguous_len = 0 }

push_past_4_GiB_example :
    push 0 0 (wrapping_add isn far.next_expected_relative) ab far ≡ (far, duplicate_discarded)
push_past_4_GiB_example =
    push_past_4_GiB 0 0 isn ab far (omega arith) refl (omega arith) (omega arith)
