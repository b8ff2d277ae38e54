-- ===== src/Reassembly/Session.antt =====
-- The life of one direction of a connection: what arrives at a reassembler of src/reassembly.rs, and
-- what its caller takes, in the order of `drain_records` of src/orchestrator.rs.
use tlscap.Prelude.{ℕ, Option, none, some, List, [], ◌∷◌, ◌++◌, leb, if◌then◌else◌}
use tlscap.Reassembly.{
  Segment, StreamReassembler, PendingLimits, Taken, push, take_bytes, set_isn, with_pending_limits,
}

-- What happens to one direction: a segment arrives, or the caller wants `n` bytes.
pub data Event : Type 0 where
  arrives : ℕ → ℕ → ℕ → Segment → Event
  wants : ℕ → Event

-- A reassembler with all that it has handed out.
pub record Session : Type 0 where
  pub reassembler : StreamReassembler
  pub output : List ℕ

abbrev pub handed : Session → Option Taken → Session
handed s none = s
handed s (some t) = record { reassembler = t.reassembler; output = s.output ++ t.out }

-- The caller asks for bytes only once `contiguous_len` says that they are there.
unfoldable pub step : Session → Event → Session
step s (arrives now later seq seg) = record s {
  reassembler = (push now later seq seg s.reassembler).0;
}
step s (wants n) =
    if leb n s.reassembler.contiguous_len then handed s (take_bytes n s.reassembler) else s

unfoldable pub run : Session → List Event → Session
unfolding step
run s [] = s
run s (e ∷ es) = run (step s e) es

-- The session of a stream whose SYN was seen.
abbrev pub opened : PendingLimits → ℕ → Session
opened limits isn = record { reassembler = set_isn isn (with_pending_limits limits); output = [] }
