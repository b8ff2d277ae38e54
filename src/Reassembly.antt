-- ===== src/Reassembly.antt =====
-- src/reassembly.rs: one direction of a TCP stream. A `VecDeque` is a list, front first; the
-- `BTreeMap` is a sorted association list; a byte is a number. `Instant`s are numbers that the
-- caller passes in: `now` is what `Instant::now()` reads in `buffer_pending`, and `later` is the
-- instant at which `elapsed()` reads the clock. The methods return the new state.
mod Loops
pub mod WellFormed
pub mod Cases
mod Drain
mod Buffer
pub mod Invariant
pub mod Placed
pub mod Grows
mod Taking
pub mod Take
pub mod Session
mod Carries
pub mod Stream
pub mod Coverage
pub mod Arrival
pub mod Abandon
pub mod Provenance
pub mod Wraparound
mod Examples
use tlscap.Prelude.{
  ℕ, zero, suc, ◌+◌, ◌-◌, ◌*◌, min, Bool, true, false, not, ◌&&◌, ◌||◌, Option, none, some, List,
  [], ◌∷◌, ◌++◌, ltb, leb, ◌==◌, if◌then◌else◌, length, take, drop, Sorted, lookup, insert,
}
use tlscap.Prelude.Words.{wrapping_sub}

pub record Range : Type 0 where
  pub start : ℕ
  pub end : ℕ

pub record SourcePiece : Type 0 where
  pub packet_index : ℕ
  pub range : Range

pub record Segment : Type 0 where
  pub packet_index : ℕ
  pub range : Range
  pub bytes : List ℕ

pub data PushOutcome : Type 0 where
  delivered duplicate_discarded buffered_out_of_order : PushOutcome
  gap_abandoned : ℕ → PushOutcome

pub record PendingLimits : Type 0 where
  pub max_bytes : ℕ
  pub max_packets : ℕ
  pub max_age : ℕ

abbrev pub default_max_pending_bytes : ℕ
default_max_pending_bytes = 4 * 1024 * 1024

abbrev pub default_max_pending_packets : ℕ
default_max_pending_packets = 50

-- 30 seconds, in nanoseconds.
abbrev pub default_max_pending_age : ℕ
default_max_pending_age = 30 * 1_000_000_000

abbrev pub default_limits : PendingLimits
default_limits = record {
  max_bytes = default_max_pending_bytes;
  max_packets = default_max_pending_packets;
  max_age = default_max_pending_age;
}

pub record StreamReassembler : Type 0 where
  pub base_seq : Option ℕ
  pub next_expected_relative : ℕ
  pub contiguous : List Segment
  pub contiguous_len : ℕ
  pub pending : Sorted Segment
  pub pending_len : ℕ
  pub limits : PendingLimits
  pub pending_since : Option ℕ

pub with_pending_limits : PendingLimits → StreamReassembler
with_pending_limits limits = record {
  base_seq = none;
  next_expected_relative = 0;
  contiguous = [];
  contiguous_len = 0;
  pending = [];
  pending_len = 0;
  limits = limits;
  pending_since = none;
}

-- `get_or_insert`
abbrev pub get_or_insert : Option ℕ → ℕ → ℕ
get_or_insert none x = x
get_or_insert (some y) x = y

-- The first call wins.
pub set_isn : ℕ → StreamReassembler → StreamReassembler
set_isn first_byte_seq r = record r { base_seq = some (get_or_insert r.base_seq first_byte_seq) }

pub relative_seq : ℕ → StreamReassembler → StreamReassembler × ℕ
relative_seq seq r =
    let base = get_or_insert r.base_seq seq in
    (record r { base_seq = some base }, wrapping_sub seq base)

pub deliver : Segment → StreamReassembler → StreamReassembler
deliver seg r = record r {
  next_expected_relative = r.next_expected_relative + length seg.bytes;
  contiguous = r.contiguous ++ seg ∷ [];
  contiguous_len = r.contiguous_len + length seg.bytes;
}

-- The segment without its first `n` bytes.
pub trimmed : ℕ → Segment → Segment
trimmed n seg = record seg {
  range = record { start = seg.range.start + n; end = seg.range.end };
  bytes = drop n seg.bytes;
}

-- `pending.remove` of the first entry, and its bytes off the count.
pub pop_pending : Segment → Sorted Segment → StreamReassembler → StreamReassembler
pop_pending seg rest r = record r { pending = rest; pending_len = r.pending_len - length seg.bytes }

-- The body of the loop of `drain_pending` for a first key below the next expected byte.
pub drain_stale : ℕ → Segment → StreamReassembler → StreamReassembler
unfolding trimmed deliver
drain_stale key seg r =
    if leb (key + length seg.bytes) r.next_expected_relative
    then r
    else deliver (trimmed (r.next_expected_relative - key) seg) r

-- The loop of `drain_pending`; its list is `pending`, of which each round removes the first entry.
pub drain_loop : Sorted Segment → StreamReassembler → StreamReassembler
unfolding drain_stale pop_pending
drain_loop [] r = r
drain_loop ((key, seg) ∷ rest) r = elim (ltb key r.next_expected_relative) [
  | true ↦ drain_loop rest (drain_stale key seg (pop_pending seg rest r))
  | false ↦ elim (key == r.next_expected_relative) [
    | true ↦ drain_loop rest (deliver seg (pop_pending seg rest r))
    | false ↦ r
  ]
]

abbrev pub is_empty {ℓ} : {A : Type ℓ} → List A → Bool
is_empty [] = true
is_empty (x ∷ xs) = false

-- `pending_since = None` once nothing is pending.
abbrev pub reset_clock : StreamReassembler → StreamReassembler
reset_clock r = record r { pending_since = if is_empty r.pending then none else r.pending_since }

pub drain_pending : StreamReassembler → StreamReassembler
drain_pending r = reset_clock (drain_loop r.pending r)

pub over_budget : StreamReassembler → Bool
over_budget r = ltb r.limits.max_bytes r.pending_len || ltb r.limits.max_packets (length r.pending)

-- The eviction loop of `buffer_pending`, with the bytes evicted so far.
pub evict_loop : Sorted Segment → StreamReassembler → ℕ → StreamReassembler × ℕ
unfolding pop_pending
evict_loop [] r evicted = (r, evicted)
evict_loop ((oldest_key, seg) ∷ rest) r evicted = elim (over_budget r) [
  | true ↦ evict_loop rest (pop_pending seg rest r) (evicted + length seg.bytes)
  | false ↦ (r, evicted)
]

abbrev pub age_exceeded : ℕ → StreamReassembler → Bool
age_exceeded later r = elim r.pending_since [
  | none ↦ false
  | some since ↦ ltb r.limits.max_age (later - since)
]

-- `buffer_pending` from the insertion on.
pub store_pending : ℕ → ℕ → ℕ → Segment → StreamReassembler → StreamReassembler
store_pending now later rel seg r = record r {
  pending_since = if is_empty r.pending then some now else r.pending_since;
  pending = insert rel seg r.pending;
  pending_len = r.pending_len + length seg.bytes;
}

-- The three limits, after the insertion.
pub enforce_limits : ℕ → StreamReassembler → StreamReassembler × PushOutcome
enforce_limits later r =
    let evicted = evict_loop r.pending r 0 in
    if not (over_budget r) && not (age_exceeded later r)
    then (r, buffered_out_of_order)
    else if age_exceeded later r
    then (
      record r { pending = []; pending_len = 0; pending_since = none },
      gap_abandoned r.pending_len,
    )
    else (reset_clock evicted.0, gap_abandoned evicted.1)

pub buffer_pending : ℕ → ℕ → ℕ → Segment → StreamReassembler → StreamReassembler × PushOutcome
buffer_pending now later rel seg r = elim (lookup rel r.pending) [
  | none ↦ enforce_limits later (store_pending now later rel seg r)
  | some existing ↦
      if leb (length seg.bytes) (length existing.bytes)
      then (r, duplicate_discarded)
      else enforce_limits later (
          store_pending now later rel seg
            (record r { pending_len = r.pending_len - length existing.bytes }))
]

-- Cases 3 and 4 of `push_relative`.
pub place : ℕ → ℕ → ℕ → Segment → StreamReassembler → StreamReassembler × PushOutcome
place now later rel seg r =
    if rel == r.next_expected_relative
    then (drain_pending (deliver seg r), delivered)
    else buffer_pending now later rel seg r

-- Cases 1 and 2 of `push_relative`; the segment holds the packet's index, range and payload.
pub push_relative : ℕ → ℕ → ℕ → Segment → StreamReassembler → StreamReassembler × PushOutcome
push_relative now later rel seg r =
    let next = r.next_expected_relative in
    if leb (rel + length seg.bytes) next
    then (r, duplicate_discarded)
    else if ltb rel next
    then place now later next (trimmed (next - rel) seg) r
    else place now later rel seg r

pub push : ℕ → ℕ → ℕ → Segment → StreamReassembler → StreamReassembler × PushOutcome
push now later seq seg r =
    if is_empty seg.bytes
    then (r, duplicate_discarded)
    else let (r', rel) = relative_seq seq r in push_relative now later rel seg r'

-- The loop of `peek`.
pub peek_loop : List Segment → ℕ → List ℕ → List ℕ
peek_loop [] n out = out
peek_loop (seg ∷ segs) n out = elim (leb n (length out)) [
  | true ↦ out
  | false ↦ peek_loop segs n (out ++ take (min (n - length out) (length seg.bytes)) seg.bytes)
]

pub peek : ℕ → StreamReassembler → List ℕ
peek n r = peek_loop r.contiguous n []

pub record Taken : Type 0 where
  pub out : List ℕ
  pub pieces : List SourcePiece
  pub reassembler : StreamReassembler

-- The piece of a segment's first `n` bytes.
abbrev pub piece : ℕ → Segment → SourcePiece
piece n seg = record {
  packet_index = seg.packet_index;
  range = record { start = seg.range.start; end = seg.range.start + n };
}

-- The loop of `take_bytes`; its list is `contiguous`. `none` is the panic of `expect`. In the last
-- branch fewer bytes are wanted than the segment has, so none remain to be taken and the loop ends.
pub take_loop : List Segment → ℕ → List ℕ → List SourcePiece → StreamReassembler → Option Taken
take_loop segs zero out pieces r =
    some (record { out = out; pieces = pieces; reassembler = record r { contiguous = segs } })
take_loop [] (suc n) out pieces r = none
take_loop (seg ∷ segs) (suc n) out pieces r =
    let count = min (suc n) (length seg.bytes) in
    let r' : StreamReassembler = record r { contiguous_len = r.contiguous_len - count } in
    elim (count == length seg.bytes) [
      | true ↦
          take_loop segs (suc n - count) (out ++ take count seg.bytes)
            (pieces ++ piece count seg ∷ []) r'
      | false ↦ some (record {
        out = out ++ take count seg.bytes;
        pieces = pieces ++ piece count seg ∷ [];
        reassembler = record r' { contiguous = trimmed count seg ∷ segs };
      })
    ]

-- `none` is a panic: the `assert!`, or the `expect` in the loop.
pub take_bytes : ℕ → StreamReassembler → Option Taken
take_bytes n r = if leb n r.contiguous_len then take_loop r.contiguous n [] [] r else none
