-- ===== src/Orchestrator/Upkeep.antt =====
-- `maybe_gc_lua` of src/orchestrator.rs, and its log of the ports that have no dissector.
use tlscap.Prelude.{
  ℕ, ◌+◌, ◌-◌, ◌*◌, zero, suc, ◌≤◌, ◌≡◌, refl, Bool, true, false, ◌||◌, Option, none, some, List,
  [], ◌∷◌, ltb, ◌==◌, if◌then◌else◌, Bool-cases, inl, inr, arith, length,
}
use tlscap.Crypto.{Crypto, Lawful}
use tlscap.Keylog.{Keylog}
use tlscap.Orchestrator.Records.{
  Dissected, Calm, fields, unregistered, error, panicked, DecodedMessage,
}
use tlscap.Orchestrator.Frames.{
  TcpFrame, PacketEvent, OrchestratorConfig, Orchestrator, Clock, process_frame,
}
use tlscap.Orchestrator.Safety.{Invariant, process_frame-Invariant}

-- The embedded interpreter, with the time of its last forced collection, and the ports logged.
pub record Heap (L : Type 0) : Type 0 where
  pub last_lua_gc : ℕ
  pub logged_no_dissector_ports : List ℕ
  pub lua : L

-- One reading of the clock for the elapsed time, and one for the time of the collection.
abbrev pub Reading : Type 0
Reading = ℕ × ℕ

module _ {L : Type 0} (gc_collect : L → L) (lua_gc_interval : ℕ) where
  pub maybe_gc_lua : Reading → Heap L → Heap L
  maybe_gc_lua (check, now) h =
      if ltb (check - h.last_lua_gc) lua_gc_interval
      then h
      else record h { last_lua_gc = now; lua = gc_collect h.lua }

  abbrev upkeep : List Reading → Heap L → Heap L
  upkeep [] h = h
  upkeep (reading ∷ readings) h = upkeep readings (maybe_gc_lua reading h)

  -- A clock that does not go back.
  abbrev Forward : ℕ → List Reading → Type 0
  Forward t [] = Unit {0}
  Forward t ((check, now) ∷ readings) = (t ≤ check) × (check ≤ now) × Forward now readings

  abbrev repeat_gc : ℕ → L → L
  repeat_gc zero lua = lua
  repeat_gc (suc n) lua = repeat_gc n (gc_collect lua)

  -- The heap is that of n collections, and n intervals have gone by since the last collection before.
  pub upkeep-paced :
      (readings : List Reading) (t : ℕ) (h : Heap L)
      → Forward t readings
      → h.last_lua_gc ≤ t
      → (n : ℕ) × ((upkeep readings h).lua ≡ repeat_gc n h.lua)
        × (h.last_lua_gc + n * lua_gc_interval ≤ (upkeep readings h).last_lua_gc)
  unfolding maybe_gc_lua
  upkeep-paced [] t h f le = (0, refl, omega arith)
  upkeep-paced ((check, now) ∷ readings) t h f le =
      elim (Bool-cases (ltb (check - h.last_lua_gc) lua_gc_interval)) [
        | inl early ↦
            let (n, same, spaced) = upkeep-paced readings now h f.2 (ground arith) in
            rw (early, upkeep) (n, same, spaced)
        | inr due ↦
            let h' : Heap L = record h { last_lua_gc = now; lua = gc_collect h.lua } in
            let (n, same, spaced) = upkeep-paced readings now h' f.2 (omega arith) in
            rw (due, upkeep) (suc n, same, ground (arith, due, spaced, f.1))
      ]

abbrev pub contains : ℕ → List ℕ → Bool
contains p [] = false
contains p (q ∷ qs) = (p == q) || contains p qs

-- The ports logged after one more without a dissector, and the port if it is printed.
pub note_no_dissector : ℕ → List ℕ → List ℕ × Option ℕ
note_no_dissector port logged =
    if contains port logged then (logged, none) else (port ∷ logged, some port)

abbrev with_option : Option ℕ → List ℕ → List ℕ
with_option none ports = ports
with_option (some port) ports = port ∷ ports

-- What is printed for a sequence of records without a dissector.
abbrev printed : List ℕ → List ℕ → List ℕ
printed logged [] = []
printed logged (port ∷ ports) =
    let (logged', line) = note_no_dissector port logged in with_option line (printed logged' ports)

abbrev count : ℕ → List ℕ → ℕ
count p [] = 0
count p (q ∷ qs) = (if p == q then 1 else 0) + count p qs

-- Every port that comes up is printed once, unless it was logged before, and no other.
pub printed_once :
    (p : ℕ) (ports logged : List ℕ)
    → count p (printed logged ports)
      ≡ (if contains p logged then 0 else if contains p ports then 1 else 0)
unfolding note_no_dissector
printed_once p [] logged = elim (Bool-cases (contains p logged)) [
  | inl e ↦ rw e refl
  | inr e ↦ rw e refl
]
printed_once p (port ∷ ports) logged = elim (Bool-cases (contains port logged)) [
  | inl seen ↦ rw seen (
      rw (printed_once p ports logged) (elim (Bool-cases (p == port)) [
        | inl here ↦
            let same : p ≡ port = ground arith in
            let seen' : contains p logged ≡ true = rw (same) seen in rw seen' refl
        | inr other ↦ rw other (omega arith)
      ]))
  | inr new' ↦ rw new' (
      rw (printed_once p ports (port ∷ logged)) (elim (Bool-cases (p == port)) [
        | inl here ↦
            let same : p ≡ port = ground arith in
            let new'' : contains p logged ≡ false = rw (same) new' in rw (here, new'') refl
        | inr other ↦ rw other (omega arith)
      ]))
]

abbrev note_dissected : {F : Type 0} → Dissected F → ℕ → List ℕ → List ℕ
note_dissected (fields f consumed) port logged = logged
note_dissected unregistered port logged = (note_no_dissector port logged).0
note_dissected error port logged = logged
note_dissected panicked port logged = logged

module _ {F L : Type 0} (dissect : ℕ → List ℕ → L → Dissected F × L) where
  -- The call of the dissector in `dissect_and_emit`, with the log.
  abbrev dissect_logged : ℕ → List ℕ → Heap L → Dissected F × Heap L
  dissect_logged port bytes h =
      let (dissected, lua) = dissect port bytes h.lua in
      (
        dissected,
        record h {
          logged_no_dissector_ports = note_dissected dissected port h.logged_no_dissector_ports;
          lua = lua;
        },
      )

module _ {F L S : Type 0} (dissect : ℕ → List ℕ → L → Dissected F × L) (gc_collect : L → L)
    (lua_gc_interval : ℕ) where
  abbrev collect_after :
      Reading
      → Option (List (DecodedMessage F) × Orchestrator (Heap L) S)
      → Option (List (DecodedMessage F) × Orchestrator (Heap L) S)
  collect_after reading none = none
  collect_after reading (some (out, orch)) =
      let world = orch.world in
      some (
        out,
        record orch {
          world = record world { lua = maybe_gc_lua gc_collect lua_gc_interval reading world.lua };
        },
      )

  module _ (crypto : Crypto) (no_fields : F) (poll poll_after_miss : S → S) (current : S → Keylog)
      (config : OrchestratorConfig) where
    -- `process_frame` with the log of ports, and with the collection that ends it.
    pub process_frame_with_upkeep :
        Reading
        → Clock
        → TcpFrame
        → ℕ
        → List ℕ
        → ℕ
        → Orchestrator (Heap L) S
        → PacketEvent × Option (List (DecodedMessage F) × Orchestrator (Heap L) S)
    process_frame_with_upkeep reading clock frame packet_index packet_data timestamp orch =
        let (event, result) =
          process_frame crypto no_fields (dissect_logged dissect) poll poll_after_miss current
            config clock frame packet_index packet_data timestamp orch in
        (event, collect_after reading result)

    -- The whole frame neither panics nor breaks the invariant, if the dissectors do not panic.
    pub process_frame_with_upkeep-Invariant :
        (reading : Reading) (clock : Clock) (frame : TcpFrame) (packet_index : ℕ)
        → (packet_data : List ℕ) (timestamp : ℕ) (orch : Orchestrator (Heap L) S) → Lawful crypto
        → Calm dissect
        → frame.payload_range.start ≤ frame.payload_range.end
        → frame.payload_range.end ≤ length packet_data
        → Invariant crypto no_fields
            (dissect_logged dissect)
            poll
            poll_after_miss
            current
            config
            orch
        → (out : List (DecodedMessage F)) × (after : Orchestrator (Heap L) S)
          × ((process_frame_with_upkeep reading clock frame packet_index packet_data timestamp
                orch).1
              ≡ some (out, after))
          × Invariant crypto no_fields
              (dissect_logged dissect)
              poll
              poll_after_miss
              current
              config
              after
    unfolding process_frame_with_upkeep
    process_frame_with_upkeep-Invariant reading clock frame packet_index packet_data timestamp orch
          law calm order inside i =
        let (out, after, e, i') =
          process_frame-Invariant crypto no_fields (dissect_logged dissect) poll poll_after_miss
            current config clock frame packet_index packet_data timestamp orch law
            (λ port bytes h. calm port bytes h.lua) order inside i in
        let world = after.world in
        (
          out,
          record after {
            world = record world {
              lua = maybe_gc_lua gc_collect lua_gc_interval reading world.lua;
            };
          },
          rw e refl,
          i',
        )
