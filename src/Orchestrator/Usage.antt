-- ===== src/Orchestrator/Usage.antt =====
-- What src/orchestrator.rs reports of its memory: the connections and the bytes that they buffer.
use tlscap.Prelude.{
  ℕ, ◌+◌, ◌-◌, ◌≤◌, ◌≡◌, refl, ◌∙◌, Bool, true, false, none, some, List, [], ◌∷◌, ltb, leb, ◌&&◌,
  if◌then◌else◌, length, get, put, Bool-cases, Option-cases, inl, inr, arith,
}
use tlscap.Crypto.{Crypto, Lawful}
use tlscap.Keylog.{Keylog}
use tlscap.Reassembly.{StreamReassembler}
use tlscap.Reassembly.WellFormed.{WellFormed, total, pending_total}
use tlscap.Orchestrator.{ConnKey, conn_key, Connection, is_closed}
use tlscap.Orchestrator.Records.{Dissected, Calm, DecodedMessage, drain_records}
use tlscap.Orchestrator.Frames.{
  TcpFrame, OrchestratorConfig, Orchestrator, Clock, key_eq, remove, is_none, is_active, retain,
  maybe_sweep_idle, evict, finish_frame, process_frame,
}
use tlscap.Orchestrator.Safety.{AllFormed, Invariant, process_frame-Invariant}

abbrev pub conn_buffered : Connection → ℕ
conn_buffered c =
    c.reassembler_c2s.contiguous_len + c.reassembler_c2s.pending_len
    + c.reassembler_s2c.contiguous_len + c.reassembler_s2c.pending_len

unfoldable pub buffered_bytes : List (ConnKey × Connection) → ℕ
buffered_bytes [] = 0
buffered_bytes ((k, conn) ∷ m) = conn_buffered conn + buffered_bytes m

-- The bytes of the segments that a reassembler holds.
abbrev held : StreamReassembler → ℕ
held r = total r.contiguous + pending_total r.pending

-- The bytes of all segments that the connections hold.
abbrev pub held_bytes : List (ConnKey × Connection) → ℕ
held_bytes [] = 0
held_bytes ((k, conn) ∷ m) = held conn.reassembler_c2s + held conn.reassembler_s2c + held_bytes m

counted-held : (r : StreamReassembler) → WellFormed r → r.contiguous_len + r.pending_len ≡ held r
counted-held r w = omega (arith, w.contiguous_counted, w.pending_counted)

buffered_bytes-held :
    (m : List (ConnKey × Connection)) → AllFormed m → buffered_bytes m ≡ held_bytes m
unfolding buffered_bytes
buffered_bytes-held [] a = refl
buffered_bytes-held ((k, conn) ∷ m) a = omega (
  arith,
  counted-held conn.reassembler_c2s (a.0 true),
  counted-held conn.reassembler_s2c (a.0 false),
  buffered_bytes-held m a.1,
)

-- One for a key that the map does not have.
abbrev pub fresh : ConnKey → List (ConnKey × Connection) → ℕ
fresh k m = if is_none (get key_eq k m) then 1 else 0

length-put :
    (k : ConnKey) (conn : Connection) (m : List (ConnKey × Connection))
    → length (put key_eq k conn m) ≡ length m + fresh k m
length-put k conn [] = refl
length-put k conn ((j, c) ∷ m) = elim (Bool-cases (key_eq j k)) [
  | inl e ↦ rw e (omega arith)
  | inr e ↦ rw e (omega (arith, length-put k conn m))
]

length-remove :
    (k : ConnKey) (m : List (ConnKey × Connection)) → length (remove k m) + 1 ≡ length m + fresh k m
length-remove k [] = refl
length-remove k ((j, c) ∷ m) = elim (Bool-cases (key_eq j k)) [
  | inl e ↦ rw e (omega arith)
  | inr e ↦ rw e (omega (arith, length-remove k m))
]

length-retain :
    (now idle_timeout : ℕ) (m : List (ConnKey × Connection))
    → length (retain now idle_timeout m) ≤ length m
unfolding retain
length-retain now idle_timeout [] = omega arith
length-retain now idle_timeout ((j, c) ∷ m) =
    elim (Bool-cases (is_active now idle_timeout c.meta.last_activity)) [
      | inl e ↦ rw (e, retain) (omega (arith, length-retain now idle_timeout m))
      | inr e ↦ rw (e, retain) (omega (arith, length-retain now idle_timeout m))
    ]

module _ {L S : Type 0} where
  abbrev pub active_connections : Orchestrator L S → ℕ
  active_connections orch = length orch.connections

  -- The connections there are and those that are evicted.
  abbrev pub opened : Orchestrator L S → ℕ
  opened orch = active_connections orch + orch.evicted_connections

  evict-opened :
      (key : ConnKey) (conn : Connection) (orch : Orchestrator L S)
      → opened (evict key conn orch) ≡ opened orch + fresh key orch.connections
  unfolding evict
  evict-opened key conn orch = elim (Bool-cases (is_closed conn.meta)) [
    | inl e ↦ rw e (omega (arith, length-remove key orch.connections))
    | inr e ↦ rw e (omega (arith, length-put key conn orch.connections))
  ]

  maybe_sweep_idle-opened :
      (config : OrchestratorConfig) (clock : Clock) (orch : Orchestrator L S)
      → opened (maybe_sweep_idle config clock orch) ≡ opened orch
  unfolding maybe_sweep_idle
  maybe_sweep_idle-opened config clock orch = elim (Option-cases config.idle_timeout) [
    | inl e ↦ rw (e, maybe_sweep_idle) refl
    | inr (t, e) ↦
        elim (Bool-cases (ltb (clock.sweep_check - orch.last_sweep) config.sweep_interval)) [
          | inl early ↦ rw (e, early, maybe_sweep_idle) refl
          | inr due ↦
              rw (e, due, maybe_sweep_idle)
                (omega (arith, length-retain clock.sweep_now t orch.connections))
        ]
  ]

module _ (crypto : Crypto) {F L S : Type 0} (no_fields : F)
    (dissect : ℕ → List ℕ → L → Dissected F × L) (poll poll_after_miss : S → S)
    (current : S → Keylog) (config : OrchestratorConfig) where
  finish_frame-opened :
      (clock : Clock) (key : ConnKey) (is_c2s : Bool) (timestamp : ℕ) (fed : Connection × ℕ × ℕ)
      → (orch : Orchestrator L S) (out : List (DecodedMessage F)) (after : Orchestrator L S)
      → finish_frame crypto no_fields dissect poll poll_after_miss current config clock key is_c2s
          timestamp fed orch
        ≡ some (out, after)
      → opened after ≡ opened orch + fresh key orch.connections
  unfolding finish_frame
  finish_frame-opened clock key is_c2s timestamp (conn, lost, desynced) orch out after e =
      elim (Option-cases (
        drain_records crypto no_fields dissect poll poll_after_miss current config.max_tail_bytes
          is_c2s timestamp conn orch.world [])) [
            | inl stuck ↦
                let e' : none ≡ some (out, after) = rw (stuck, finish_frame) at e in absurd (cc)
            | inr ((conn', world', out'), drained) ↦
                let orch' : Orchestrator L S = record orch {
                  world = world';
                  gap_abandoned_bytes = orch.gap_abandoned_bytes + lost;
                  connections_desynced = orch.connections_desynced + desynced;
                } in
                let e' : some (out', maybe_sweep_idle config clock (evict key conn' orch'))
                    ≡ some (out, after) =
                  rw (drained, finish_frame) at e in
                let same : maybe_sweep_idle config clock (evict key conn' orch') ≡ after = cc in
                rw (← same) (
                  maybe_sweep_idle-opened config clock (evict key conn' orch')
                  ∙ evict-opened key conn' orch')
          ]

  -- What `process_frame` reports of its memory afterwards is true, with a lawful cryptography, dissectors
  -- that do not panic, a payload range that lies in the packet and the invariant before: the connections that are open and those
  -- that were evicted are together one more than before for a frame of a new connection, and as many
  -- for another, so each one opened is open or counted as evicted once. The bytes that are reported
  -- as buffered are those of the segments that the open connections hold.
  pub process_frame-Accounted :
      (clock : Clock) (frame : TcpFrame) (packet_index : ℕ) (packet_data : List ℕ) (timestamp : ℕ)
      → (orch : Orchestrator L S) → Lawful crypto
      → Calm dissect
      → frame.payload_range.start ≤ frame.payload_range.end
      → frame.payload_range.end ≤ length packet_data
      → Invariant crypto no_fields dissect poll poll_after_miss current config orch
      → (out : List (DecodedMessage F)) × (after : Orchestrator L S) × ((process_frame crypto
            no_fields dissect poll poll_after_miss current config clock frame packet_index
            packet_data timestamp orch).1
          ≡ some (out, after))
        × (opened after
            ≡ opened orch
              + fresh
                  (conn_key (frame.src_ip, frame.src_port) (frame.dst_ip, frame.dst_port))
                  orch.connections)
        × (buffered_bytes after.connections ≡ held_bytes after.connections)
  unfolding process_frame
  process_frame-Accounted clock frame packet_index packet_data timestamp orch law calm order inside
        i =
      let range = frame.payload_range in
      let ok' : leb range.start range.end && leb range.end (length packet_data) ≡ true =
        ground arith in
      let (out, after, e, i') =
        process_frame-Invariant crypto no_fields dissect poll poll_after_miss current config clock
          frame packet_index packet_data timestamp orch law calm order inside i in
      (
        out,
        after,
        e,
        finish_frame-opened clock
            (conn_key (frame.src_ip, frame.src_port) (frame.dst_ip, frame.dst_port)) _ timestamp _
            orch out after (rw ok' at e),
        buffered_bytes-held after.connections i'.0,
      )
