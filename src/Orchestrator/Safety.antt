-- ===== src/Orchestrator/Safety.antt =====
-- `process_frame` of src/orchestrator.rs never panics and keeps what it relies on.
use tlscap.Prelude.{
  ℕ, ◌+◌, ◌-◌, ◌≤◌, ◌≡◌, refl, subst, Bool, true, false, not, ◌&&◌, ◌||◌, Option, none, some, List,
  [], ◌∷◌, ltb, leb, length, slice, drop, length-take, length-drop, get, put, Bool-cases,
  Option-cases, inl, inr, arith,
}
use tlscap.Prelude.Words.{wrapping_add}
use tlscap.Crypto.{Crypto, Lawful}
use tlscap.Keylog.{Keylog}
use tlscap.Reassembly.{
  StreamReassembler, Segment, PendingLimits, PushOutcome, delivered, duplicate_discarded,
  buffered_out_of_order, gap_abandoned, push, is_empty,
}
use tlscap.Reassembly.WellFormed.{WellFormed}
use tlscap.Reassembly.Invariant.{
  push-WellFormed, set_isn-WellFormed, with_pending_limits-WellFormed,
}
use tlscap.Orchestrator.{
  Endpoint, ConnKey, conn_key, ConnectionMeta, is_closed, Connection, reassembler_for,
  set_reassembler, is_desynced, mark_desynced,
}
use tlscap.Orchestrator.Records.{Dissected, Calm, DecodedMessage}
use tlscap.Orchestrator.Progress.{Formed, Balanced, drain_records-Drained}
use tlscap.Orchestrator.Frames.{
  TcpFrame, OrchestratorConfig, Orchestrator, Clock, key_eq, remove, or_new, anchor, is_none,
  note_syn, after_push, feed, retain, is_active, maybe_sweep_idle, evict, endpoint_eq, finish_frame,
  noted, process_frame,
}

abbrev pub AllFormed : List (ConnKey × Connection) → Type 0
AllFormed [] = Unit {0}
AllFormed ((k, conn) ∷ m) = Formed conn × AllFormed m

put-AllFormed :
    (k : ConnKey) (conn : Connection) (m : List (ConnKey × Connection))
    → Formed conn
    → AllFormed m
    → AllFormed (put key_eq k conn m)
put-AllFormed k conn [] f a = (f, tt)
put-AllFormed k conn ((j, c) ∷ m) f a = elim (Bool-cases (key_eq j k)) [
  | inl e ↦ rw e (f, a.1)
  | inr e ↦ rw e (a.0, put-AllFormed k conn m f a.1)
]

remove-AllFormed :
    (k : ConnKey) (m : List (ConnKey × Connection)) → AllFormed m → AllFormed (remove k m)
remove-AllFormed k [] a = tt
remove-AllFormed k ((j, c) ∷ m) a = elim (Bool-cases (key_eq j k)) [
  | inl e ↦ rw e a.1
  | inr e ↦ rw e (a.0, remove-AllFormed k m a.1)
]

retain-AllFormed :
    (now idle_timeout : ℕ) (m : List (ConnKey × Connection))
    → AllFormed m
    → AllFormed (retain now idle_timeout m)
unfolding retain
retain-AllFormed now idle_timeout [] a = tt
retain-AllFormed now idle_timeout ((j, c) ∷ m) a =
    elim (Bool-cases (is_active now idle_timeout c.meta.last_activity)) [
      | inl e ↦ rw (e, retain) (a.0, retain-AllFormed now idle_timeout m a.1)
      | inr e ↦ rw (e, retain) (retain-AllFormed now idle_timeout m a.1)
    ]

get-Formed :
    (k : ConnKey) (conn : Connection) (m : List (ConnKey × Connection))
    → AllFormed m
    → get key_eq k m ≡ some conn
    → Formed conn
get-Formed k conn [] a e = absurd (cc)
get-Formed k conn ((j, c) ∷ m) a e = elim (Bool-cases (key_eq j k)) [
  | inl h ↦
      let e' : some c ≡ some conn = rw h at e in let same : c ≡ conn = cc in subst Formed same a.0
  | inr h ↦ get-Formed k conn m a.1 (rw h at e)
]

set_reassembler-Formed :
    (is_c2s : Bool) (r : StreamReassembler) (conn : Connection)
    → WellFormed r
    → Formed conn
    → Formed (set_reassembler is_c2s r conn)
set_reassembler-Formed true r conn w f true = w
set_reassembler-Formed true r conn w f false = f false
set_reassembler-Formed false r conn w f true = f true
set_reassembler-Formed false r conn w f false = w

mark_desynced-Formed :
    (is_c2s : Bool) (limits : PendingLimits) (conn : Connection)
    → Formed conn
    → Formed (mark_desynced is_c2s limits conn)
unfolding mark_desynced
mark_desynced-Formed true limits conn f true = with_pending_limits-WellFormed limits
mark_desynced-Formed true limits conn f false = f false
mark_desynced-Formed false limits conn f true = f true
mark_desynced-Formed false limits conn f false = with_pending_limits-WellFormed limits

after_push-Formed :
    (o : PushOutcome) (is_c2s : Bool) (limits : PendingLimits) (conn : Connection)
    → Formed conn
    → Formed (after_push o is_c2s limits conn).0
after_push-Formed (gap_abandoned n) is_c2s limits conn f = mark_desynced-Formed is_c2s limits conn f
after_push-Formed delivered is_c2s limits conn f = f
after_push-Formed duplicate_discarded is_c2s limits conn f = f
after_push-Formed buffered_out_of_order is_c2s limits conn f = f

feed-Formed :
    (clock : Clock) (index seq : ℕ) (seg : Segment) (is_c2s : Bool) (limits : PendingLimits)
    → (conn : Connection) → seg.range.end ≡ seg.range.start + length seg.bytes
    → Formed conn
    → Formed (feed clock index seq seg is_c2s limits conn).0
unfolding feed
feed-Formed clock index seq seg is_c2s limits conn spans f =
    let pushed = push clock.push_now clock.push_later seq seg (reassembler_for is_c2s conn) in
    elim (Bool-cases (is_empty seg.bytes || is_desynced is_c2s conn)) [
      | inl skip ↦ rw (skip, feed) f
      | inr new' ↦
          rw (new', feed)
            (after_push-Formed pushed.1 is_c2s limits (set_reassembler is_c2s pushed.0 conn) (
              set_reassembler-Formed is_c2s pushed.0 conn
                (push-WellFormed clock.push_now clock.push_later seq seg
                  (reassembler_for is_c2s conn) spans (f is_c2s))
                f))
    ]

or_new-Formed :
    (o : Option Connection) (src dst : Endpoint) (limits : PendingLimits)
    → ((conn : Connection) → o ≡ some conn → Formed conn)
    → Formed (or_new o src dst limits)
or_new-Formed none src dst limits h true = with_pending_limits-WellFormed limits
or_new-Formed none src dst limits h false = with_pending_limits-WellFormed limits
or_new-Formed (some conn) src dst limits h d = h conn refl d

anchor-Formed :
    (b : Bool) (src dst : Endpoint) (conn : Connection)
    → Formed conn
    → Formed (anchor b src dst conn)
anchor-Formed true src dst conn f true = f true
anchor-Formed true src dst conn f false = f false
anchor-Formed false src dst conn f d = f d

note_syn-Formed :
    (b is_c2s : Bool) (seq : ℕ) (conn : Connection)
    → Formed conn
    → Formed (note_syn b is_c2s seq conn)
note_syn-Formed true is_c2s seq conn f =
    set_reassembler-Formed is_c2s _ conn
      (set_isn-WellFormed (wrapping_add seq 1) (reassembler_for is_c2s conn) (f is_c2s)) f
note_syn-Formed false is_c2s seq conn f = f

set_meta-Formed :
    (meta : ConnectionMeta) (conn : Connection) → Formed conn → Formed (record conn { meta = meta })
set_meta-Formed meta conn f true = f true
set_meta-Formed meta conn f false = f false

module _ (crypto : Crypto) {F L S : Type 0} (no_fields : F)
    (dissect : ℕ → List ℕ → L → Dissected F × L) (poll poll_after_miss : S → S)
    (current : S → Keylog) (config : OrchestratorConfig) where
  noted-Formed :
      (clock : Clock) (frame : TcpFrame) (connections : List (ConnKey × Connection))
      → AllFormed connections
      → Formed
          (noted crypto no_fields dissect poll poll_after_miss current config clock frame
            connections).0
  unfolding noted
  noted-Formed clock frame connections a =
      let src : Endpoint = (frame.src_ip, frame.src_port) in
      let dst : Endpoint = (frame.dst_ip, frame.dst_port) in
      let found = get key_eq (conn_key src dst) connections in
      let conn =
        anchor (is_none found && frame.flags.syn && not frame.flags.ack) src dst
          (or_new found src dst config.pending_limits) in
      let is_c2s = endpoint_eq src conn.client_endpoint in
      set_meta-Formed _ (note_syn frame.flags.syn is_c2s frame.seq conn) (
        note_syn-Formed frame.flags.syn is_c2s frame.seq conn (
          anchor-Formed _ src dst (or_new found src dst config.pending_limits) (
            or_new-Formed found src dst config.pending_limits
              (λ c. get-Formed (conn_key src dst) c connections a))))

  -- What `process_frame` relies on: well-formed reassemblers, and counters that add up.
  abbrev pub Invariant : Orchestrator L S → Type 0
  Invariant orch = AllFormed orch.connections × Balanced orch.world.stats

  evict-Invariant :
      (key : ConnKey) (conn : Connection) (orch : Orchestrator L S)
      → Formed conn
      → Invariant orch
      → Invariant (evict key conn orch)
  unfolding evict
  evict-Invariant key conn orch f i = elim (Bool-cases (is_closed conn.meta)) [
    | inl e ↦ rw e (remove-AllFormed key orch.connections i.0, i.1)
    | inr e ↦ rw e (put-AllFormed key conn orch.connections f i.0, i.1)
  ]

  maybe_sweep_idle-Invariant :
      (clock : Clock) (orch : Orchestrator L S)
      → Invariant orch
      → Invariant (maybe_sweep_idle config clock orch)
  unfolding maybe_sweep_idle
  maybe_sweep_idle-Invariant clock orch i = elim (Option-cases config.idle_timeout) [
    | inl e ↦ rw (e, maybe_sweep_idle) i
    | inr (t, e) ↦
        elim (Bool-cases (ltb (clock.sweep_check - orch.last_sweep) config.sweep_interval)) [
          | inl early ↦ rw (e, early, maybe_sweep_idle) i
          | inr due ↦
              rw (e, due, maybe_sweep_idle)
                (retain-AllFormed clock.sweep_now t orch.connections i.0, i.1)
        ]
  ]

  finish_frame-Invariant :
      (clock : Clock) (key : ConnKey) (is_c2s : Bool) (timestamp : ℕ) (conn : Connection)
      → (lost desynced : ℕ) (orch : Orchestrator L S) → Lawful crypto
      → Calm dissect
      → Formed conn
      → Invariant orch
      → (out : List (DecodedMessage F)) × (after : Orchestrator L S) × (finish_frame crypto
            no_fields dissect poll poll_after_miss current config clock key is_c2s timestamp
            (conn, lost, desynced)
            orch
          ≡ some (out, after))
        × Invariant after
  unfolding finish_frame
  finish_frame-Invariant clock key is_c2s timestamp conn lost desynced orch law calm f i =
      let (conn', world', out, e, f', stop, b) =
        drain_records-Drained crypto no_fields dissect poll poll_after_miss current
          config.max_tail_bytes law calm is_c2s timestamp conn orch.world [] f i.1 in
      let drained : Orchestrator L S = record orch {
        world = world';
        gap_abandoned_bytes = orch.gap_abandoned_bytes + lost;
        connections_desynced = orch.connections_desynced + desynced;
      } in
      (
        out,
        maybe_sweep_idle config clock (evict key conn' drained),
        rw (e, finish_frame),
        maybe_sweep_idle-Invariant clock (evict key conn' drained)
            (evict-Invariant key conn' drained f' (i.0, b)),
      )

  -- With a lawful cryptography, dissectors that do not panic and a payload range that lies in the
  -- packet, a frame is always processed, without a panic and to the end, whatever is captured: the reassemblers of all connections stay
  -- well-formed, and the outcome counters go on to sum to the records seen.
  pub process_frame-Invariant :
      (clock : Clock) (frame : TcpFrame) (packet_index : ℕ) (packet_data : List ℕ) (timestamp : ℕ)
      → (orch : Orchestrator L S) → Lawful crypto
      → Calm dissect
      → frame.payload_range.start ≤ frame.payload_range.end
      → frame.payload_range.end ≤ length packet_data
      → Invariant orch
      → (out : List (DecodedMessage F)) × (after : Orchestrator L S) × ((process_frame crypto
            no_fields dissect poll poll_after_miss current config clock frame packet_index
            packet_data timestamp orch).1
          ≡ some (out, after))
        × Invariant after
  unfolding process_frame
  process_frame-Invariant clock frame packet_index packet_data timestamp orch law calm order inside
        i =
      let range = frame.payload_range in
      let bytes = slice packet_data range.start range.end in
      let seg : Segment = record { packet_index = packet_index; range = range; bytes = bytes } in
      let ok' : leb range.start range.end && leb range.end (length packet_data) ≡ true =
        ground arith in
      let spans : range.end ≡ range.start + length bytes = omega (
        arith,
        order,
        inside,
        length-take (range.end - range.start) (drop range.start packet_data),
        length-drop range.start packet_data,
      ) in
      let (conn, is_c2s) =
        noted crypto no_fields dissect poll poll_after_miss current config clock frame
          orch.connections in
      let (fed, lost, desynced) =
        feed clock packet_index frame.seq seg is_c2s config.pending_limits conn in
      rw ok' (
        finish_frame-Invariant clock
          (conn_key (frame.src_ip, frame.src_port) (frame.dst_ip, frame.dst_port)) is_c2s timestamp
          fed lost desynced orch law calm
          (feed-Formed clock packet_index frame.seq seg is_c2s config.pending_limits conn spans
            (noted-Formed clock frame orch.connections i.0))
          i)
