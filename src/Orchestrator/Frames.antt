-- ===== src/Orchestrator/Frames.antt =====
-- `process_frame` of src/orchestrator.rs: one captured TCP frame, its connection, and the eviction.
use tlscap.Prelude.{
  ℕ, ◌+◌, ◌-◌, Bool, true, false, not, ◌&&◌, ◌||◌, Option, none, some, List, [], ◌∷◌, ◌++◌, ltb,
  leb, ◌==◌, if◌then◌else◌, length, slice, get, put,
}
use tlscap.Prelude.Words.{wrapping_add}
use tlscap.Crypto.{Crypto}
use tlscap.Keylog.{Keylog}
use tlscap.Reassembly.{
  Range, Segment, PendingLimits, PushOutcome, delivered, duplicate_discarded, buffered_out_of_order,
  gap_abandoned, push, set_isn, is_empty,
}
use tlscap.Orchestrator.{
  IpAddr, Endpoint, ip_eq, ConnKey, conn_key, ConnectionMeta, is_closed, Connection, new,
  reassembler_for, set_reassembler, is_desynced, mark_desynced,
}
use tlscap.Orchestrator.Records.{Dissected, DecodedMessage, World, drain_records}

-- src/pcap_input.rs
pub record TcpFlags : Type 0 where
  pub syn : Bool
  pub fin : Bool
  pub rst : Bool
  pub ack : Bool
  pub psh : Bool

pub record TcpFrame : Type 0 where
  pub src_ip : IpAddr
  pub dst_ip : IpAddr
  pub src_port : ℕ
  pub dst_port : ℕ
  pub seq : ℕ
  pub ack_number : ℕ
  pub flags : TcpFlags
  pub payload_range : Range

pub data Flag : Type 0 where
  syn ack fin rst psh : Flag

abbrev only : Bool → Flag → List Flag
only b f = if b then f ∷ [] else []

pub canonical_flags : TcpFlags → List Flag
canonical_flags f =
    only f.syn syn ++ only f.ack ack ++ only f.fin fin ++ only f.rst rst ++ only f.psh psh

pub record PacketEvent : Type 0 where
  pub src : Endpoint
  pub dst : Endpoint
  pub seq : ℕ
  pub ack : ℕ
  pub flags : List Flag
  pub payload_len : ℕ
  pub timestamp : ℕ

-- The fields of `OrchestratorConfig` that are read here.
pub record OrchestratorConfig : Type 0 where
  pub idle_timeout : Option ℕ
  pub sweep_interval : ℕ
  pub pending_limits : PendingLimits
  pub max_tail_bytes : ℕ

pub record Orchestrator (L S : Type 0) : Type 0 where
  pub connections : List (ConnKey × Connection)
  pub world : World L S
  pub last_sweep : ℕ
  pub evicted_connections : ℕ
  pub gap_abandoned_bytes : ℕ
  pub connections_desynced : ℕ

-- The readings of the clock that one call makes.
pub record Clock : Type 0 where
  pub activity : ℕ
  pub push_now : ℕ
  pub push_later : ℕ
  pub sweep_check : ℕ
  pub sweep_start : ℕ
  pub sweep_now : ℕ

abbrev pub endpoint_eq : Endpoint → Endpoint → Bool
endpoint_eq (ip, port) (ip', port') = ip_eq ip ip' && (port == port')

abbrev pub key_eq : ConnKey → ConnKey → Bool
key_eq a b = endpoint_eq a.low b.low && endpoint_eq a.high b.high

abbrev pub remove : ConnKey → List (ConnKey × Connection) → List (ConnKey × Connection)
remove k [] = []
remove k ((j, conn) ∷ m) = if key_eq j k then m else (j, conn) ∷ remove k m

-- The connection of the frame. A new one takes the sender for the client; a SYN changes nothing of
-- that, since the endpoints that it sets are those that the new connection has.
abbrev pub or_new : Option Connection → Endpoint → Endpoint → PendingLimits → Connection
or_new none src dst limits = new src dst limits
or_new (some conn) src dst limits = conn

abbrev pub anchor : Bool → Endpoint → Endpoint → Connection → Connection
anchor true src dst conn = record conn { client_endpoint = src; server_endpoint = dst }
anchor false src dst conn = conn

abbrev pub is_none {ℓ} : {A : Type ℓ} → Option A → Bool
is_none none = true
is_none (some a) = false

-- The start of the stream at a SYN.
abbrev pub note_syn : Bool → Bool → ℕ → Connection → Connection
note_syn true is_c2s seq conn =
    set_reassembler is_c2s (set_isn (wrapping_add seq 1) (reassembler_for is_c2s conn)) conn
note_syn false is_c2s seq conn = conn

abbrev pub set_fin : Bool → ConnectionMeta → ConnectionMeta
set_fin true meta = record meta { fin_seen_c2s = true }
set_fin false meta = record meta { fin_seen_s2c = true }

unfoldable pub note_meta : TcpFlags → Bool → ℕ → ConnectionMeta → ConnectionMeta
note_meta flags is_c2s now meta =
    let meta' = if flags.fin then set_fin is_c2s meta else meta in
    record meta' { rst_seen = flags.rst || meta'.rst_seen; last_activity = some now }

-- What `push` reports: an abandoned gap desyncs the direction. The bytes lost, and 1 for a desync.
abbrev pub after_push : PushOutcome → Bool → PendingLimits → Connection → Connection × ℕ × ℕ
after_push (gap_abandoned bytes) is_c2s limits conn = (mark_desynced is_c2s limits conn, bytes, 1)
after_push delivered is_c2s limits conn = (conn, 0, 0)
after_push duplicate_discarded is_c2s limits conn = (conn, 0, 0)
after_push buffered_out_of_order is_c2s limits conn = (conn, 0, 0)

unfoldable pub feed :
    Clock → ℕ → ℕ → Segment → Bool → PendingLimits → Connection → Connection × ℕ × ℕ
feed clock packet_index seq seg is_c2s limits conn =
    if is_empty seg.bytes || is_desynced is_c2s conn
    then (conn, 0, 0)
    else (let (r, outcome) =
          push clock.push_now clock.push_later seq seg (reassembler_for is_c2s conn) in
        after_push outcome is_c2s limits (set_reassembler is_c2s r conn))

-- Whether the sweep keeps a connection.
abbrev pub is_active : ℕ → ℕ → Option ℕ → Bool
is_active now idle_timeout none = true
is_active now idle_timeout (some t) = ltb (now - t) idle_timeout

unfoldable pub retain : ℕ → ℕ → List (ConnKey × Connection) → List (ConnKey × Connection)
retain now idle_timeout [] = []
retain now idle_timeout ((k, conn) ∷ m) =
    let rest = retain now idle_timeout m in
    if is_active now idle_timeout conn.meta.last_activity then (k, conn) ∷ rest else rest

module _ {L S : Type 0} where
  abbrev pub sweep : Clock → ℕ → Orchestrator L S → Orchestrator L S
  sweep clock idle_timeout orch =
      let kept = retain clock.sweep_now idle_timeout orch.connections in
      record orch {
        last_sweep = clock.sweep_start;
        connections = kept;
        evicted_connections = orch.evicted_connections + (length orch.connections - length kept);
      }

  unfoldable pub maybe_sweep_idle : OrchestratorConfig → Clock → Orchestrator L S → Orchestrator L S
  maybe_sweep_idle config clock orch = elim config.idle_timeout [
    | none ↦ orch
    | some idle_timeout ↦
        if ltb (clock.sweep_check - orch.last_sweep) config.sweep_interval
        then orch
        else sweep clock idle_timeout orch
  ]

  -- The connection after the frame, or no connection if it is closed.
  unfoldable pub evict : ConnKey → Connection → Orchestrator L S → Orchestrator L S
  evict key conn orch =
      if is_closed conn.meta
      then record orch {
        connections = remove key orch.connections;
        evicted_connections = orch.evicted_connections + 1;
      }
      else record orch { connections = put key_eq key conn orch.connections }

-- `none` is a panic, or a PRF without end. Upkeep has the forced collection of the Lua heap.
module _ (crypto : Crypto) {F L S : Type 0} (no_fields : F)
    (dissect : ℕ → List ℕ → L → Dissected F × L) (poll poll_after_miss : S → S)
    (current : S → Keylog) (config : OrchestratorConfig) where
  -- From the drain of the records on, with the connection that has been fed.
  unfoldable pub finish_frame :
      Clock
      → ConnKey
      → Bool
      → ℕ
      → Connection × ℕ × ℕ
      → Orchestrator L S
      → Option (List (DecodedMessage F) × Orchestrator L S)
  finish_frame clock key is_c2s timestamp (conn, lost, desynced) orch =
      elim (drain_records crypto no_fields dissect poll poll_after_miss current
        config.max_tail_bytes is_c2s timestamp conn orch.world []) [
          | none ↦ none
          | some (conn', world', out) ↦ some (
            out,
            maybe_sweep_idle config clock (
                evict key conn' (record orch {
                  world = world';
                  gap_abandoned_bytes = orch.gap_abandoned_bytes + lost;
                  connections_desynced = orch.connections_desynced + desynced;
                })),
          )
        ]

  pub packet_event : TcpFrame → ℕ → PacketEvent
  packet_event frame timestamp = record {
    src = (frame.src_ip, frame.src_port);
    dst = (frame.dst_ip, frame.dst_port);
    seq = frame.seq;
    ack = frame.ack_number;
    flags = canonical_flags frame.flags;
    payload_len = frame.payload_range.end - frame.payload_range.start;
    timestamp = timestamp;
  }

  -- The connection of the frame, with its flags noted, and the direction of the frame.
  unfoldable pub noted : Clock → TcpFrame → List (ConnKey × Connection) → Connection × Bool
  noted clock frame connections =
      let src : Endpoint = (frame.src_ip, frame.src_port) in
      let dst : Endpoint = (frame.dst_ip, frame.dst_port) in
      let found = get key_eq (conn_key src dst) connections in
      let conn =
        anchor (is_none found && frame.flags.syn && not frame.flags.ack) src dst
          (or_new found src dst config.pending_limits) in
      let is_c2s = endpoint_eq src conn.client_endpoint in
      let conn' = note_syn frame.flags.syn is_c2s frame.seq conn in
      let conn'' : Connection = record conn' {
        meta = note_meta frame.flags is_c2s clock.activity conn'.meta;
      } in
      (conn'', is_c2s)

  unfoldable pub process_frame :
      Clock
      → TcpFrame
      → ℕ
      → List ℕ
      → ℕ
      → Orchestrator L S
      → PacketEvent × Option (List (DecodedMessage F) × Orchestrator L S)
  process_frame clock frame packet_index packet_data timestamp orch =
      let key = conn_key (frame.src_ip, frame.src_port) (frame.dst_ip, frame.dst_port) in
      let range = frame.payload_range in
      let (conn, is_c2s) = noted clock frame orch.connections in
      (
        packet_event frame timestamp,
        if leb range.start range.end && leb range.end (length packet_data)
            then finish_frame clock key is_c2s timestamp
                (feed clock packet_index frame.seq
                  (record {
                    packet_index = packet_index;
                    range = range;
                    bytes = slice packet_data range.start range.end;
                  })
                  is_c2s config.pending_limits conn)
                orch
            else none,
      )
