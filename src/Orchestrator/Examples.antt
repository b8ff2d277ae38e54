-- ===== src/Orchestrator/Examples.antt =====
-- Runs of src/orchestrator.rs with the toy cryptography and a dissector that takes all bytes.
use tlscap.Prelude.{ℕ, ◌+◌, ◌≡◌, ◌↔◌, ◌⊎◌, refl, true, false, some, List, [], ◌∷◌, length}
use tlscap.Crypto.Toy.{toy, toy-Lawful}
use tlscap.Keylog.{Keylog, empty_keylog}
use tlscap.Reassembly.{Segment, StreamReassembler, PendingLimits, with_pending_limits, push}
use tlscap.Reassembly.WellFormed.{WellFormed}
use tlscap.Reassembly.Invariant.{push-WellFormed, with_pending_limits-WellFormed}
use tlscap.Orchestrator.{v4, Endpoint, conn_key, Connection, new, set_reassembler}
use tlscap.Prelude.{◌++◌, ◌≤◌}
use tlscap.Orchestrator.{tail}
use tlscap.Orchestrator.Records.{set_tail_capped}
use tlscap.Orchestrator.Tails.{set_tail_capped_keeps}
use tlscap.Orchestrator.Identity.{conn_key_iff}
use tlscap.Prelude.{replicate, arith}
use tlscap.Orchestrator.Frames.{TcpFrame, OrchestratorConfig, Orchestrator, Clock, process_frame}
use tlscap.Orchestrator.Safety.{Invariant, process_frame-Invariant}
use tlscap.Orchestrator.Usage.{opened, fresh, buffered_bytes, held_bytes, process_frame-Accounted}
use tlscap.Orchestrator.Records.{DecodedMessage, Dissected, Calm, fields, World, drain_records}
use tlscap.Orchestrator.Progress.{Formed, Drained, drain_records-Drained}

abbrev client : Endpoint
client = (v4 0x0a000001, 51234)

abbrev server : Endpoint
server = (v4 0x0a000002, 9410)

conn_key_iff_example :
    (conn_key client server ≡ conn_key server client)
    ↔ (((client ≡ server) × (server ≡ client)) ⊎ ((client ≡ client) × (server ≡ server)))
conn_key_iff_example = conn_key_iff client server server client

abbrev limits : PendingLimits
limits = record { max_bytes = 100; max_packets = 10; max_age = 30 }

-- A ChangeCipherSpec record, and the first bytes of the next one.
abbrev bytes : List ℕ
bytes = 0x14 ∷ 3 ∷ 3 ∷ 0 ∷ 1 ∷ 1 ∷ 0x17 ∷ 3 ∷ []

abbrev seg : Segment
seg = record { packet_index = 0; range = record { start = 0; end = length bytes }; bytes = bytes }

abbrev filled : StreamReassembler
filled = (push 0 0 1 seg (with_pending_limits limits)).0

filled-WellFormed : WellFormed filled
filled-WellFormed =
    push-WellFormed 0 0 1 seg (with_pending_limits limits) refl
      (with_pending_limits-WellFormed limits)

abbrev conn : Connection
conn = set_reassembler true filled (new client server limits)

conn-Formed : Formed conn
conn-Formed true = filled-WellFormed
conn-Formed false = with_pending_limits-WellFormed limits

abbrev dissect : ℕ → List ℕ → ℕ → Dissected ℕ × ℕ
dissect port buf count = (fields port (length buf), count + 1)

dissect-Calm : Calm dissect
dissect-Calm port buf n e = absurd (cc)

abbrev poll : Keylog → Keylog
poll keylog = keylog

abbrev world : World ℕ Keylog
world = record {
  stats = record {
    tail_bytes_discarded = 0;
    tls_records_seen = 0;
    tls_records_decrypted = 0;
    tls_records_nokey = 0;
    tls_records_authfailed = 0;
    tls_records_no_client_hello = 0;
    tls_records_plaintext_handshake = 0;
  };
  lua = 0;
  keylog = empty_keylog;
}

drain_records-Drained_example :
    Drained toy 0 dissect poll poll poll 8 toy-Lawful dissect-Calm true
      (drain_records toy 0 dissect poll poll poll 8 true 5 conn world [])
drain_records-Drained_example =
    drain_records-Drained toy 0 dissect poll poll poll 8 toy-Lawful dissect-Calm true 5 conn world
      [] conn-Formed refl

abbrev config : OrchestratorConfig
config = record {
  idle_timeout = some 60;
  sweep_interval = 10;
  pending_limits = limits;
  max_tail_bytes = 8;
}

abbrev clock : Clock
clock = record {
  activity = 100;
  push_now = 100;
  push_later = 100;
  sweep_check = 101;
  sweep_start = 101;
  sweep_now = 101;
}

-- The last data of the client, with a FIN.
abbrev frame : TcpFrame
frame = record {
  src_ip = client.0;
  dst_ip = server.0;
  src_port = client.1;
  dst_port = server.1;
  seq = 9;
  ack_number = 1;
  flags = record { syn = false; fin = true; rst = false; ack = true; psh = false };
  payload_range = record { start = 54; end = 58 };
}

abbrev packet_data : List ℕ
packet_data = replicate 58 0

abbrev orchestrator : Orchestrator ℕ Keylog
orchestrator = record {
  connections = (conn_key client server, conn) ∷ [];
  world = world;
  last_sweep = 0;
  evicted_connections = 0;
  gap_abandoned_bytes = 0;
  connections_desynced = 0;
}

process_frame-Invariant_example :
    (out : List (DecodedMessage ℕ)) × (after : Orchestrator ℕ Keylog) × ((process_frame toy 0
        dissect poll poll poll config clock frame 3 packet_data 100 orchestrator).1
      ≡ some (out, after))
    × Invariant toy 0 dissect poll poll poll config after
process_frame-Invariant_example =
    process_frame-Invariant toy 0 dissect poll poll poll config clock frame 3 packet_data 100
      orchestrator toy-Lawful dissect-Calm (omega arith) (omega arith) ((conn-Formed, tt), refl)

process_frame-Accounted_example :
    (out : List (DecodedMessage ℕ)) × (after : Orchestrator ℕ Keylog) × ((process_frame toy 0
        dissect poll poll poll config clock frame 3 packet_data 100 orchestrator).1
      ≡ some (out, after))
    × (opened after
        ≡ opened orchestrator
          + fresh
              (conn_key (frame.src_ip, frame.src_port) (frame.dst_ip, frame.dst_port))
              orchestrator.connections)
    × (buffered_bytes after.connections ≡ held_bytes after.connections)
process_frame-Accounted_example =
    process_frame-Accounted toy 0 dissect poll poll poll config clock frame 3 packet_data 100
      orchestrator toy-Lawful dissect-Calm (omega arith) (omega arith) ((conn-Formed, tt), refl)

set_tail_capped_keeps_example :
    (let (conn', stats') = set_tail_capped 3 true bytes conn world.stats in
      (length (tail true conn') ≤ 3)
      × (tail false conn' ≡ tail false conn)
      × (discarded : List ℕ) × (discarded ++ tail true conn' ≡ bytes)
      × (stats'.tail_bytes_discarded ≡ world.stats.tail_bytes_discarded + length discarded)
      × (length bytes ≤ 3 → discarded ≡ []))
set_tail_capped_keeps_example = set_tail_capped_keeps 3 true bytes conn world.stats
