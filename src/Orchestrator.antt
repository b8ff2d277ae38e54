-- ===== src/Orchestrator.antt =====
-- src/orchestrator.rs: connection identity, the state of a connection, and the counters.
pub mod Records
pub mod Identity
pub mod Progress
pub mod Frames
pub mod Safety
pub mod Tails
pub mod Usage
pub mod Upkeep
mod Examples
use tlscap.Prelude.{
  ℕ, ◌≡◌, Bool, true, false, ◌&&◌, ◌||◌, Option, none, some, List, [], ◌∷◌, ltb, leb, ◌==◌,
  if◌then◌else◌,
}
use tlscap.Reassembly.{StreamReassembler, PendingLimits, with_pending_limits}
use tlscap.Connection.{ConnectionState}

-- `std::net::IpAddr`, its octets as one number.
pub data IpAddr : Type 0 where
  v4 v6 : ℕ → IpAddr

abbrev pub Endpoint : Type 0
Endpoint = IpAddr × ℕ

-- The derived order: an IPv4 address is below every IPv6 address.
abbrev pub ip_lt : IpAddr → IpAddr → Bool
ip_lt (v4 a) (v4 b) = ltb a b
ip_lt (v4 a) (v6 b) = true
ip_lt (v6 a) (v4 b) = false
ip_lt (v6 a) (v6 b) = ltb a b

abbrev pub ip_eq : IpAddr → IpAddr → Bool
ip_eq (v4 a) (v4 b) = a == b
ip_eq (v4 a) (v6 b) = false
ip_eq (v6 a) (v4 b) = false
ip_eq (v6 a) (v6 b) = a == b

-- The order of pairs: by the address, then by the port.
abbrev pub endpoint_le : Endpoint → Endpoint → Bool
endpoint_le (ip, port) (ip', port') = ip_lt ip ip' || (ip_eq ip ip' && leb port port')

pub record ConnKey : Type 0 where
  pub low : Endpoint
  pub high : Endpoint

pub conn_key : Endpoint → Endpoint → ConnKey
conn_key a b =
    if endpoint_le a b then record { low = a; high = b } else record { low = b; high = a }

pub record ConnectionMeta : Type 0 where
  pub fin_seen_c2s : Bool
  pub fin_seen_s2c : Bool
  pub rst_seen : Bool
  pub last_activity : Option ℕ

pub is_closed : ConnectionMeta → Bool
is_closed meta = meta.rst_seen || (meta.fin_seen_c2s && meta.fin_seen_s2c)

pub record Connection : Type 0 where
  pub client_endpoint : Endpoint
  pub server_endpoint : Endpoint
  pub reassembler_c2s : StreamReassembler
  pub reassembler_s2c : StreamReassembler
  pub state : Option ConnectionState
  pub tail_c2s : List ℕ
  pub tail_s2c : List ℕ
  pub desynced_c2s : Bool
  pub desynced_s2c : Bool
  pub meta : ConnectionMeta

abbrev pub new : Endpoint → Endpoint → PendingLimits → Connection
new client server limits = record {
  client_endpoint = client;
  server_endpoint = server;
  reassembler_c2s = with_pending_limits limits;
  reassembler_s2c = with_pending_limits limits;
  state = none;
  tail_c2s = [];
  tail_s2c = [];
  desynced_c2s = false;
  desynced_s2c = false;
  meta = record {
    fin_seen_c2s = false;
    fin_seen_s2c = false;
    rst_seen = false;
    last_activity = none;
  };
}

abbrev pub reassembler_for : Bool → Connection → StreamReassembler
reassembler_for true conn = conn.reassembler_c2s
reassembler_for false conn = conn.reassembler_s2c

-- A change through the reference that `reassembler_for` gives.
abbrev pub set_reassembler : Bool → StreamReassembler → Connection → Connection
set_reassembler true r conn = record conn { reassembler_c2s = r }
set_reassembler false r conn = record conn { reassembler_s2c = r }

pub is_desynced : Bool → Connection → Bool
is_desynced true conn = conn.desynced_c2s
is_desynced false conn = conn.desynced_s2c

unfoldable pub mark_desynced : Bool → PendingLimits → Connection → Connection
mark_desynced true limits conn = record conn {
  desynced_c2s = true;
  reassembler_c2s = with_pending_limits limits;
}
mark_desynced false limits conn = record conn {
  desynced_s2c = true;
  reassembler_s2c = with_pending_limits limits;
}

abbrev pub tail : Bool → Connection → List ℕ
tail true conn = conn.tail_c2s
tail false conn = conn.tail_s2c

abbrev pub set_tail : Bool → List ℕ → Connection → Connection
set_tail true bytes conn = record conn { tail_c2s = bytes }
set_tail false bytes conn = record conn { tail_s2c = bytes }

-- The tail, which is left empty.
abbrev pub take_tail : Bool → Connection → List ℕ × Connection
take_tail is_c2s conn = (tail is_c2s conn, set_tail is_c2s [] conn)

abbrev pub endpoints : Bool → Connection → Endpoint × Endpoint
endpoints true conn = (conn.client_endpoint, conn.server_endpoint)
endpoints false conn = (conn.server_endpoint, conn.client_endpoint)

-- The counters of the orchestrator that its record loop changes.
pub record Stats : Type 0 where
  pub tail_bytes_discarded : ℕ
  pub tls_records_seen : ℕ
  pub tls_records_decrypted : ℕ
  pub tls_records_nokey : ℕ
  pub tls_records_authfailed : ℕ
  pub tls_records_no_client_hello : ℕ
  pub tls_records_plaintext_handshake : ℕ
