-- ===== src/Connection.antt =====
-- src/connection.rs: the decryption state of one connection, for TLS 1.3 and TLS 1.2.
pub mod Decrypt
pub mod Caches
pub mod Reference
pub mod Facts
mod Examples
use tlscap.Prelude.{
  ℕ, ◌+◌, ◌%◌, ◌^◌, ◌≡◌, refl, Bool, true, false, Option, none, some, List, [], ◌∷◌, ltb, ◌==◌,
  ==_iff, if◌then◌else◌, length, take, drop, get, put, Decides, Decides-code,
}
use tlscap.Crypto.{AeadAlgorithm, aes128_gcm, aes256_gcm, cha_cha20_poly1305, Crypto}
use tlscap.Keylog.{
  SecretLabel, client_random, client_handshake_traffic_secret, server_handshake_traffic_secret,
  client_traffic_secret_0, server_traffic_secret_0, Keylog, secret_for,
}
use tlscap.Tls13.{
  Tls13Error, aead, record_too_short, no_content_type, Opened, ok, err, RecordKeys, derive,
  decrypt_record, record_aad,
}
use tlscap.Tls12

abbrev pub all_algorithms : List AeadAlgorithm
all_algorithms = aes128_gcm ∷ aes256_gcm ∷ cha_cha20_poly1305 ∷ []

abbrev pub tls12_algorithms : List AeadAlgorithm
tls12_algorithms = aes128_gcm ∷ aes256_gcm ∷ []

abbrev algorithm_code : AeadAlgorithm → ℕ
algorithm_code aes128_gcm = 0
algorithm_code aes256_gcm = 1
algorithm_code cha_cha20_poly1305 = 2

-- The derived `Eq`, which the key caches use.
abbrev pub algorithm_eq : AeadAlgorithm → AeadAlgorithm → Bool
algorithm_eq a b = algorithm_code a == algorithm_code b

algorithm_of : ℕ → AeadAlgorithm
algorithm_of n = if n == 0 then aes128_gcm else if n == 1 then aes256_gcm else cha_cha20_poly1305

pub algorithm_eq-Decides : Decides algorithm_eq
unfolding algorithm_of
algorithm_eq-Decides = Decides-code ◌==◌ algorithm_code algorithm_of ==_iff back
  where
    back : (a : AeadAlgorithm) → algorithm_of (algorithm_code a) ≡ a
    back aes128_gcm = refl
    back aes256_gcm = refl
    back cha_cha20_poly1305 = refl

pub data Generation : Type 0 where
  handshake application : Generation

pub data RecordVersion : Type 0 where
  tls13 : Generation → RecordVersion
  tls12 : List ℕ → RecordVersion

pub record DirectionState : Type 0 where
  pub seq_handshake : ℕ
  pub seq_application : ℕ
  pub keys_handshake : List (AeadAlgorithm × RecordKeys)
  pub keys_application : List (AeadAlgorithm × RecordKeys)

abbrev pub secret_label : Generation → Bool → SecretLabel
secret_label handshake true = client_handshake_traffic_secret
secret_label handshake false = server_handshake_traffic_secret
secret_label application true = client_traffic_secret_0
secret_label application false = server_traffic_secret_0

abbrev pub key_map : Generation → DirectionState → List (AeadAlgorithm × RecordKeys)
key_map handshake dir = dir.keys_handshake
key_map application dir = dir.keys_application

abbrev pub set_key_map :
    Generation → List (AeadAlgorithm × RecordKeys) → DirectionState → DirectionState
set_key_map handshake keys dir = record dir { keys_handshake = keys }
set_key_map application keys dir = record dir { keys_application = keys }

-- The match on the cache's entry: an occupied one is used, a vacant one is filled if keys are derived.
abbrev pub use_entry :
    Option RecordKeys
    → Option RecordKeys
    → Generation
    → AeadAlgorithm
    → DirectionState
    → Option RecordKeys × DirectionState
use_entry (some keys) derived g algorithm dir = (some keys, dir)
use_entry none none g algorithm dir = (none, dir)
use_entry none (some keys) g algorithm dir =
    (some keys, set_key_map g (put algorithm_eq algorithm keys (key_map g dir)) dir)

abbrev pub keys_for_secret :
    Crypto
    → Generation
    → AeadAlgorithm
    → DirectionState
    → Option (List ℕ)
    → Option RecordKeys × DirectionState
keys_for_secret crypto g algorithm dir none = (none, dir)
keys_for_secret crypto g algorithm dir (some secret) =
    use_entry (get algorithm_eq algorithm (key_map g dir)) (derive crypto secret algorithm) g
      algorithm dir

pub keys_for :
    Crypto
    → Generation
    → List ℕ
    → Keylog
    → Bool
    → AeadAlgorithm
    → DirectionState
    → Option RecordKeys × DirectionState
keys_for crypto g random keylog is_client algorithm dir =
    keys_for_secret crypto g algorithm dir (secret_for keylog random (secret_label g is_client))

abbrev pub seq_of : Generation → DirectionState → ℕ
seq_of handshake dir = dir.seq_handshake
seq_of application dir = dir.seq_application

-- A `u64`, without overflow checks.
abbrev pub succ_u64 : ℕ → ℕ
succ_u64 n = (n + 1) % 2 ^ 64

pub next_seq : Generation → DirectionState → DirectionState
next_seq handshake dir = record dir { seq_handshake = succ_u64 dir.seq_handshake }
next_seq application dir = record dir { seq_application = succ_u64 dir.seq_application }

pub record Tls12DirectionState : Type 0 where
  pub seq : ℕ
  pub keys : List (AeadAlgorithm × Tls12.RecordKeys)

pub record ConnectionState : Type 0 where
  pub client_random : List ℕ
  pub server_random : Option (List ℕ)
  pub client_to_server : DirectionState
  pub server_to_client : DirectionState
  pub tls12_client_to_server : Tls12DirectionState
  pub tls12_server_to_client : Tls12DirectionState

pub data ProcessError : Type 0 where
  no_key auth_failed : ProcessError

pub record DecryptedRecord : Type 0 where
  pub plaintext : List ℕ
  pub content_type : ℕ
  pub algorithm : AeadAlgorithm
  pub version : RecordVersion

-- `Result<DecryptedRecord, ProcessError>`; `stuck` if the PRF's loop did not end.
pub data Decrypted : Type 0 where
  done : DecryptedRecord → Decrypted
  failed : ProcessError → Decrypted
  stuck : Decrypted

abbrev empty_direction : DirectionState
empty_direction = record {
  seq_handshake = 0;
  seq_application = 0;
  keys_handshake = [];
  keys_application = [];
}

abbrev empty_tls12 : Tls12DirectionState
empty_tls12 = record { seq = 0; keys = [] }

abbrev pub new : List ℕ → ConnectionState
new random = record {
  client_random = random;
  server_random = none;
  client_to_server = empty_direction;
  server_to_client = empty_direction;
  tls12_client_to_server = empty_tls12;
  tls12_server_to_client = empty_tls12;
}

-- `get_or_insert`, and whether the random was unset.
abbrev pub learn : List ℕ → Option (List ℕ) → ConnectionState → Bool × ConnectionState
learn random none state = (true, record state { server_random = some random })
learn random (some old) state = (false, state)

unfoldable pub set_server_random : List ℕ → ConnectionState → Bool × ConnectionState
set_server_random random state = learn random state.server_random state
