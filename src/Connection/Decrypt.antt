-- ===== src/Connection/Decrypt.antt =====
-- `decrypt` of src/connection.rs, for TLS 1.3 and then for TLS 1.2.
use tlscap.Prelude.{
  ℕ, ◌+◌, Bool, true, false, Option, none, some, List, [], ◌∷◌, ltb, ◌==◌, if◌then◌else◌, length,
  take, drop, get, put,
}
use tlscap.Crypto.{AeadAlgorithm, Crypto}
use tlscap.Keylog
use tlscap.Keylog.{Keylog, SecretLabel, secret_for}
use tlscap.Tls13.{aead, record_too_short, no_content_type, ok, err, decrypt_record, record_aad}
use tlscap.Tls12
use tlscap.Tls12.{hello_random}
use tlscap.Connection.{
  all_algorithms, tls12_algorithms, algorithm_eq, Generation, handshake, application, tls13, tls12,
  DirectionState, keys_for, seq_of, succ_u64, next_seq, Tls12DirectionState, ConnectionState,
  no_key, auth_failed, DecryptedRecord, Decrypted, done, failed, stuck,
}

-- How the loops over the candidates end: a record, the early return, or nothing that matched.
pub data Attempt : Type 0 where
  opened : DecryptedRecord → Attempt
  too_short : Attempt
  exhausted : Attempt

module _ (crypto : Crypto) (keylog : Keylog) where
  abbrev pub tls13_record : Generation → AeadAlgorithm → List ℕ → ℕ → DecryptedRecord
  tls13_record g a content ct = record {
    plaintext = content;
    content_type = ct;
    algorithm = a;
    version = tls13 g;
  }

  -- The inner loop of `decrypt_tls13`, over the algorithms of one generation.
  unfoldable pub try_algorithms :
      List ℕ
      → Bool
      → Generation
      → ℕ
      → List ℕ
      → List AeadAlgorithm
      → DirectionState
      → Attempt × DirectionState
  try_algorithms random is_client g seq body [] dir = (exhausted, dir)
  try_algorithms random is_client g seq body (a ∷ rest) dir =
      let (found, dir') = keys_for crypto g random keylog is_client a dir in
      elim found [
        | none ↦ try_algorithms random is_client g seq body rest dir'
        | some keys ↦ elim (decrypt_record crypto keys seq (record_aad (length body)) body) [
          | ok content ct ↦ (opened (tls13_record g a content ct), next_seq g dir')
          | err e ↦ elim e [
            | aead ↦ try_algorithms random is_client g seq body rest dir'
            | no_content_type ↦ try_algorithms random is_client g seq body rest dir'
            | record_too_short ↦ (too_short, dir')
          ]
        ]
      ]

  -- The outer loop, over the generations.
  unfoldable pub try_generations :
      List ℕ → Bool → List ℕ → List Generation → DirectionState → Attempt × DirectionState
  try_generations random is_client body [] dir = (exhausted, dir)
  try_generations random is_client body (g ∷ rest) dir =
      let (attempt, dir') =
        try_algorithms random is_client g (seq_of g dir) body all_algorithms dir in
      elim attempt [
        | opened r ↦ (opened r, dir')
        | too_short ↦ (too_short, dir')
        | exhausted ↦ try_generations random is_client body rest dir'
      ]

  abbrev pub direction : Bool → ConnectionState → DirectionState
  direction true state = state.client_to_server
  direction false state = state.server_to_client

  abbrev pub set_direction : Bool → DirectionState → ConnectionState → ConnectionState
  set_direction true dir state = record state { client_to_server = dir }
  set_direction false dir state = record state { server_to_client = dir }

  unfoldable pub decrypt_tls13 : Bool → List ℕ → ConnectionState → Attempt × ConnectionState
  decrypt_tls13 is_client body state =
      let (attempt, dir) =
        try_generations state.client_random is_client body (handshake ∷ application ∷ [])
          (direction is_client state) in
      (attempt, set_direction is_client dir state)

  abbrev pub tls12_direction : Bool → ConnectionState → Tls12DirectionState
  tls12_direction true state = state.tls12_client_to_server
  tls12_direction false state = state.tls12_server_to_client

  abbrev pub set_tls12_direction : Bool → Tls12DirectionState → ConnectionState → ConnectionState
  set_tls12_direction true dir state = record state { tls12_client_to_server = dir }
  set_tls12_direction false dir state = record state { tls12_server_to_client = dir }

  -- `or_insert_with`
  abbrev pub use_tls12_entry :
      Option Tls12.RecordKeys
      → Option Tls12.RecordKeys
      → AeadAlgorithm
      → Tls12DirectionState
      → Option Tls12.RecordKeys × Tls12DirectionState
  use_tls12_entry (some keys) derived a dir = (some keys, dir)
  use_tls12_entry none none a dir = (none, dir)
  use_tls12_entry none (some keys) a dir =
      (some keys, record dir { keys = put algorithm_eq a keys dir.keys })

  -- `Tls12DirectionState::keys_for`
  unfoldable pub tls12_keys_for :
      List ℕ
      → List ℕ
      → List ℕ
      → Bool
      → AeadAlgorithm
      → Tls12DirectionState
      → Option Tls12.RecordKeys × Tls12DirectionState
  tls12_keys_for master_secret random server_random is_client a dir =
      use_tls12_entry (get algorithm_eq a dir.keys)
        (Tls12.derive crypto master_secret random server_random a is_client) a dir

  abbrev pub tls12_record : AeadAlgorithm → List ℕ → ℕ → List ℕ → DecryptedRecord
  tls12_record a plaintext ct explicit_nonce = record {
    plaintext = plaintext;
    content_type = ct;
    algorithm = a;
    version = tls12 explicit_nonce;
  }

  -- The loop of `decrypt_tls12`.
  unfoldable pub try_tls12 :
      List ℕ
      → List ℕ
      → List ℕ
      → Bool
      → ℕ
      → ℕ
      → List ℕ
      → List ℕ
      → List AeadAlgorithm
      → Tls12DirectionState
      → Decrypted × Tls12DirectionState
  try_tls12 master_secret random server_random is_client seq ct explicit_nonce ciphertext [] dir =
      (failed no_key, dir)
  try_tls12 master_secret random server_random is_client seq ct explicit_nonce ciphertext (a ∷ rest)
        dir =
      let (found, dir') = tls12_keys_for master_secret random server_random is_client a dir in
      elim found [
        | none ↦ (stuck, dir')
        | some keys ↦ elim (Tls12.decrypt_record crypto keys seq ct explicit_nonce ciphertext) [
          | some plaintext ↦ (
            done (tls12_record a plaintext ct explicit_nonce),
            record dir' { seq = succ_u64 dir'.seq },
          )
          | none ↦
              try_tls12 master_secret random server_random is_client seq ct explicit_nonce
                ciphertext rest dir'
        ]
      ]

  -- `decrypt_tls12` once its three `let … else` are behind it.
  unfoldable pub decrypt_tls12_with :
      List ℕ → List ℕ → Bool → ℕ → List ℕ → ConnectionState → Decrypted × ConnectionState
  decrypt_tls12_with master_secret server_random is_client ct body state =
      if ltb (length body) (8 + 16)
      then (failed auth_failed, state)
      else (let (outcome, dir) =
            try_tls12 master_secret state.client_random server_random is_client
              (tls12_direction is_client state).seq ct (take 8 body) (drop 8 body) tls12_algorithms
              (tls12_direction is_client state) in
          (outcome, set_tls12_direction is_client dir state))

  unfoldable pub decrypt_tls12 : Bool → ℕ → List ℕ → ConnectionState → Decrypted × ConnectionState
  decrypt_tls12 is_client ct body state = elim state.server_random [
    | none ↦ (failed no_key, state)
    | some server_random ↦
        if length state.client_random == 32
        then elim (secret_for keylog state.client_random Keylog.client_random) [
          | none ↦ (failed no_key, state)
          | some master_secret ↦
              decrypt_tls12_with master_secret server_random is_client ct body state
        ]
        else (failed no_key, state)
  ]

  unfoldable pub decrypt : Bool → ℕ → List ℕ → ConnectionState → Decrypted × ConnectionState
  decrypt is_client ct body state =
      let (attempt, state') = decrypt_tls13 is_client body state in
      elim attempt [
        | opened r ↦ (done r, state')
        | too_short ↦ decrypt_tls12 is_client ct body state'
        | exhausted ↦ decrypt_tls12 is_client ct body state'
      ]

unfoldable pub client_random_from_client_hello : List ℕ → Option (List ℕ)
client_random_from_client_hello = hello_random 0x01
