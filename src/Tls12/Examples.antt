-- ===== src/Tls12/Examples.antt =====
-- Runs of src/tls12.rs with the toy cryptography.
use tlscap.Prelude.{
  ℕ, ◌+◌, ◌≤◌, ◌≡◌, true, false, some, List, [], ◌∷◌, ◌++◌, length, arith, replicate, take,
}
use tlscap.Crypto.{aes128_gcm}
use tlscap.Crypto.Toy.{toy, toy-Lawful}
use tlscap.Tls12.{
  RecordKeys, key_expansion, total_len, prf_hash, derive, decrypt_record, encrypt_record,
}
use tlscap.Tls12.Prf.{blocks, a_value}
use tlscap.Tls12.KeyBlock.{HaveLengths, derive-blocks}
use tlscap.Tls12.Record.{tls12_round_trip}

abbrev key : List ℕ
key = replicate 16 9

abbrev salt : List ℕ
salt = 1 ∷ 2 ∷ 3 ∷ 4 ∷ []

abbrev keys : RecordKeys
keys = record { algorithm = aes128_gcm; key = key; salt = salt }

abbrev explicit_nonce : List ℕ
explicit_nonce = 0 ∷ 0 ∷ 0 ∷ 0 ∷ 0 ∷ 0 ∷ 0 ∷ 1 ∷ []

abbrev plaintext : List ℕ
plaintext = b'h' ∷ b'i' ∷ []

tls12_round_trip_example :
    (ciphertext : List ℕ) × (encrypt_record toy keys 0 0x17 explicit_nonce plaintext
      ≡ some ciphertext)
    × (length ciphertext ≡ length plaintext + 16)
    × (decrypt_record toy keys 0 0x17 explicit_nonce ciphertext ≡ some plaintext)
tls12_round_trip_example =
    tls12_round_trip toy keys 0 0x17 explicit_nonce plaintext toy-Lawful (λ e. absurd (cc))

abbrev master_secret : List ℕ
master_secret = replicate 48 3

abbrev client_random : List ℕ
client_random = replicate 32 5

abbrev server_random : List ℕ
server_random = replicate 32 6

abbrev seed : List ℕ
seed = key_expansion ++ server_random ++ client_random

-- Two blocks of 32 bytes are enough for 40.
enough : total_len aes128_gcm ≤ length (blocks toy (prf_hash aes128_gcm) master_secret seed 2)
unfolding blocks a_value
enough = omega arith

derive-blocks_example :
    (client : RecordKeys) × (server : RecordKeys) × (derive toy master_secret client_random
        server_random aes128_gcm true
      ≡ some client)
    × (derive toy master_secret client_random server_random aes128_gcm false ≡ some server)
    × HaveLengths aes128_gcm client
    × HaveLengths aes128_gcm server
    × (client.key ++ server.key ++ client.salt ++ server.salt
        ≡ take (total_len aes128_gcm) (blocks toy (prf_hash aes128_gcm) master_secret seed 2))
derive-blocks_example =
    derive-blocks toy master_secret client_random server_random aes128_gcm 2 toy-Lawful enough
