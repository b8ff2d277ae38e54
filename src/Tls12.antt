-- ===== src/Tls12.antt =====
-- src/tls12.rs: the TLS 1.2 key block, nonces and the decryption of one AES-GCM record.
pub mod Prf
pub mod KeyBlock
pub mod Record
mod Examples
use tlscap.Prelude.{
  ℕ, zero, suc, ◌+◌, ◌-◌, ◌*◌, Bool, true, false, Option, none, some, List, [], ◌∷◌, ◌++◌, ltb, leb,
  ◌==◌, ◌||◌, not, if◌then◌else◌, length, take, drop, slice, get_or,
}
use tlscap.Prelude.Words.{be_bytes, as_u16}
use tlscap.Crypto.{
  AeadAlgorithm, aes128_gcm, aes256_gcm, cha_cha20_poly1305, HashAlgorithm, sha256, sha384, Crypto,
}
use tlscap.Tls13.{key_len}

abbrev pub prf_hash : AeadAlgorithm → HashAlgorithm
prf_hash aes128_gcm = sha256
prf_hash aes256_gcm = sha384
prf_hash cha_cha20_poly1305 = sha256

-- The loop of `p_hash`, with fuel.
pub p_hash_loop :
    Crypto → HashAlgorithm → List ℕ → List ℕ → ℕ → ℕ → List ℕ → List ℕ → Option (List ℕ)
p_hash_loop crypto h secret seed out_len zero a result = none
p_hash_loop crypto h secret seed out_len (suc fuel) a result = elim (ltb (length result) out_len) [
  | true ↦
      p_hash_loop crypto h secret seed out_len fuel (crypto.hmac h secret a)
        (result ++ crypto.hmac h secret (a ++ seed))
  | false ↦ some (take out_len result)
]

-- Each round adds at least a byte, so `out_len + 1` rounds are enough.
pub p_hash : Crypto → HashAlgorithm → List ℕ → List ℕ → ℕ → Option (List ℕ)
p_hash crypto h secret seed out_len =
    p_hash_loop crypto h secret seed out_len (suc out_len) (crypto.hmac h secret seed) []

pub record RecordKeys : Type 0 where
  pub algorithm : AeadAlgorithm
  pub key : List ℕ
  pub salt : List ℕ

-- "key expansion"
abbrev pub key_expansion : List ℕ
key_expansion =
    b'k' ∷ b'e' ∷ b'y' ∷ b' ' ∷ b'e' ∷ b'x' ∷ b'p' ∷ b'a' ∷ b'n' ∷ b's' ∷ b'i' ∷ b'o' ∷ b'n' ∷ []

abbrev pub salt_len : ℕ
salt_len = 4

-- The key block's length, and its two keys and two salts.
abbrev pub total_len : AeadAlgorithm → ℕ
total_len algorithm = 2 * key_len algorithm + 2 * salt_len

pub slice_keys : AeadAlgorithm → Bool → List ℕ → RecordKeys
slice_keys algorithm is_client key_block =
    let n = key_len algorithm in
    let client_write_key = slice key_block 0 n in
    let server_write_key = slice key_block n (2 * n) in
    let client_write_iv = slice key_block (2 * n) (2 * n + salt_len) in
    let server_write_iv = slice key_block (2 * n + salt_len) (2 * n + 2 * salt_len) in
    record {
      algorithm = algorithm;
      key = if is_client then client_write_key else server_write_key;
      salt = if is_client then client_write_iv else server_write_iv;
    }

abbrev pub map_option {ℓ κ} : {A : Type ℓ} {B : Type κ} → (A → B) → Option A → Option B
map_option f none = none
map_option f (some a) = some (f a)

-- The key block of the PRF, before it is sliced.
pub key_block : Crypto → List ℕ → List ℕ → List ℕ → AeadAlgorithm → Option (List ℕ)
key_block crypto master_secret client_random server_random algorithm =
    p_hash crypto (prf_hash algorithm) master_secret
      (key_expansion ++ server_random ++ client_random) (total_len algorithm)

-- `none` only if the loop of `p_hash` ran out of fuel.
pub derive : Crypto → List ℕ → List ℕ → List ℕ → AeadAlgorithm → Bool → Option RecordKeys
derive crypto master_secret client_random server_random algorithm is_client =
    map_option (slice_keys algorithm is_client)
      (key_block crypto master_secret client_random server_random algorithm)

pub nonce_for : RecordKeys → List ℕ → List ℕ
nonce_for keys explicit_nonce = keys.salt ++ explicit_nonce

pub aad : ℕ → ℕ → ℕ → List ℕ
aad seq_num content_type plaintext_len =
    be_bytes 8 seq_num ++ content_type ∷ 0x03 ∷ 0x03 ∷ be_bytes 2 plaintext_len

-- The match of `decrypt_record`; `none` is `Tls12Error::Aead`.
abbrev pub open_payload :
    Crypto → AeadAlgorithm → List ℕ → List ℕ → List ℕ → List ℕ → Option (List ℕ)
open_payload crypto aes128_gcm key nonce header msg = crypto.decrypt aes128_gcm key nonce header msg
open_payload crypto aes256_gcm key nonce header msg = crypto.decrypt aes256_gcm key nonce header msg
open_payload crypto cha_cha20_poly1305 key nonce header msg = none

-- `saturating_sub` is subtraction on ℕ.
pub decrypt_record : Crypto → RecordKeys → ℕ → ℕ → List ℕ → List ℕ → Option (List ℕ)
decrypt_record crypto keys seq_num content_type explicit_nonce ciphertext =
    let plaintext_len = as_u16 (length ciphertext - 16) in
    open_payload crypto keys.algorithm keys.key (nonce_for keys explicit_nonce)
      (aad seq_num content_type plaintext_len) ciphertext

-- The match of `encrypt_record`; `none` is its `unreachable!`.
abbrev pub seal_payload :
    Crypto → AeadAlgorithm → List ℕ → List ℕ → List ℕ → List ℕ → Option (List ℕ)
seal_payload crypto aes128_gcm key nonce header msg =
    some (crypto.encrypt aes128_gcm key nonce header msg)
seal_payload crypto aes256_gcm key nonce header msg =
    some (crypto.encrypt aes256_gcm key nonce header msg)
seal_payload crypto cha_cha20_poly1305 key nonce header msg = none

pub encrypt_record : Crypto → RecordKeys → ℕ → ℕ → List ℕ → List ℕ → Option (List ℕ)
encrypt_record crypto keys seq_num content_type explicit_nonce plaintext =
    seal_payload crypto keys.algorithm keys.key (nonce_for keys explicit_nonce)
      (aad seq_num content_type (as_u16 (length plaintext))) plaintext

-- The random of a hello with the message type `msg_type`: as in `server_random_from_server_hello`
-- and in `client_random_from_client_hello` of src/connection.rs.
pub hello_random : ℕ → List ℕ → Option (List ℕ)
hello_random msg_type handshake_body =
    if ltb (length handshake_body) (1 + 3 + 2 + 32) || not (get_or handshake_body 0 0 == msg_type)
    then none
    else some (slice handshake_body 6 38)

unfoldable pub server_random_from_server_hello : List ℕ → Option (List ℕ)
server_random_from_server_hello = hello_random 0x02
