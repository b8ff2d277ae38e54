-- ===== src/Tls13.antt =====
-- src/tls13.rs: TLS 1.3 record keys, nonces and the decryption of one record. A `Vec<u8>` is a list
-- of bytes; the AEAD, HKDF and hash crates are the parameter `Crypto`.
pub mod Record
pub mod Nonce
mod Examples
use Prim.Native.Nat.{bit_xor}
use tlscap.Prelude.{
  ℕ, ◌+◌, ◌<◌, Bool, true, false, Option, none, some, List, [], ◌∷◌, ◌++◌, ltb, leb, ◌==◌,
  if◌then◌else◌, length, take, drop, replicate, reverse,
}
use tlscap.Prelude.Words.{be_bytes, as_u8, as_u16}
use tlscap.Crypto.{
  AeadAlgorithm, aes128_gcm, aes256_gcm, cha_cha20_poly1305, HashAlgorithm, sha256, sha384, Crypto,
}

pub data Tls13Error : Type 0 where
  aead record_too_short no_content_type : Tls13Error

-- `Result<(Vec<u8>, u8), Tls13Error>`
pub data Opened : Type 0 where
  ok : List ℕ → ℕ → Opened
  err : Tls13Error → Opened

abbrev pub key_len : AeadAlgorithm → ℕ
key_len aes128_gcm = 16
key_len aes256_gcm = 32
key_len cha_cha20_poly1305 = 32

abbrev pub iv_len : ℕ
iv_len = 12

abbrev pub hash : AeadAlgorithm → HashAlgorithm
hash aes128_gcm = sha256
hash aes256_gcm = sha384
hash cha_cha20_poly1305 = sha256

-- "tls13 " before a label.
abbrev pub full_label : List ℕ → List ℕ
full_label label = b't' ∷ b'l' ∷ b's' ∷ b'1' ∷ b'3' ∷ b' ' ∷ label

pub hkdf_label : List ℕ → List ℕ → ℕ → List ℕ
hkdf_label label context n =
    be_bytes 2 (as_u16 n)
    ++ as_u8 (length (full_label label)) ∷ (full_label label ++ as_u8 (length context) ∷ context)

pub hkdf_expand_label : Crypto → List ℕ → List ℕ → List ℕ → ℕ → HashAlgorithm → Option (List ℕ)
hkdf_expand_label crypto secret label context n h =
    if crypto.from_prk h secret
    then some (crypto.expand h secret (hkdf_label label context n) n)
    else none

pub record RecordKeys : Type 0 where
  pub algorithm : AeadAlgorithm
  pub key : List ℕ
  pub iv : List ℕ

infixl 5 ◌>>=◌
abbrev ◌>>=◌ {ℓ κ} : {A : Type ℓ} {B : Type κ} → Option A → (A → Option B) → Option B
none >>= f = none
some a >>= f = f a

abbrev key_label : List ℕ
key_label = b'k' ∷ b'e' ∷ b'y' ∷ []

abbrev iv_label : List ℕ
iv_label = b'i' ∷ b'v' ∷ []

pub derive : Crypto → List ℕ → AeadAlgorithm → Option RecordKeys
unfolding hkdf_expand_label
derive crypto traffic_secret algorithm = do
  key ← hkdf_expand_label crypto traffic_secret key_label [] (key_len algorithm) (hash algorithm)
  iv ← hkdf_expand_label crypto traffic_secret iv_label [] iv_len (hash algorithm)
  some (record { algorithm = algorithm; key = key; iv = iv })

-- The bytes of the first list, each xored with the one at its place in the second.
abbrev pub xor_bytes : List ℕ → List ℕ → List ℕ
xor_bytes [] bs = []
xor_bytes (a ∷ as') [] = a ∷ as'
xor_bytes (a ∷ as') (b ∷ bs) = bit_xor a b ∷ xor_bytes as' bs

-- The loop xors the last eight bytes of the IV with the sequence number.
pub nonce_for : RecordKeys → ℕ → List ℕ
nonce_for keys seq_num = take 4 keys.iv ++ xor_bytes (drop 4 keys.iv) (be_bytes 8 seq_num)

-- `while let Some(&0) = inner.last() { inner.pop(); }`, on the bytes from the last to the first.
pub pop_zeros : List ℕ → List ℕ
pop_zeros [] = []
pop_zeros (b ∷ bs) = elim (b == 0) [ true ↦ pop_zeros bs | false ↦ b ∷ bs ]

-- What is left once the content type has been popped.
abbrev pub split_content : List ℕ → Opened
split_content [] = err no_content_type
split_content (content_type ∷ rest) = ok (reverse rest) content_type

abbrev pub unpad : List ℕ → Opened
unpad inner = split_content (pop_zeros (reverse inner))

pub decrypt_record : Crypto → RecordKeys → ℕ → List ℕ → List ℕ → Opened
decrypt_record crypto keys seq_num aad encrypted_record =
    if ltb (length encrypted_record) 16
    then err record_too_short
    else elim (crypto.decrypt keys.algorithm keys.key (nonce_for keys seq_num) aad
        encrypted_record) [ none ↦ err aead | some inner ↦ unpad inner ]

abbrev pub zeros : ℕ → List ℕ
zeros n = replicate n 0

pub encrypt_record : Crypto → RecordKeys → ℕ → List ℕ → List ℕ → ℕ → ℕ → List ℕ
encrypt_record crypto keys seq_num aad content content_type padding_len =
    crypto.encrypt keys.algorithm keys.key (nonce_for keys seq_num) aad
      (content ++ content_type ∷ zeros padding_len)

pub record_aad : ℕ → List ℕ
record_aad ciphertext_len = 0x17 ∷ 0x03 ∷ 0x03 ∷ be_bytes 2 (as_u16 ciphertext_len)
