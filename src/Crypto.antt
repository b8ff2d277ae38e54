-- ===== src/Crypto.antt =====
-- The cryptographic crates that src/tls13.rs and src/tls12.rs call (hkdf, hmac, aes_gcm,
-- chacha20poly1305): operations as parameters, and the documented laws that the code relies on.
pub mod Toy
use tlscap.Prelude.{ℕ, ◌+◌, ◌≤◌, ◌<◌, ◌≡◌, Bool, true, Option, some, List, length}

-- `AeadAlgorithm` of src/tls13.rs.
pub data AeadAlgorithm : Type 0 where
  aes128_gcm aes256_gcm cha_cha20_poly1305 : AeadAlgorithm

pub data HashAlgorithm : Type 0 where
  sha256 sha384 : HashAlgorithm

pub record Crypto : Type 0 where
  -- Whether `Hkdf::from_prk` takes the secret.
  pub from_prk : HashAlgorithm → List ℕ → Bool
  -- `Hkdf::expand` of a secret, an info and a length.
  pub expand : HashAlgorithm → List ℕ → List ℕ → ℕ → List ℕ
  -- HMAC of a key and a message.
  pub hmac : HashAlgorithm → List ℕ → List ℕ → List ℕ
  -- `decrypt` and `encrypt` with a key, a nonce, the associated data and a message.
  pub decrypt : AeadAlgorithm → List ℕ → List ℕ → List ℕ → List ℕ → Option (List ℕ)
  pub encrypt : AeadAlgorithm → List ℕ → List ℕ → List ℕ → List ℕ → List ℕ

-- What is documented of them: lengths, and that an AEAD opens what it sealed.
pub record Lawful (c : Crypto) : Type 0 where
  pub expand_len :
      (h : HashAlgorithm) (secret info : List ℕ) (n : ℕ) → length (c.expand h secret info n) ≡ n
  pub hmac_filled : (h : HashAlgorithm) (key msg : List ℕ) → 0 < length (c.hmac h key msg)
  pub sealed_len :
      (a : AeadAlgorithm) (key nonce aad msg : List ℕ)
      → length (c.encrypt a key nonce aad msg) ≡ length msg + 16
  pub opens :
      (a : AeadAlgorithm) (key nonce aad msg : List ℕ)
      → c.decrypt a key nonce aad (c.encrypt a key nonce aad msg) ≡ some msg
