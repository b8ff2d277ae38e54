-- ===== src/Tls12/Record.antt =====
-- `decrypt_record` of src/tls12.rs.
use tlscap.Prelude.{ℕ, ◌+◌, ◌-◌, ◌≡◌, ◌≢◌, refl, ◌∙◌, some, List, length, arith}
use tlscap.Prelude.Words.{as_u16}
use tlscap.Crypto.{AeadAlgorithm, aes128_gcm, aes256_gcm, cha_cha20_poly1305, Crypto, Lawful}
use tlscap.Tls12.{
  RecordKeys, nonce_for, aad, open_payload, seal_payload, decrypt_record, encrypt_record,
}

module _ (crypto : Crypto) where
  seal_payload-aes :
      (algorithm : AeadAlgorithm) (key nonce header msg : List ℕ)
      → algorithm ≢ cha_cha20_poly1305
      → seal_payload crypto algorithm key nonce header msg
        ≡ some (crypto.encrypt algorithm key nonce header msg)
  seal_payload-aes aes128_gcm key nonce header msg h = refl
  seal_payload-aes aes256_gcm key nonce header msg h = refl
  seal_payload-aes cha_cha20_poly1305 key nonce header msg h = absurd (h refl)

  open_payload-aes :
      (algorithm : AeadAlgorithm) (key nonce header msg : List ℕ)
      → algorithm ≢ cha_cha20_poly1305
      → open_payload crypto algorithm key nonce header msg
        ≡ crypto.decrypt algorithm key nonce header msg
  open_payload-aes aes128_gcm key nonce header msg h = refl
  open_payload-aes aes256_gcm key nonce header msg h = refl
  open_payload-aes cha_cha20_poly1305 key nonce header msg h = absurd (h refl)

-- With a lawful AEAD and keys for one of the two AES algorithms, a record is encrypted, it is 16 bytes
-- longer than its plaintext, and it is decrypted to this plaintext under the same keys, sequence
-- number, content type and explicit nonce.
pub tls12_round_trip :
    (crypto : Crypto) (keys : RecordKeys) (seq_num content_type : ℕ)
    (explicit_nonce plaintext : List ℕ)
    → Lawful crypto
    → keys.algorithm ≢ cha_cha20_poly1305
    → (ciphertext : List ℕ) × (encrypt_record crypto keys seq_num content_type explicit_nonce
          plaintext
        ≡ some ciphertext)
      × (length ciphertext ≡ length plaintext + 16)
      × (decrypt_record crypto keys seq_num content_type explicit_nonce ciphertext ≡ some plaintext)
unfolding encrypt_record decrypt_record
tls12_round_trip crypto keys seq_num content_type explicit_nonce plaintext law h =
    let nonce = nonce_for keys explicit_nonce in
    let header = aad seq_num content_type (as_u16 (length plaintext)) in
    let ciphertext = crypto.encrypt keys.algorithm keys.key nonce header plaintext in
    let sealed = law.sealed_len keys.algorithm keys.key nonce header plaintext in
    let l : length ciphertext - 16 ≡ length plaintext = omega (arith, sealed) in
    (
      ciphertext,
      seal_payload-aes crypto keys.algorithm keys.key nonce header plaintext h,
      sealed,
      rw l (
          open_payload-aes crypto keys.algorithm keys.key nonce header ciphertext h
          ∙ law.opens keys.algorithm keys.key nonce header plaintext),
    )
