-- ===== src/Tls13/Examples.antt =====
-- Runs of src/tls13.rs with the toy cryptography.
use tlscap.Prelude.{
  ℕ, ◌≤◌, ◌≡◌, ◌≢◌, ◌↔◌, refl, some, List, [], ◌∷◌, ◌++◌, length, arith, replicate,
}
use tlscap.Crypto.{aes128_gcm}
use tlscap.Crypto.Toy.{toy, toy-Lawful}
use tlscap.Tls13.{RecordKeys, ok, zeros, nonce_for, decrypt_record, encrypt_record, record_aad}
use tlscap.Tls13.Record.{decrypt_record-ok, decrypt_record-encrypt_record}
use tlscap.Tls13.Nonce.{nonce_for-injective}

abbrev key : List ℕ
key = replicate 16 9

abbrev iv : List ℕ
iv = 1 ∷ 2 ∷ 3 ∷ 4 ∷ 5 ∷ 6 ∷ 7 ∷ 8 ∷ 9 ∷ 10 ∷ 11 ∷ 12 ∷ []

abbrev keys : RecordKeys
keys = record { algorithm = aes128_gcm; key = key; iv = iv }

abbrev content : List ℕ
content = b'h' ∷ b'i' ∷ []

abbrev data_type : ℕ
data_type = 0x17

abbrev seq_num : ℕ
seq_num = 7

abbrev header : List ℕ
unfolding record_aad
header = record_aad 22

abbrev body : List ℕ
unfolding encrypt_record nonce_for record_aad
body = encrypt_record toy keys 5 header content 0x17 3

decrypt_record-encrypt_record_example :
    decrypt_record toy keys 5 header (encrypt_record toy keys 5 header content 0x17 3)
    ≡ ok content 0x17
decrypt_record-encrypt_record_example =
    decrypt_record-encrypt_record toy keys 5 header content 0x17 3 toy-Lawful (omega arith)

decrypt_record-ok_example : (decrypt_record toy keys 5 header body ≡ ok content data_type) ↔ (
    (16 ≤ length body)
    × (data_type ≢ 0)
    × (n : ℕ) × (toy.decrypt keys.algorithm keys.key (nonce_for keys 5) header body
        ≡ some (content ++ data_type ∷ zeros n)))
decrypt_record-ok_example = decrypt_record-ok toy keys 5 header body content data_type

-- The two sequence numbers are the same.
nonce_for-injective_example : seq_num ≡ seq_num
nonce_for-injective_example =
    nonce_for-injective keys seq_num seq_num (ground arith) refl (omega arith) (omega arith) refl

abbrev secret : List ℕ
secret = replicate 32 3
