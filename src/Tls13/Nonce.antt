-- ===== src/Tls13/Nonce.antt =====
-- Key material and nonces of src/tls13.rs.
use Prim.Native.Nat.{bit_xor}
use tlscap.Prelude.{
  ℕ, zero, suc, ◌<◌, ◌^◌, ◌≡◌, refl, ap₂, true, some, List, [], ◌∷◌, ◌++◌, length, length-drop,
  take, drop, arith,
}
use tlscap.Prelude.Words.{
  Bytes, be_bytes, length-be_bytes, be_bytes-Bytes, be_bytes-injective, bit_xor-injective,
}
use tlscap.Crypto.{AeadAlgorithm, Crypto, Lawful}
use tlscap.Tls13.{
  RecordKeys, key_len, iv_len, hash, key_label, iv_label, hkdf_label, derive, xor_bytes, nonce_for,
}

append_cancel : (xs : List ℕ) {ys zs : List ℕ} → xs ++ ys ≡ xs ++ zs → ys ≡ zs
append_cancel [] e = e
append_cancel (x ∷ xs) e = append_cancel xs (ground (arith, e))

drop-Bytes : (n : ℕ) (xs : List ℕ) → Bytes xs → Bytes (drop n xs)
drop-Bytes zero xs h = h
drop-Bytes (suc n) [] h = tt
drop-Bytes (suc n) (x ∷ xs) h = drop-Bytes n xs h.1

xor_bytes-injective :
    (xs ys zs : List ℕ)
    → Bytes xs
    → Bytes ys
    → Bytes zs
    → length ys ≡ length xs
    → length zs ≡ length xs
    → xor_bytes xs ys ≡ xor_bytes xs zs
    → ys ≡ zs
xor_bytes-injective [] [] [] hx hy hz ly lz e = refl
xor_bytes-injective [] (y ∷ ys) zs hx hy hz ly lz e = absurd (omega arith)
xor_bytes-injective [] [] (z ∷ zs) hx hy hz ly lz e = absurd (omega arith)
xor_bytes-injective (x ∷ xs) [] zs hx hy hz ly lz e = absurd (omega arith)
xor_bytes-injective (x ∷ xs) (y ∷ ys) [] hx hy hz ly lz e = absurd (omega arith)
xor_bytes-injective (x ∷ xs) (y ∷ ys) (z ∷ zs) hx hy hz ly lz e =
    let heads : bit_xor x y ≡ bit_xor x z = cc in
    let tails : xor_bytes xs ys ≡ xor_bytes xs zs = cc in
    ap₂ ◌∷◌ (bit_xor-injective x y z hx.0 hy.0 hz.0 heads)
      (xor_bytes-injective xs ys zs hx.1 hy.1 hz.1 (omega arith) (omega arith) tails)

-- Two records under the same keys never share a nonce: sequence numbers of 64 bits that have the same
-- nonce are equal, for an IV of twelve bytes.
pub nonce_for-injective :
    (keys : RecordKeys) (s t : ℕ)
    → Bytes keys.iv
    → length keys.iv ≡ iv_len
    → s < 2 ^ 64
    → t < 2 ^ 64
    → nonce_for keys s ≡ nonce_for keys t
    → s ≡ t
unfolding nonce_for
nonce_for-injective keys s t b l hs ht e = be_bytes-injective 8 s t hs ht (
    xor_bytes-injective (drop 4 keys.iv) (be_bytes 8 s) (be_bytes 8 t) (drop-Bytes 4 keys.iv b)
      (be_bytes-Bytes 8 s) (be_bytes-Bytes 8 t)
      (omega (arith, length-be_bytes 8 s, length-drop 4 keys.iv))
      (omega (arith, length-be_bytes 8 t, length-drop 4 keys.iv))
      (append_cancel (take 4 keys.iv) e))

-- With a lawful HKDF that takes the secret, keys are derived, for the algorithm asked for, and they have
-- the lengths that the AEAD wants: the algorithm's key length, and a twelve-byte IV.
pub derive_lengths :
    (crypto : Crypto) (secret : List ℕ) (algorithm : AeadAlgorithm)
    → Lawful crypto
    → crypto.from_prk (hash algorithm) secret ≡ true
    → (keys : RecordKeys) × (derive crypto secret algorithm ≡ some keys)
      × (keys.algorithm ≡ algorithm)
      × (length keys.key ≡ key_len algorithm)
      × (length keys.iv ≡ iv_len)
unfolding derive
derive_lengths crypto secret algorithm law fits =
    let h = hash algorithm in
    let n = key_len algorithm in
    (
      record {
        algorithm = algorithm;
        key = crypto.expand h secret (hkdf_label key_label [] n) n;
        iv = crypto.expand h secret (hkdf_label iv_label [] iv_len) iv_len;
      },
      rw fits,
      refl,
      law.expand_len h secret _ n,
      law.expand_len h secret _ iv_len,
    )
