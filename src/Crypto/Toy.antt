-- ===== src/Crypto/Toy.antt =====
-- A lawful instance of the cryptographic operations for the examples: the ciphertext is the message
-- with a tag made of the key, the nonce and the associated data.
use tlscap.Prelude.{
  ℕ, ◌-◌, ◌<◌, ◌≡◌, refl, ap, ◌∙◌, Option, none, some, List, ◌++◌, leb, if◌then◌else◌, length,
  length-append, length-take, length-replicate, take, drop, replicate, take-append, drop-append,
  take-all, drop-all, append-nil, bytes_eq, bytes_eq-Decides, arith,
}
use tlscap.Crypto.{HashAlgorithm, sha256, sha384, Crypto, Lawful}

abbrev filled : ℕ → List ℕ → List ℕ
filled n xs = take n (xs ++ replicate n 7)

length-filled : (n : ℕ) (xs : List ℕ) → length (filled n xs) ≡ n
length-filled n xs = omega (
  arith,
  length-take n (xs ++ replicate n 7),
  length-append xs (replicate n 7),
  length-replicate {A = ℕ} n 7,
)

abbrev pub hash_len : HashAlgorithm → ℕ
hash_len sha256 = 32
hash_len sha384 = 48

abbrev tag : List ℕ → List ℕ → List ℕ → List ℕ
tag key nonce aad = filled 16 (nonce ++ key ++ aad)

abbrev open_toy : List ℕ → List ℕ → Option (List ℕ)
open_toy t c = let n = length c - 16 in if bytes_eq (drop n c) t then some (take n c) else none

open_toy-sealed : (t msg : List ℕ) → length t ≡ 16 → open_toy t (msg ++ t) ≡ some msg
open_toy-sealed t msg l =
    let n : length (msg ++ t) - 16 ≡ length msg = omega (arith, length-append msg t) in
    let z : length msg - length msg ≡ 0 = omega arith in
    let d : drop (length msg) (msg ++ t) ≡ t =
      drop-append (length msg) msg t
      ∙ ap (λ (k : ℕ). drop (length msg) msg ++ drop k t) z
      ∙ ap (λ (xs : List ℕ). xs ++ t) (drop-all (length msg) msg (omega arith)) in
    let k : take (length msg) (msg ++ t) ≡ msg =
      take-append (length msg) msg t
      ∙ ap (λ (k : ℕ). take (length msg) msg ++ take k t) z
      ∙ append-nil (take (length msg) msg)
      ∙ take-all (length msg) msg (omega arith) in
    rw (n, d, k, (bytes_eq-Decides t t).1 refl)

abbrev pub toy : Crypto
toy = record {
  from_prk = λ h secret. leb (hash_len h) (length secret);
  expand = λ h secret info n. filled n (secret ++ info);
  hmac = λ h key msg. filled (hash_len h) (msg ++ key);
  decrypt = λ a key nonce aad c. open_toy (tag key nonce aad) c;
  encrypt = λ a key nonce aad msg. msg ++ tag key nonce aad;
}

hash_len-filled : (h : HashAlgorithm) → 0 < hash_len h
hash_len-filled sha256 = omega arith
hash_len-filled sha384 = omega arith

pub toy-Lawful : Lawful toy
toy-Lawful = record {
  expand_len = λ h secret info n. length-filled n (secret ++ info);
  hmac_filled =
      λ h key msg. omega (arith, length-filled (hash_len h) (msg ++ key), hash_len-filled h);
  sealed_len = λ a key nonce aad msg.
      omega (arith, length-append msg (tag key nonce aad), length-filled 16 (nonce ++ key ++ aad));
  opens = λ a key nonce aad msg.
      open_toy-sealed (tag key nonce aad) msg (length-filled 16 (nonce ++ key ++ aad));
}
