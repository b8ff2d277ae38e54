-- ===== src/Tls13/Record.antt =====
-- `decrypt_record` of src/tls13.rs: exactly which records it opens, and what it makes of them.
use mathlib.Core.List.{reverse-append, reverse-reverse, reverse-cons}
use tlscap.Prelude.{
  ℕ, zero, suc, ◌≤◌, ◌≡◌, ◌≢◌, ◌↔◌, refl, sym, ap, ap₂, ◌∙◌, false, some, List, [], ◌∷◌, ◌++◌, ltb,
  ◌==◌, length, reverse, arith, Bool-cases, Option-cases, inl, inr, append_assoc,
}
use tlscap.Crypto.{Crypto, Lawful}
use tlscap.Tls13.{
  RecordKeys, ok, pop_zeros, split_content, unpad, zeros, nonce_for, decrypt_record, encrypt_record,
}

replicate-snoc : (n : ℕ) → zeros n ++ 0 ∷ [] ≡ zeros (suc n)
replicate-snoc zero = refl
replicate-snoc (suc n) = ap (◌∷◌ 0) (replicate-snoc n)

reverse-replicate : (n : ℕ) → reverse (zeros n) ≡ zeros n
reverse-replicate zero = refl
reverse-replicate (suc n) =
    reverse-cons 0 (zeros n)
    ∙ ap (λ (xs : List ℕ). xs ++ 0 ∷ []) (reverse-replicate n)
    ∙ replicate-snoc n

-- Zeros in front go, and nothing else does.
pop_zeros-replicate : (n b : ℕ) (bs : List ℕ) → b ≢ 0 → pop_zeros (zeros n ++ b ∷ bs) ≡ b ∷ bs
unfolding pop_zeros
pop_zeros-replicate zero b bs h = ground arith
pop_zeros-replicate (suc n) b bs h = pop_zeros-replicate n b bs h

pop_zeros-split :
    (xs ys : List ℕ) (b : ℕ) → pop_zeros xs ≡ b ∷ ys → (n : ℕ) × (xs ≡ zeros n ++ b ∷ ys) × (b ≢ 0)
unfolding pop_zeros
pop_zeros-split [] ys b e = absurd (cc)
pop_zeros-split (x ∷ xs) ys b e = elim (Bool-cases (x == 0)) [
  | inl z ↦
      let (n, s, h) = pop_zeros-split xs ys b (rw (z, pop_zeros) at e) in
      (suc n, ground (arith, s), h)
  | inr nz ↦ let e' = rw (nz, pop_zeros) at e in (0, ground arith, ground arith)
]

reverse-padded :
    (content : List ℕ) (ct n : ℕ)
    → reverse (content ++ ct ∷ zeros n) ≡ zeros n ++ ct ∷ reverse content
reverse-padded content ct n =
    reverse-append content (ct ∷ zeros n)
    ∙ ap (λ (xs : List ℕ). xs ++ reverse content)
        (reverse-cons ct (zeros n) ∙ ap (λ (xs : List ℕ). xs ++ ct ∷ []) (reverse-replicate n))
    ∙ append_assoc (zeros n) (ct ∷ []) (reverse content)

unpad-padded :
    (content : List ℕ) (ct n : ℕ) → ct ≢ 0 → unpad (content ++ ct ∷ zeros n) ≡ ok content ct
unpad-padded content ct n h = rw (
  reverse-padded content ct n,
  pop_zeros-replicate n ct (reverse content) h,
  reverse-reverse content,
)

unpad-split :
    (inner content : List ℕ) (ct : ℕ)
    → unpad inner ≡ ok content ct
    → (n : ℕ) × (inner ≡ content ++ ct ∷ zeros n) × (ct ≢ 0)
unpad-split inner content ct e = go (pop_zeros (reverse inner)) refl e
  where
    go :
        (xs : List ℕ)
        → pop_zeros (reverse inner) ≡ xs
        → split_content xs ≡ ok content ct
        → (n : ℕ) × (inner ≡ content ++ ct ∷ zeros n) × (ct ≢ 0)
    go [] p q = absurd (cc)
    go (b ∷ ys) p q =
        let (n, s, h) = pop_zeros-split (reverse inner) ys b p in
        let eb : b ≡ ct = cc in
        let ec : reverse ys ≡ content = cc in
        (
          n,
          sym (reverse-reverse inner)
              ∙ ap reverse s
              ∙ reverse-append (zeros n) (b ∷ ys)
              ∙ ap₂ ◌++◌ (reverse-cons b ys) (reverse-replicate n)
              ∙ append_assoc (reverse ys) (b ∷ []) (zeros n)
              ∙ ap₂ (λ c x. c ++ x ∷ zeros n) ec eb,
          rw (← eb) h,
        )

-- A record is opened exactly when it is at least 16 bytes long and the AEAD gives for it the content,
-- its type, which is not zero, and then only zeros.
pub decrypt_record-ok :
    (crypto : Crypto) (keys : RecordKeys) (seq_num : ℕ) (aad body content : List ℕ) (ct : ℕ)
    → (decrypt_record crypto keys seq_num aad body ≡ ok content ct) ↔ (
        (16 ≤ length body)
        × (ct ≢ 0)
        × (n : ℕ) × (crypto.decrypt keys.algorithm keys.key (nonce_for keys seq_num) aad body
            ≡ some (content ++ ct ∷ zeros n)))
unfolding decrypt_record
decrypt_record-ok crypto keys seq_num aad body content ct =
    let d = crypto.decrypt keys.algorithm keys.key (nonce_for keys seq_num) aad body in
    (
      λ e. elim (Bool-cases (ltb (length body) 16)) [
        | inl short ↦ let e' = rw (short, decrypt_record) at e in absurd (cc)
        | inr long ↦ elim (Option-cases d) [
          | inl x ↦ let e' = rw (long, x, decrypt_record) at e in absurd (cc)
          | inr (inner, x) ↦
              let (n, s, h) = unpad-split inner content ct (rw (long, x, decrypt_record) at e) in
              (ground arith, h, n, x ∙ ap some s)
        ]
      ],
      λ (long, h, n, x).
          let l : ltb (length body) 16 ≡ false = ground arith in
          rw (l, x) (unpad-padded content ct n h),
    )

-- With a lawful AEAD, decryption gives back what was encrypted under the same keys, sequence number
-- and associated data, whatever the padding, if the content type is not zero.
pub decrypt_record-encrypt_record :
    (crypto : Crypto) (keys : RecordKeys) (seq_num : ℕ) (aad content : List ℕ) (ct padding : ℕ)
    → Lawful crypto
    → ct ≢ 0
    → decrypt_record crypto keys seq_num aad
        (encrypt_record crypto keys seq_num aad content ct padding)
      ≡ ok content ct
unfolding encrypt_record
decrypt_record-encrypt_record crypto keys seq_num aad content ct padding law h =
    let nonce = nonce_for keys seq_num in
    let inner = content ++ ct ∷ zeros padding in
    (decrypt_record-ok crypto keys seq_num aad _ content ct).1 (
      omega (arith, law.sealed_len keys.algorithm keys.key nonce aad inner),
      h,
      padding,
      law.opens keys.algorithm keys.key nonce aad inner,
    )
