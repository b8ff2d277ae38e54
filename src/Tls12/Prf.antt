-- ===== src/Tls12/Prf.antt =====
-- The key derivation of src/tls12.rs against RFC 5246 §5 and §6.3.
use tlscap.Prelude.{
  ℕ, zero, suc, ◌+◌, ◌-◌, ◌≤◌, ◌<◌, ◌≡◌, sym, ap, ◌∙◌, some, List, [], ◌++◌, ltb, length,
  length-append, length-take, take-append, append_assoc, append-nil, Bool-cases, inl, inr, take,
  arith,
}
use tlscap.Crypto.{HashAlgorithm, Crypto, Lawful}
use tlscap.Tls12.{p_hash_loop, p_hash}

take-append-left : (n : ℕ) (xs ys : List ℕ) → n ≤ length xs → take n (xs ++ ys) ≡ take n xs
take-append-left n xs ys le =
    let e : n - length xs ≡ 0 = omega arith in
    take-append n xs ys ∙ ap (λ (k : ℕ). take n xs ++ take k ys) e ∙ append-nil (take n xs)

module _ (crypto : Crypto) (h : HashAlgorithm) (secret seed : List ℕ) where
  -- A(0) = seed, A(i) = HMAC(secret, A(i - 1)).
  unfoldable pub a_value : ℕ → List ℕ
  a_value zero = seed
  a_value (suc i) = crypto.hmac h secret (a_value i)

  -- The first `n` blocks HMAC(secret, A(i) + seed), from i = 1 on.
  unfoldable pub blocks : ℕ → List ℕ
  unfolding a_value
  blocks zero = []
  blocks (suc n) = blocks n ++ crypto.hmac h secret (a_value (suc n) ++ seed)

  module _ (law : Lawful crypto) where
    blocks-len : (n : ℕ) → n ≤ length (blocks n)
    unfolding blocks
    blocks-len zero = omega arith
    blocks-len (suc n) = omega (
      arith,
      blocks-len n,
      length-append (blocks n) (crypto.hmac h secret (a_value (suc n) ++ seed)),
      law.hmac_filled h secret (a_value (suc n) ++ seed),
    )

    blocks-prefix : (n k : ℕ) → (rest : List ℕ) × (blocks (k + n) ≡ blocks n ++ rest)
    unfolding blocks
    blocks-prefix n zero =
        let e : zero + n ≡ n = omega arith in ([], rw e (sym (append-nil (blocks n))))
    blocks-prefix n (suc k) =
        let (rest, e) = blocks-prefix n k in
        let more = crypto.hmac h secret (a_value (suc (k + n)) ++ seed) in
        let step : suc k + n ≡ suc (k + n) = omega arith in
        (
          rest ++ more,
          rw step (ap (λ (bs : List ℕ). bs ++ more) e ∙ append_assoc (blocks n) rest more),
        )

    -- More blocks change nothing of the first bytes.
    take-blocks :
        (out_len n k : ℕ)
        → out_len ≤ length (blocks n)
        → take out_len (blocks (k + n)) ≡ take out_len (blocks n)
    take-blocks out_len n k le =
        let (rest, e) = blocks-prefix n k in
        ap (take out_len) e ∙ take-append-left out_len (blocks n) rest le

    take-blocks-both :
        (out_len m n : ℕ)
        → out_len ≤ length (blocks m)
        → out_len ≤ length (blocks n)
        → take out_len (blocks m) ≡ take out_len (blocks n)
    take-blocks-both out_len m n hm hn =
        let e : n + m ≡ m + n = omega arith in
        sym (take-blocks out_len m n hm)
        ∙ ap (λ (k : ℕ). take out_len (blocks k)) e
        ∙ take-blocks out_len n m hn

    p_hash_loop-blocks :
        (out_len fuel n : ℕ)
        → out_len < fuel + n
        → n ≤ out_len
        → (m : ℕ) × (p_hash_loop crypto h secret seed out_len fuel (a_value (suc n)) (blocks n)
            ≡ some (take out_len (blocks m)))
          × (out_len ≤ length (blocks m))
    unfolding p_hash_loop blocks
    p_hash_loop-blocks out_len zero n lt le = absurd (omega arith)
    p_hash_loop-blocks out_len (suc fuel) n lt le =
        elim (Bool-cases (ltb (length (blocks n)) out_len)) [
          | inl more ↦
              let below : length (blocks n) < out_len = ground arith in
              rw (more, p_hash_loop)
                (p_hash_loop-blocks out_len fuel (suc n) (omega arith)
                  (omega (arith, below, blocks-len n)))
          | inr done ↦ (n, rw (done, p_hash_loop), ground arith)
        ]

    -- P_hash of RFC 5246: whatever number of blocks is enough, p_hash returns their first bytes.
    pub p_hash-blocks :
        (out_len n : ℕ)
        → out_len ≤ length (blocks n)
        → p_hash crypto h secret seed out_len ≡ some (take out_len (blocks n))
    unfolding p_hash blocks
    p_hash-blocks out_len n le =
        let (m, e, lm) = p_hash_loop-blocks out_len (suc out_len) 0 (omega arith) (omega arith) in
        e ∙ ap some (take-blocks-both out_len m n lm le)

    pub p_hash-total :
        (out_len : ℕ)
        → (bytes : List ℕ) × (p_hash crypto h secret seed out_len ≡ some bytes)
          × (length bytes ≡ out_len)
    p_hash-total out_len = (
      take out_len (blocks out_len),
      p_hash-blocks out_len out_len (blocks-len out_len),
      omega (arith, length-take out_len (blocks out_len), blocks-len out_len),
    )
