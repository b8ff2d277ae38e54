-- ===== src/Orchestrator/Identity.antt =====
-- `conn_key` of src/orchestrator.rs identifies a connection whichever way a packet goes.
use tlscap.Prelude.{
  ◌≡◌, refl, sym, ap, ap₂, ◌∙◌, true, false, ◌⊎◌, inl, inr, Bool-cases, arith, ◌↔◌,
}
use tlscap.Orchestrator.{v4, v6, Endpoint, endpoint_le, ConnKey, conn_key}

-- Of two endpoints one is below the other, and if both are, they are equal.
endpoint_le_total : (a b : Endpoint) → endpoint_le a b ≡ false → endpoint_le b a ≡ true
endpoint_le_total (v4 x, p) (v4 y, q) h = ground arith
endpoint_le_total (v4 x, p) (v6 y, q) h = absurd (cc)
endpoint_le_total (v6 x, p) (v4 y, q) h = refl
endpoint_le_total (v6 x, p) (v6 y, q) h = ground arith

endpoint_le_antisym : (a b : Endpoint) → endpoint_le a b ≡ true → endpoint_le b a ≡ true → a ≡ b
endpoint_le_antisym (v4 x, p) (v4 y, q) h k = ground arith
endpoint_le_antisym (v4 x, p) (v6 y, q) h k = absurd (cc)
endpoint_le_antisym (v6 x, p) (v4 y, q) h k = absurd (cc)
endpoint_le_antisym (v6 x, p) (v6 y, q) h k = ground arith

conn_key_sym : (a b : Endpoint) → conn_key a b ≡ conn_key b a
unfolding conn_key
conn_key_sym a b = elim (Bool-cases (endpoint_le a b)) [
  | inr h ↦ rw (h, endpoint_le_total a b h)
  | inl h ↦ elim (Bool-cases (endpoint_le b a)) [
    | inr k ↦ rw (h, k)
    | inl k ↦ let e = endpoint_le_antisym a b h k in ap₂ conn_key e (sym e)
  ]
]

conn_key_cases :
    (a b : Endpoint)
    → (conn_key a b ≡ record { low = a; high = b }) ⊎ (conn_key a b ≡ record { low = b; high = a })
unfolding conn_key
conn_key_cases a b = elim (Bool-cases (endpoint_le a b)) [ inl h ↦ inl (rw h) | inr h ↦ inr (rw h) ]

-- Two packets get the same key exactly when they run between the same two endpoints, the same way or
-- the opposite way.
pub conn_key_iff :
    (a b c d : Endpoint)
    → (conn_key a b ≡ conn_key c d) ↔ (((a ≡ c) × (b ≡ d)) ⊎ ((a ≡ d) × (b ≡ c)))
conn_key_iff a b c d = (there, back)
  where
    there : conn_key a b ≡ conn_key c d → ((a ≡ c) × (b ≡ d)) ⊎ ((a ≡ d) × (b ≡ c))
    there e = elim (conn_key_cases a b) [
      | inl x ↦ elim (conn_key_cases c d) [
        | inl y ↦
            let p = sym x ∙ e ∙ y in
            inl (ap (λ (k : ConnKey). k.low) p, ap (λ (k : ConnKey). k.high) p)
        | inr y ↦
            let p = sym x ∙ e ∙ y in
            inr (ap (λ (k : ConnKey). k.low) p, ap (λ (k : ConnKey). k.high) p)
      ]
      | inr x ↦ elim (conn_key_cases c d) [
        | inl y ↦
            let p = sym x ∙ e ∙ y in
            inr (ap (λ (k : ConnKey). k.high) p, ap (λ (k : ConnKey). k.low) p)
        | inr y ↦
            let p = sym x ∙ e ∙ y in
            inl (ap (λ (k : ConnKey). k.high) p, ap (λ (k : ConnKey). k.low) p)
      ]
    ]

    back : ((a ≡ c) × (b ≡ d)) ⊎ ((a ≡ d) × (b ≡ c)) → conn_key a b ≡ conn_key c d
    back (inl (p, q)) = ap₂ conn_key p q
    back (inr (p, q)) = ap₂ conn_key p q ∙ conn_key_sym d c
