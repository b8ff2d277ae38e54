-- ===== src/Prelude/Maps.antt =====
-- `HashMap<K, V>` as an association list, by a Boolean test of the keys' equality.
use Prim.Native.Nat.{ℕ}
use mathlib.Core.Path.{◌≡◌, refl, sym, ap, ◌∙◌}
use mathlib.Core.Logic.{◌↔◌, inl, inr}
use mathlib.Core.Bool.{Bool, true, false, ◌&&◌}
use mathlib.Core.List.{List, [], ◌∷◌}
use mathlib.Core.Option.{Option, none, some}
use native.Mathlib.Omega.{arith}
use tlscap.Prelude.Tests.{◌==◌, if◌then◌else◌, Bool-cases}

-- A test that decides equality.
abbrev pub Decides {ℓ} : {K : Type ℓ} → (K → K → Bool) → Type ℓ
Decides {K = K} eq = (a b : K) → (eq a b ≡ true) ↔ (a ≡ b)

abbrev pub bytes_eq : List ℕ → List ℕ → Bool
bytes_eq [] [] = true
bytes_eq [] (y ∷ ys) = false
bytes_eq (x ∷ xs) [] = false
bytes_eq (x ∷ xs) (y ∷ ys) = (x == y) && bytes_eq xs ys

pub bytes_eq-Decides : Decides bytes_eq
bytes_eq-Decides [] [] = (λ h. refl, λ h. refl)
bytes_eq-Decides [] (y ∷ ys) = (λ h. absurd (cc), λ h. absurd (cc))
bytes_eq-Decides (x ∷ xs) [] = (λ h. absurd (cc), λ h. absurd (cc))
bytes_eq-Decides (x ∷ xs) (y ∷ ys) =
    let (there, back) = bytes_eq-Decides xs ys in
    (ground (arith, there, back), ground (arith, there, back))

-- A test through a code that determines its argument.
pub Decides-code {ℓ κ} :
    {K : Type ℓ} {C : Type κ} (eq : C → C → Bool) (code : K → C) (back : C → K)
    → Decides eq
    → ((k : K) → back (code k) ≡ k)
    → Decides (λ (a b : K). eq (code a) (code b))
Decides-code eq code back d r a b = (
  λ h. sym (r a) ∙ ap back ((d (code a) (code b)).0 h) ∙ r b,
  λ h. (d (code a) (code b)).1 (ap code h),
)

module _ {ℓ κ} {K : Type ℓ} {V : Type κ} (eq : K → K → Bool) where
  abbrev pub get : K → List (K × V) → Option V
  get k [] = none
  get k ((j, v) ∷ m) = if eq j k then some v else get k m

  abbrev pub put : K → V → List (K × V) → List (K × V)
  put k v [] = (k, v) ∷ []
  put k v ((j, w) ∷ m) = if eq j k then (j, v) ∷ m else (j, w) ∷ put k v m

  pub get-put :
      Decides eq
      → (j k : K) (v : V) (m : List (K × V))
      → get j (put k v m) ≡ (if eq k j then some v else get j m)
  get-put d j k v [] = refl
  get-put d j k v ((i, w) ∷ m) = elim (Bool-cases (eq i k)) [
    | inl e ↦
        let e' : eq i j ≡ eq k j = ap (λ (x : K). eq x j) ((d i k).0 e) in
        elim (Bool-cases (eq k j)) [ inl h ↦ rw (e, e', h) | inr h ↦ rw (e, e', h) ]
    | inr n ↦ elim (Bool-cases (eq i j)) [
      | inl e ↦ elim (Bool-cases (eq k j)) [
        | inl h ↦
            let same : eq i k ≡ true = (d i k).1 ((d i j).0 e ∙ sym ((d k j).0 h)) in absurd (cc)
        | inr h ↦ rw (n, e, h)
      ]
      | inr n' ↦ rw (n, n') (get-put d j k v m)
    ]
  ]

  -- Everything in the map is what the function gives.
  abbrev pub Agrees : (K → Option V) → List (K × V) → Type (ℓ ⊔ κ)
  Agrees f m = (k : K) (v : V) → get k m ≡ some v → f k ≡ some v

  pub put-Agrees :
      (f : K → Option V)
      → Decides eq
      → (k : K) (v : V) (m : List (K × V)) → f k ≡ some v
      → Agrees f m
      → Agrees f (put k v m)
  put-Agrees f d k v m fk a j w h =
      let h' = sym (get-put d j k v m) ∙ h in
      elim (Bool-cases (eq k j)) [
        | inl same ↦ ap f (sym ((d k j).0 same)) ∙ fk ∙ rw same at h'
        | inr differ ↦ a j w (rw differ at h')
      ]
