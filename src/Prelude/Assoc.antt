-- ===== src/Prelude/Assoc.antt =====
-- `BTreeMap<u64, V>` as an association list in the order of its keys.
use Prim.Native.Nat.{ℕ, suc, ◌+◌, ◌≤◌, ◌<◌}
use mathlib.Core.Path.{◌≡◌, refl}
use native.Mathlib.Omega.{arith}
use mathlib.Core.List.{List, [], ◌∷◌}
use mathlib.Core.Option.{Option, none, some}
use tlscap.Prelude.Tests.{ltb, ◌==◌, if◌then◌else◌}
use tlscap.Prelude.Lists.{length}

abbrev pub Sorted {ℓ} : Type ℓ → Type ℓ
Sorted V = List (ℕ × V)

module _ {ℓ} {V : Type ℓ} where
  -- `get`
  abbrev pub lookup : ℕ → Sorted V → Option V
  lookup k [] = none
  lookup k ((j, v) ∷ m) = if j == k then some v else lookup k m

  -- `insert`: replaces the value of a key that is there.
  abbrev pub insert : ℕ → V → Sorted V → Sorted V
  insert k v [] = (k, v) ∷ []
  insert k v ((j, w) ∷ m) =
      if ltb k j then (k, v) ∷ (j, w) ∷ m else if j == k then (k, v) ∷ m else (j, w) ∷ insert k v m

  -- The keys ascend, from `lo` on.
  abbrev pub Ascending : ℕ → Sorted V → Type 0
  Ascending lo [] = Unit {0}
  Ascending lo ((k, v) ∷ m) = (lo ≤ k) × Ascending (suc k) m

  pub Ascending-mono : {lo hi : ℕ} (m : Sorted V) → lo ≤ hi → Ascending hi m → Ascending lo m
  Ascending-mono [] h a = tt
  Ascending-mono ((k, v) ∷ m) h a = (omega arith, a.1)

  pub insert-Ascending :
      (lo k : ℕ) (v : V) (m : Sorted V) → lo ≤ k → Ascending lo m → Ascending lo (insert k v m)
  insert-Ascending lo k v [] h a = (h, tt)
  insert-Ascending lo k v ((j, w) ∷ m) h a = ground (arith, insert-Ascending (suc j) k v m)

  pub length-insert_new :
      (k : ℕ) (v : V) (m : Sorted V) → lookup k m ≡ none → length (insert k v m) ≡ length m + 1
  length-insert_new k v [] h = omega arith
  length-insert_new k v ((j, w) ∷ m) h = ground (arith, length-insert_new k v m)

  pub lookup_below : (k lo : ℕ) (m : Sorted V) → k < lo → Ascending lo m → lookup k m ≡ none
  lookup_below k lo [] h a = refl
  lookup_below k lo ((j, w) ∷ m) h a = ground (arith, lookup_below k (suc j) m)
