-- ===== src/EkOutput/Grouping/Names.antt =====
-- `grouped_entries` as a whole: the names in order, and no key that is not there.
use tlscap.Prelude.{
  ℕ, ◌≡◌, refl, ap, ap₂, ◌∙◌, subst, Bool, true, false, ◌||◌, Option, none, some, List, [], ◌∷◌,
  ◌++◌, bytes_eq, get, Bool-cases, inl, inr,
}
use tlscap.Fields.{FieldValue, Entries, end, entry, FrameFields, entries}
use tlscap.EkOutput.Grouping.{
  Grouped, is_some, or_default, member, remove, group_loop, push_group, take_groups,
  grouped_entries, first_names, occurrences, groups_of,
}
use tlscap.EkOutput.Grouping.Loop.{
  same_name, bytes_eq_refl, bytes_eq_sym, get-remove, member-append, Known, or_true,
  group_loop-order, group_loop-Known, group_loop-values,
}

Present : List (List ℕ) → Grouped → Type 0
Present [] m = Unit {0}
Present (n ∷ ns) m = (is_some (get bytes_eq n m) ≡ true) × Present ns m

pub Distinct : List (List ℕ) → Type 0
Distinct [] = Unit {0}
Distinct (n ∷ ns) = (member n ns ≡ false) × Distinct ns

with_values : Grouped → List (List ℕ) → Grouped
with_values m [] = []
with_values m (n ∷ ns) = (n, or_default (get bytes_eq n m)) ∷ with_values m ns

pub or_head : (a b : Bool) → (a || b) ≡ false → a ≡ false
or_head false b h = refl
or_head true b h = h

pub or_tail : (a b : Bool) → (a || b) ≡ false → b ≡ false
or_tail false b h = h
or_tail true b h = absurd (cc)

with_values-remove :
    (name : List ℕ) (ns : List (List ℕ)) (m : Grouped)
    → member name ns ≡ false
    → with_values (remove name m) ns ≡ with_values m ns
unfolding with_values
with_values-remove name [] m h = refl
with_values-remove name (n ∷ ns) m h =
    let differ = bytes_eq_sym name n ∙ or_head (bytes_eq n name) (member name ns) h in
    ap₂ (λ o rest. (n, or_default o) ∷ rest) (get-remove n name m differ)
      (with_values-remove name ns m (or_tail (bytes_eq n name) (member name ns) h))

remove-Present :
    (name : List ℕ) (ns : List (List ℕ)) (m : Grouped)
    → member name ns ≡ false
    → Present ns m
    → Present ns (remove name m)
unfolding Present
remove-Present name [] m h p = tt
remove-Present name (n ∷ ns) m h p =
    let differ = bytes_eq_sym name n ∙ or_head (bytes_eq n name) (member name ns) h in
    (
      ap is_some (get-remove n name m differ) ∙ p.0,
      remove-Present name ns m (or_tail (bytes_eq n name) (member name ns) h) p.1,
    )

push_group_present :
    (name : List ℕ) (o : Option (List FieldValue)) (rest : Grouped)
    → is_some o ≡ true
    → push_group name o (some rest) ≡ some ((name, or_default o) ∷ rest)
push_group_present name none rest h = absurd (cc)
push_group_present name (some vs) rest h = refl

take_groups-with_values :
    (ns : List (List ℕ)) (m : Grouped)
    → Distinct ns
    → Present ns m
    → take_groups ns m ≡ some (with_values m ns)
unfolding take_groups with_values Distinct Present
take_groups-with_values [] m d p = refl
take_groups-with_values (n ∷ ns) m d p =
    ap (push_group n (get bytes_eq n m)) (
      take_groups-with_values ns (remove n m) d.1 (remove-Present n ns m d.0 p.1)
      ∙ ap some (with_values-remove n ns m d.0))
    ∙ push_group_present n (get bytes_eq n m) (with_values m ns) p.0

-- A name that was seen is not first again.
member-first_names :
    (name : List ℕ) (es : Entries) (seen : List (List ℕ))
    → member name seen ≡ true
    → member name (first_names seen es) ≡ false
unfolding first_names
member-first_names name end seen h = refl
member-first_names name (entry n value es) seen h = elim (Bool-cases (member n seen)) [
  | inl old ↦ rw old (member-first_names name es seen h)
  | inr new ↦
      let here : member name (seen ++ n ∷ []) ≡ true =
        member-append name seen (n ∷ []) ∙ rw h refl in
      elim (Bool-cases (bytes_eq n name)) [
        | inl e ↦
            let same : member n seen ≡ true = ap (λ x. member x seen) (same_name n name e) ∙ h in
            absurd (cc)
        | inr differ ↦ rw (new, differ) (member-first_names name es (seen ++ n ∷ []) here)
      ]
]

first_names-Distinct : (es : Entries) (seen : List (List ℕ)) → Distinct (first_names seen es)
unfolding first_names Distinct
first_names-Distinct end seen = tt
first_names-Distinct (entry n value es) seen = elim (Bool-cases (member n seen)) [
  | inl old ↦ rw old (first_names-Distinct es seen)
  | inr new ↦
      let here = member-append n seen (n ∷ []) ∙ rw (new, bytes_eq_refl n) in
      rw new
        (member-first_names n es (seen ++ n ∷ []) here, first_names-Distinct es (seen ++ n ∷ []))
]

-- What is found for every name of a list.
Distinct-Present :
    (ns : List (List ℕ)) (m : Grouped)
    → Distinct ns
    → ((k : List ℕ) → member k ns ≡ true → is_some (get bytes_eq k m) ≡ true)
    → Present ns m
unfolding Present Distinct
Distinct-Present [] m d h = tt
Distinct-Present (n ∷ ns) m d h = (
  h n (rw (bytes_eq_refl n)),
  Distinct-Present ns m d.1 (λ k i. h k (ap (λ b. bytes_eq n k || b) i ∙ or_true (bytes_eq n k))),
)

with_values-groups_of :
    (ns : List (List ℕ)) (m : Grouped) (es : Entries)
    → ((k : List ℕ) → or_default (get bytes_eq k m) ≡ occurrences k es)
    → with_values m ns ≡ groups_of es ns
unfolding with_values groups_of
with_values-groups_of [] m es h = refl
with_values-groups_of (n ∷ ns) m es h =
    ap₂ (λ vs rest. (n, vs) ∷ rest) (h n) (with_values-groups_of ns m es h)

-- Grouping never panics on a key that is not there. It gives one group for each distinct name, in the
-- order of the names' first entries, with the values of all its entries in their order.
pub grouped_entries-groups_of :
    (ff : FrameFields)
    → grouped_entries ff ≡ some (groups_of (entries ff) (first_names [] (entries ff)))
unfolding grouped_entries
grouped_entries-groups_of ff =
    let es = entries ff in
    let ns = first_names [] es in
    let m = (group_loop es [] []).1 in
    let order : (group_loop es [] []).0 ≡ ns = group_loop-order es [] [] (λ k. refl) in
    let known : Known ns m = subst (λ o. Known o m) order (group_loop-Known es [] [] (λ k. refl)) in
    let distinct = first_names-Distinct es [] in
    ap (λ o. take_groups o m) order
    ∙ take_groups-with_values ns m distinct (Distinct-Present ns m distinct (λ k i. known k ∙ i))
    ∙ ap some (with_values-groups_of ns m es (λ k. group_loop-values es [] [] k))
