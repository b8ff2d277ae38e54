-- ===== src/EkOutput/Grouping/Loop.antt =====
-- The loop of `grouped_entries` and the removals behind it.
use tlscap.Prelude.{
  ℕ, ◌≡◌, refl, sym, ap, ◌∙◌, Bool, true, false, ◌||◌, Option, some, List, [], ◌∷◌, ◌++◌,
  append_assoc, append-nil, if◌then◌else◌, bytes_eq, bytes_eq-Decides, get, put, get-put,
  Bool-cases, inl, inr,
}
use tlscap.Fields.{FieldValue, Entries, end, entry}
use tlscap.EkOutput.Grouping.{
  Grouped, is_some, or_default, member, remove, group_loop, first_names, occurrences,
}

pub same_name : (a b : List ℕ) → bytes_eq a b ≡ true → a ≡ b
same_name a b h = (bytes_eq-Decides a b).0 h

pub bytes_eq_refl : (a : List ℕ) → bytes_eq a a ≡ true
bytes_eq_refl a = (bytes_eq-Decides a a).1 refl

pub bytes_eq_sym : (a b : List ℕ) → bytes_eq a b ≡ bytes_eq b a
bytes_eq_sym a b = elim (Bool-cases (bytes_eq a b)) [
  | inl e ↦ let same : b ≡ a = sym (same_name a b e) in e ∙ sym ((bytes_eq-Decides b a).1 same)
  | inr n ↦ elim (Bool-cases (bytes_eq b a)) [
    | inl e ↦
        let same : bytes_eq a b ≡ true = (bytes_eq-Decides a b).1 (sym (same_name b a e)) in
        absurd (cc)
    | inr n' ↦ n ∙ sym n'
  ]
]

pub get-remove :
    (k name : List ℕ) (m : Grouped)
    → bytes_eq name k ≡ false
    → get bytes_eq k (remove name m) ≡ get bytes_eq k m
get-remove k name [] h = refl
get-remove k name ((n, vs) ∷ m) h = elim (Bool-cases (bytes_eq n name)) [
  | inl e ↦
      let same : n ≡ name = same_name n name e in
      let differ : bytes_eq n k ≡ false = ap (λ x. bytes_eq x k) same ∙ h in
      rw (e, differ) (get-remove k name m h)
  | inr e ↦ rw e (ap (λ o. if bytes_eq n k then some vs else o) (get-remove k name m h))
]

pub member-append :
    (k : List ℕ) (ns ms : List (List ℕ)) → member k (ns ++ ms) ≡ (member k ns || member k ms)
member-append k [] ms = refl
member-append k (n ∷ ns) ms = elim (Bool-cases (bytes_eq n k)) [
  | inl e ↦ rw e
  | inr e ↦ rw e (member-append k ns ms)
]

-- The keys of the map are the names in `order`.
abbrev pub Known : List (List ℕ) → Grouped → Type 0
Known order m = (k : List ℕ) → is_some (get bytes_eq k m) ≡ member k order

-- `order` and `map` after one entry.
abbrev pub order_after : Option (List FieldValue) → List ℕ → List (List ℕ) → List (List ℕ)
order_after values name order = if is_some values then order else order ++ name ∷ []

abbrev pub map_after : List ℕ → FieldValue → Grouped → Grouped
map_after name value m = put bytes_eq name (or_default (get bytes_eq name m) ++ value ∷ []) m

pub or_true : (a : Bool) → (a || true) ≡ true
or_true true = refl
or_true false = refl

pub or_false : (a : Bool) → (a || false) ≡ a
or_false true = refl
or_false false = refl

pub map_after-Known :
    (name : List ℕ) (value : FieldValue) (order : List (List ℕ)) (m : Grouped)
    → Known order m
    → Known (order_after (get bytes_eq name m) name order) (map_after name value m)
map_after-Known name value order m known k =
    let there =
      get-put bytes_eq bytes_eq-Decides k name (or_default (get bytes_eq name m) ++ value ∷ []) m in
    let last = member-append k order (name ∷ []) in
    elim (Bool-cases (bytes_eq name k)) [
      | inl e ↦
          let same : name ≡ k = same_name name k e in
          elim (Bool-cases (is_some (get bytes_eq name m))) [
            | inl old ↦
                let old' : member k order ≡ true =
                  sym (known k) ∙ ap (λ x. is_some (get bytes_eq x m)) (sym same) ∙ old in
                ap is_some (rw e at there) ∙ rw old (sym old')
            | inr new ↦
                ap is_some (rw e at there) ∙ rw new (sym (last ∙ rw e (or_true (member k order))))
          ]
      | inr n ↦
          let kept = ap is_some (rw n at there) ∙ known k in
          elim (Bool-cases (is_some (get bytes_eq name m))) [
            | inl old ↦ rw old kept
            | inr new ↦ rw new (kept ∙ sym (last ∙ rw n (or_false (member k order))))
          ]
    ]

pub group_loop-order :
    (es : Entries) (order : List (List ℕ)) (m : Grouped)
    → Known order m
    → (group_loop es order m).0 ≡ order ++ first_names order es
unfolding group_loop first_names
group_loop-order end order m known = sym (append-nil order)
group_loop-order (entry name value es) order m known =
    let ih =
      group_loop-order es (order_after (get bytes_eq name m) name order) (map_after name value m)
        (map_after-Known name value order m known) in
    elim (Bool-cases (member name order)) [
      | inl old ↦ let old' = known name ∙ old in rw (group_loop, old, old') (rw old' at ih)
      | inr new ↦
          let new' = known name ∙ new in
          rw (group_loop, new, new')
            ((rw new' at ih) ∙ append_assoc order (name ∷ []) (first_names (order ++ name ∷ []) es))
    ]

pub group_loop-Known :
    (es : Entries) (order : List (List ℕ)) (m : Grouped)
    → Known order m
    → Known (group_loop es order m).0 (group_loop es order m).1
unfolding group_loop
group_loop-Known end order m known = known
group_loop-Known (entry name value es) order m known =
    group_loop-Known es _ _ (map_after-Known name value order m known)

pub group_loop-values :
    (es : Entries) (order : List (List ℕ)) (m : Grouped) (k : List ℕ)
    → or_default (get bytes_eq k (group_loop es order m).1)
      ≡ or_default (get bytes_eq k m) ++ occurrences k es
unfolding group_loop occurrences
group_loop-values end order m k = sym (append-nil (or_default (get bytes_eq k m)))
group_loop-values (entry name value es) order m k =
    let there =
      get-put bytes_eq bytes_eq-Decides k name (or_default (get bytes_eq name m) ++ value ∷ []) m in
    let ih =
      group_loop-values es (order_after (get bytes_eq name m) name order) (map_after name value m)
        k in
    elim (Bool-cases (bytes_eq name k)) [
      | inl e ↦
          let same : name ≡ k = same_name name k e in
          let now : or_default (get bytes_eq k (map_after name value m))
              ≡ or_default (get bytes_eq k m) ++ value ∷ [] =
            ap or_default (rw e at there)
            ∙ ap (λ x. or_default (get bytes_eq x m) ++ value ∷ []) same in
          rw e (
            ih
            ∙ ap (λ vs. vs ++ occurrences k es) now
            ∙ append_assoc (or_default (get bytes_eq k m)) (value ∷ []) (occurrences k es))
      | inr n ↦
          let now = ap or_default (rw n at there) in
          rw n (ih ∙ ap (λ vs. vs ++ occurrences k es) now)
    ]
