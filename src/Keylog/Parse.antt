-- ===== src/Keylog/Parse.antt =====
-- `Keylog::parse` and `secret_for` of src/keylog.rs against the lines of the file.
use tlscap.Prelude.{
  ℕ, suc, ◌+◌, ◌≡◌, refl, sym, ap, ◌∙◌, Bool, true, false, ◌&&◌, Option, none, some, List, [], ◌∷◌,
  if◌then◌else◌, length, bytes_eq, bytes_eq-Decides, get, put, get-put, arith, Bool-cases, inl, inr,
  Option-cases,
}
use tlscap.Keylog.{
  SecretLabel, client_random, client_handshake_traffic_secret, server_handshake_traffic_secret,
  client_traffic_secret_0, server_traffic_secret_0, label_eq, label_eq-Decides, label_name,
  parse_label, Keylog, empty_keylog, Entry, lines, line_entry, or_empty, insert_entry, parse_loop,
  parse, get_secret, secret_for,
}

label_name-if :
    (s : List ℕ) (x y : SecretLabel)
    → label_name y ≡ s
    → label_name (if bytes_eq s (label_name x) then x else y) ≡ s
label_name-if s x y h = elim (Bool-cases (bytes_eq s (label_name x))) [
  | inl e ↦ rw e (sym ((bytes_eq-Decides s (label_name x)).0 e))
  | inr e ↦ rw e h
]

-- What is printed of a parsed label is the text that was parsed.
pub label_name-parse_label : (s : List ℕ) → label_name (parse_label s) ≡ s
unfolding parse_label
label_name-parse_label s = label_name-if s client_random _ (
    label_name-if s client_handshake_traffic_secret _ (
      label_name-if s server_handshake_traffic_secret _ (
        label_name-if s client_traffic_secret_0 _
          (label_name-if s server_traffic_secret_0 _ refl))))

-- The entries of the lines, in order.
abbrev keep : Option Entry → List Entry → List Entry
keep none es = es
keep (some e) es = e ∷ es

pub entries : (List ℕ → Option (List ℕ)) → List (List ℕ) → List Entry
entries decode [] = []
entries decode (line ∷ rest) = keep (line_entry decode line) (entries decode rest)

-- Whether an entry is for this client random and label.
abbrev is_for : List ℕ → SecretLabel → Entry → Bool
is_for random label (r, l, s) = bytes_eq r random && label_eq l label

abbrev or_else : Option (List ℕ) → Option (List ℕ) → Option (List ℕ)
or_else none o = o
or_else (some s) o = some s

-- The secret of the last entry for this client random and label.
pub last_secret : List ℕ → SecretLabel → List Entry → Option (List ℕ)
last_secret random label [] = none
last_secret random label ((r, l, s) ∷ es) =
    or_else (last_secret random label es) (if is_for random label (r, l, s) then some s else none)

get-or_empty :
    (label : SecretLabel) (o : Option (List (SecretLabel × List ℕ)))
    → get label_eq label (or_empty o) ≡ get_secret o label
get-or_empty label none = refl
get-or_empty label (some inner) = refl

secret_for-insert_entry :
    (random : List ℕ) (label : SecretLabel) (r : List ℕ) (l : SecretLabel) (s : List ℕ)
    (keylog : Keylog)
    → secret_for (insert_entry (r, l, s) keylog) random label
      ≡ (if is_for random label (r, l, s) then some s else secret_for keylog random label)
unfolding secret_for insert_entry
secret_for-insert_entry random label r l s keylog =
    let m = keylog.by_client_random in
    let inner = put label_eq l s (or_empty (get bytes_eq r m)) in
    let outer = get-put bytes_eq bytes_eq-Decides random r inner m in
    elim (Bool-cases (bytes_eq r random)) [
      | inl same ↦
          let eq = (bytes_eq-Decides r random).0 same in
          rw (outer, same)
            (get-put label_eq label_eq-Decides label l s (or_empty (get bytes_eq r m))
              ∙ ap (λ (o : Option (List ℕ)). if label_eq l label then some s else o)
                  (get-or_empty label (get bytes_eq r m)
                    ∙ ap (λ (x : List ℕ). get_secret (get bytes_eq x m) label) eq))
      | inr differ ↦ rw (outer, differ)
    ]

or_else-none : (o : Option (List ℕ)) → or_else o none ≡ o
or_else-none none = refl
or_else-none (some s) = refl

or_else_assoc :
    (later : Option (List ℕ)) (b : Bool) (s : List ℕ) (o : Option (List ℕ))
    → or_else later (if b then some s else o)
      ≡ or_else (or_else later (if b then some s else none)) o
or_else_assoc none true s o = refl
or_else_assoc none false s o = refl
or_else_assoc (some t) b s o = refl

entry_count-insert :
    (r : List ℕ) (l : SecretLabel) (s : List ℕ) (keylog : Keylog) (n : ℕ)
    → (insert_entry (r, l, s) keylog).entry_count + n ≡ keylog.entry_count + suc n
unfolding insert_entry
entry_count-insert r l s keylog n = omega arith

parse_loop-last_secret :
    (decode : List ℕ → Option (List ℕ)) (random : List ℕ) (label : SecretLabel)
    → (ls : List (List ℕ)) (keylog : Keylog)
    → (secret_for (parse_loop decode ls keylog) random label
        ≡ or_else (last_secret random label (entries decode ls)) (secret_for keylog random label))
      × ((parse_loop decode ls keylog).entry_count
          ≡ keylog.entry_count + length (entries decode ls))
unfolding parse_loop entries last_secret
parse_loop-last_secret decode random label [] keylog = (refl, omega arith)
parse_loop-last_secret decode random label (line ∷ rest) keylog =
    elim (Option-cases (line_entry decode line)) [
      | inl e ↦ rw (e, parse_loop, entries) (parse_loop-last_secret decode random label rest keylog)
      | inr ((r, l, s), e) ↦
          let (found, count) =
            parse_loop-last_secret decode random label rest (insert_entry (r, l, s) keylog) in
          rw (e, parse_loop, entries)
            (
              found
                  ∙ ap (or_else (last_secret random label (entries decode rest)))
                      (secret_for-insert_entry random label r l s keylog)
                  ∙ or_else_assoc (last_secret random label (entries decode rest))
                      (is_for random label (r, l, s)) s (secret_for keylog random label),
              count ∙ entry_count-insert r l s keylog (length (entries decode rest)),
            )
    ]

-- After a parse, `secret_for` finds the secret of the last line for the client random and the label,
-- and nothing where there is none; the count is the number of lines with an entry, so
-- that a line that cannot be read as one is not counted.
pub parse-last_secret :
    (decode : List ℕ → Option (List ℕ)) (contents random : List ℕ) (label : SecretLabel)
    → (secret_for (parse decode contents) random label
        ≡ last_secret random label (entries decode (lines contents)))
      × ((parse decode contents).entry_count ≡ length (entries decode (lines contents)))
unfolding parse secret_for
parse-last_secret decode contents random label =
    let (found, count) = parse_loop-last_secret decode random label (lines contents) empty_keylog in
    (
      found ∙ or_else-none (last_secret random label (entries decode (lines contents))),
      count ∙ omega arith,
    )
