-- ===== src/EkOutput/Values/Grammar.antt =====
-- The grammar of JSON (RFC 8259) without white space, as far as the output uses it: a text is a
-- value, the elements of an array or the members of an object.
use tlscap.Prelude.{
  ℕ, suc, ◌+◌, ◌≡◌, refl, sym, subst, Bool, true, false, List, [], ◌∷◌, ◌++◌, append_assoc, arith,
}
use tlscap.Text.{Plain, Plain-append}
use tlscap.Text.Lines.{IsLines, line, line_feed}
use tlscap.Text.Lines
use tlscap.Text.Decimal.{decimal, decimal-Plain}
use tlscap.EkOutput.Json.{json_string, json_string-Plain}
use tlscap.EkOutput.Values.{separator, key}

-- The Boolean says that no element or member stands before, so no comma comes first.
mutual
  pub data IsJson : List ℕ → Type 0 where
    number : (n : ℕ) → IsJson (decimal n)
    string : (s : List ℕ) → IsJson (json_string s)
    array : (t : List ℕ) → IsElements true t → IsJson (b'[' ∷ (t ++ b']' ∷ []))
    object : (t : List ℕ) → IsMembers true t → IsJson (b'{' ∷ (t ++ b'}' ∷ []))

  pub data IsElements : Bool → List ℕ → Type 0 where
    no_elements : (first : Bool) → IsElements first []
    element :
        (first : Bool) (t rest : List ℕ)
        → IsJson t
        → IsElements false rest
        → IsElements first ((separator first ++ t) ++ rest)

  pub data IsMembers : Bool → List ℕ → Type 0 where
    no_members : (first : Bool) → IsMembers first []
    member_of :
        (first : Bool) (name t rest : List ℕ)
        → IsJson t
        → IsMembers false rest
        → IsMembers first (((separator first ++ key name) ++ t) ++ rest)

separator-Plain : (first : Bool) → Plain (separator first)
separator-Plain true = tt
separator-Plain false = omega arith

key-Plain : (name : List ℕ) → Plain (key name)
key-Plain name = Plain-append (json_string name) _ (json_string-Plain name) (omega arith)

mutual
  pub IsJson-Plain : (t : List ℕ) → IsJson t → Plain t
  IsJson-Plain _ (number n) = decimal-Plain n
  IsJson-Plain _ (string s) = json_string-Plain s
  IsJson-Plain _ (array t e) =
      (omega arith, Plain-append t _ (IsElements-Plain true t e) (omega arith))
  IsJson-Plain _ (object t m) =
      (omega arith, Plain-append t _ (IsMembers-Plain true t m) (omega arith))

  IsElements-Plain : (first : Bool) (t : List ℕ) → IsElements first t → Plain t
  IsElements-Plain _ _ (no_elements first) = tt
  IsElements-Plain _ _ (element first t rest j e) =
      Plain-append (separator first ++ t) rest
        (Plain-append (separator first) t (separator-Plain first) (IsJson-Plain t j))
        (IsElements-Plain false rest e)

  IsMembers-Plain : (first : Bool) (t : List ℕ) → IsMembers first t → Plain t
  IsMembers-Plain _ _ (no_members first) = tt
  IsMembers-Plain _ _ (member_of first name t rest j m) =
      Plain-append ((separator first ++ key name) ++ t) rest
        (Plain-append (separator first ++ key name) t
          (Plain-append (separator first) (key name) (separator-Plain first) (key-Plain name))
          (IsJson-Plain t j))
        (IsMembers-Plain false rest m)

-- Members go on behind members, if these are not the first.
pub IsMembers-append :
    (xs ys : List ℕ) → IsMembers false xs → IsMembers false ys → IsMembers false (xs ++ ys)
IsMembers-append _ ys (no_members _) k = k
IsMembers-append _ ys (member_of first name t rest j m) k =
    let joined = member_of first name t (rest ++ ys) j (IsMembers-append rest ys m k) in
    subst (λ x. IsMembers first x) (sym (append_assoc ((separator first ++ key name) ++ t) rest ys))
      joined

-- A document of `n` objects, each on a line of its own.
pub data IsDocument : ℕ → List ℕ → Type 0 where
  end : IsDocument 0 []
  object_line :
      (n : ℕ) (members rest : List ℕ)
      → IsMembers true members
      → IsDocument n rest
      → IsDocument (suc n) ((b'{' ∷ (members ++ b'}' ∷ [])) ++ line_feed ∷ rest)

pub IsDocument-append :
    (m n : ℕ) (xs ys : List ℕ) → IsDocument m xs → IsDocument n ys → IsDocument (m + n) (xs ++ ys)
IsDocument-append _ n _ ys end q = subst (λ k. IsDocument k ys) (omega arith) q
IsDocument-append _ n _ ys (object_line m members rest i d) q =
    let joined = object_line (m + n) members (rest ++ ys) i (IsDocument-append m n rest ys d q) in
    let text = append_assoc (b'{' ∷ (members ++ b'}' ∷ [])) (line_feed ∷ rest) ys in
    let whole = ((b'{' ∷ (members ++ b'}' ∷ [])) ++ line_feed ∷ rest) ++ ys in
    let count : suc (m + n) ≡ suc m + n = omega arith in
    subst (λ k. IsDocument k whole) count
      (subst (λ x. IsDocument (suc (m + n)) x) (sym text) joined)

pub IsDocument-IsLines : (n : ℕ) (text : List ℕ) → IsDocument n text → IsLines n text
IsDocument-IsLines _ _ end = Lines.end
IsDocument-IsLines _ _ (object_line n members rest m d) =
    line n (b'{' ∷ (members ++ b'}' ∷ [])) rest _ (IsJson-Plain _ (object members m))
      (IsDocument-IsLines n rest d) refl
