-- ===== src/Rotation/Names.antt =====
-- The names of the chunks.
use tlscap.Prelude.{
  ℕ, zero, suc, ◌+◌, ◌-◌, ◌/◌, ◌%◌, ◌≡◌, refl, sym, ap, ◌∙◌, false, List, [], ◌∷◌, ◌++◌, length,
  ltb, ◌==◌, Bool-cases, inl, inr, arith,
}
use tlscap.Text.{codes, first_part}
use tlscap.Text.Decimal.{decimal, digits, read_digits, read_digits-decimal, padded, zeros}
use tlscap.Rotation.{FilePath, chunk_path, chunk_suffix, or_empty}

-- No character is an underscore.
NoUnderscore : List ℕ → Type 0
NoUnderscore [] = Unit {0}
NoUnderscore (c ∷ cs) = ((c == b'_') ≡ false) × NoUnderscore cs

digits-NoUnderscore :
    (fuel n : ℕ) (out : List ℕ) → NoUnderscore out → NoUnderscore (digits fuel n out)
unfolding digits NoUnderscore
digits-NoUnderscore zero n out p = p
digits-NoUnderscore (suc fuel) n out p = elim (Bool-cases (ltb n 10)) [
  | inl last ↦ rw last (ground arith, p)
  | inr more ↦ rw more (digits-NoUnderscore fuel (n / 10) ((n % 10 + b'0') ∷ out) (ground arith, p))
]

zeros-NoUnderscore : (n : ℕ) (xs : List ℕ) → NoUnderscore xs → NoUnderscore (zeros n ++ xs)
unfolding NoUnderscore
zeros-NoUnderscore zero xs p = p
zeros-NoUnderscore (suc n) xs p = (refl, zeros-NoUnderscore n xs p)

padded-NoUnderscore : (n : ℕ) → NoUnderscore (padded 6 n)
unfolding decimal NoUnderscore
padded-NoUnderscore n =
    zeros-NoUnderscore (6 - length (decimal n)) (decimal n) (digits-NoUnderscore (suc n) n [] tt)

first_part-append : (xs ys : List ℕ) → NoUnderscore xs → first_part b'_' (xs ++ b'_' ∷ ys) ≡ xs
unfolding NoUnderscore
first_part-append [] ys p = refl
first_part-append (x ∷ xs) ys p = rw p.0 (ap (λ z. x ∷ z) (first_part-append xs ys p.1))

read_digits-zeros : (n : ℕ) (xs : List ℕ) → read_digits 0 (zeros n ++ xs) ≡ read_digits 0 xs
unfolding read_digits
read_digits-zeros zero xs = refl
read_digits-zeros (suc n) xs = read_digits-zeros n xs

-- The text behind a prefix.
behind : List ℕ → List ℕ → List ℕ
behind [] text = text
behind (p ∷ prefix) [] = []
behind (p ∷ prefix) (c ∷ text) = behind prefix text

behind-append : (prefix text : List ℕ) → behind prefix (prefix ++ text) ≡ text
unfolding behind
behind-append [] text = refl
behind-append (p ∷ prefix) text = behind-append prefix text

abbrev tail_of : List ℕ → List ℕ
tail_of [] = []
tail_of (c ∷ cs) = cs

-- The counter that a chunk's name bears.
abbrev counter_in : List ℕ → FilePath → ℕ
counter_in prefix path =
    read_digits 0 (first_part b'_' (tail_of (behind prefix (or_empty path.file_name))))

counter_in-chunk_path :
    (prefix : FilePath) (counter : ℕ) (stamp : List ℕ)
    → counter_in (or_empty prefix.file_name) (chunk_path prefix counter stamp) ≡ counter
unfolding chunk_path
counter_in-chunk_path prefix counter stamp =
    ap (λ x. read_digits 0 (first_part b'_' (tail_of x)))
      (behind-append (or_empty prefix.file_name) (chunk_suffix counter stamp))
    ∙ ap (read_digits 0)
        (first_part-append (padded 6 counter) (stamp ++ codes ".gz") (padded-NoUnderscore counter))
    ∙ read_digits-zeros (6 - length (decimal counter)) (decimal counter)
    ∙ read_digits-decimal counter

-- Chunks of different numbers have different names, whatever the stamps of the local time are.
pub chunk_path-distinct :
    (prefix : FilePath) (m n : ℕ) (s t : List ℕ)
    → chunk_path prefix m s ≡ chunk_path prefix n t
    → m ≡ n
chunk_path-distinct prefix m n s t h =
    sym (counter_in-chunk_path prefix m s)
    ∙ ap (counter_in (or_empty prefix.file_name)) h
    ∙ counter_in-chunk_path prefix n t
