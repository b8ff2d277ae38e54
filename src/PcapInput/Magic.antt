-- ===== src/PcapInput/Magic.antt =====
-- `open` of src/pcap_input.rs up to the format: the loop that fills the magic number from a reader
-- that may give fewer bytes than asked for. The reader is a parameter.
use tlscap.Prelude.{
  ℕ, zero, suc, ◌+◌, ◌-◌, ◌≤◌, ◌<◌, ◌≡◌, refl, sym, ap, ◌∙◌, subst, true, ◌||◌, Option, none, some,
  List, [], ◌∷◌, ◌++◌, append_assoc, length, length-append, leb, if◌then◌else◌, bytes_eq,
  Bool-cases, inl, inr, arith,
}

pub data Format : Type 0 where
  pcap pcap_ng : Format

-- `none` is an unknown magic number.
unfoldable pub detect : List ℕ → Option Format
detect magic =
    if bytes_eq magic (0xa1 ∷ 0xb2 ∷ 0xc3 ∷ 0xd4 ∷ [])
      || bytes_eq magic (0xd4 ∷ 0xc3 ∷ 0xb2 ∷ 0xa1 ∷ [])
      || bytes_eq magic (0xa1 ∷ 0xb2 ∷ 0x3c ∷ 0x4d ∷ [])
      || bytes_eq magic (0x4d ∷ 0x3c ∷ 0xb2 ∷ 0xa1 ∷ [])
    then some pcap
    else if bytes_eq magic (0x0a ∷ 0x0d ∷ 0x0d ∷ 0x0a ∷ [])
    then some pcap_ng
    else none

-- The magic number and the reader behind it, `OpenError::TooShort` or the end of the fuel.
pub data Filled (R : Type 0) : Type 0 where
  filled : List ℕ → R → Filled R
  too_short out_of_fuel : Filled R

-- `Ok` with a format and the two parts of the chained reader, or an error.
pub data Opened (R : Type 0) : Type 0 where
  opened : Format → List ℕ → R → Opened R
  too_short_error unknown_magic no_fuel : Opened R

abbrev opened_as : {R : Type 0} → List ℕ → R → Option Format → Opened R
opened_as magic s none = unknown_magic
opened_as magic s (some format) = opened format magic s

abbrev open_filled : {R : Type 0} → Filled R → Opened R
open_filled (filled magic s) = opened_as magic s (detect magic)
open_filled too_short = too_short_error
open_filled out_of_fuel = no_fuel

-- A round behind the read: an error and the end of the input end the loop.
abbrev got : {R : Type 0} → (List ℕ → Filled R) → Option (List ℕ) → Filled R
got go none = too_short
got go (some []) = too_short
got go (some (c ∷ cs)) = go (c ∷ cs)

module _ {R : Type 0} (read : ℕ → R → Option (List ℕ) × R) where
  unfoldable pub fill : ℕ → List ℕ → R → Filled R
  fill zero magic s = if leb 4 (length magic) then filled magic s else out_of_fuel
  fill (suc fuel) magic s =
      let (o, s') = read (4 - length magic) s in
      let round = got (λ chunk. fill fuel (magic ++ chunk) s') o in
      if leb 4 (length magic) then filled magic s else round

  -- Each round reads a byte or more, so four are enough.
  unfoldable pub open_reader : R → Opened R
  open_reader s = open_filled (fill 4 [] s)

-- What a read of `n` bytes does to the bytes that are left: it takes some from their front, at most `n`,
-- and none only if none are left.
pub record Takes (n : ℕ) (before after : List ℕ) (chunk : List ℕ) : Type 0 where
  pub front : before ≡ chunk ++ after
  pub at_most : length chunk ≤ n
  pub progress : chunk ≡ [] → before ≡ []

-- What a read for `n` bytes may give: an error, or bytes, which are taken from those that are left.
unfoldable pub ReadOk : {R : Type 0} → (R → List ℕ) → ℕ → R → Option (List ℕ) × R → Type 0
ReadOk content n s (none, s') = Unit {0}
ReadOk content n s (some chunk, s') = Takes n (content s) (content s') chunk

-- A reader over the bytes that are left, of which any read may fail.
unfoldable pub Reads : {R : Type 0} → (ℕ → R → Option (List ℕ) × R) → (R → List ℕ) → Type 0
Reads {R = R} read content = (n : ℕ) (s : R) → 0 < n → ReadOk content n s (read n s)

-- The outcome for an input of these bytes.
pub data Loaded {R : Type 0} (read : ℕ → R → Option (List ℕ) × R) (content : R → List ℕ)
    (whole : List ℕ) : Filled R → Type 0 where
  loaded :
      (magic : List ℕ) (s : R)
      → length magic ≡ 4
      → whole ≡ magic ++ content s
      → Loaded read content whole (filled magic s)
  short : length whole < 4 → Loaded read content whole too_short
  read_failed :
      (magic : List ℕ) (s : R)
      → length magic < 4
      → whole ≡ magic ++ content s
      → (read (4 - length magic) s).0 ≡ none
      → Loaded read content whole too_short

module _ {R : Type 0} (read : ℕ → R → Option (List ℕ) × R) (content : R → List ℕ)
    (law : Reads read content) where
  fill_more :
      (fuel : ℕ) (magic chunk : List ℕ) (s s' : R)
      → length magic < 4
      → Takes (4 - length magic) (content s) (content s') chunk
      → ((c : ℕ) (cs : List ℕ)
          → chunk ≡ c ∷ cs
          → Loaded read content
              ((magic ++ (c ∷ cs)) ++ content s')
              (fill read fuel (magic ++ (c ∷ cs)) s'))
      → Loaded read content
          (magic ++ content s)
          (got (λ x. fill read fuel (magic ++ x) s') (some chunk))
  fill_more fuel magic [] s s' h t go =
      let nothing = t.progress refl in
      short (omega (arith, length-append magic (content s), ap length nothing))
  fill_more fuel magic (c ∷ cs) s s' h t go =
      let whole : magic ++ content s ≡ (magic ++ (c ∷ cs)) ++ content s' =
        ap (λ x. magic ++ x) t.front ∙ sym (append_assoc magic (c ∷ cs) (content s')) in
      subst (λ x. Loaded read content x (fill read fuel (magic ++ c ∷ cs) s')) (sym whole)
        (go c cs refl)

  -- A round with any outcome of its read.
  fill_read :
      (fuel : ℕ) (magic : List ℕ) (s : R)
      → length magic < 4
      → (o : Option (List ℕ) × R) → read (4 - length magic) s ≡ o
      → ReadOk content (4 - length magic) s o
      → ((chunk : List ℕ) (s' : R)
          → Takes (4 - length magic) (content s) (content s') chunk
          → (c : ℕ) (cs : List ℕ) → chunk ≡ c ∷ cs
          → Loaded read content
              ((magic ++ (c ∷ cs)) ++ content s')
              (fill read fuel (magic ++ (c ∷ cs)) s'))
      → Loaded read content (magic ++ content s) (got (λ x. fill read fuel (magic ++ x) o.1) o.0)
  unfolding ReadOk
  fill_read fuel magic s few (none, s') e t go =
      read_failed magic s few refl (ap (λ (x : Option (List ℕ) × R). x.0) e)
  fill_read fuel magic s few (some chunk, s') e t go =
      fill_more fuel magic chunk s s' few t (go chunk s' t)

  fill-Loaded_from :
      (fuel : ℕ) (magic : List ℕ) (s : R)
      → length magic ≤ 4
      → 4 ≤ fuel + length magic
      → Loaded read content (magic ++ content s) (fill read fuel magic s)
  unfolding fill Reads
  fill-Loaded_from zero magic s h k =
      let full : leb 4 (length magic) ≡ true = ground arith in
      rw full (loaded magic s (omega arith) refl)
  fill-Loaded_from (suc fuel) magic s h k = elim (Bool-cases (leb 4 (length magic))) [
    | inl e ↦ let four : 4 ≤ length magic = ground arith in rw e (loaded magic s (omega arith) refl)
    | inr e ↦
        let few : length magic < 4 = ground arith in
        rw e (
          fill_read fuel magic s few (read (4 - length magic) s) refl
            (law (4 - length magic) s (omega arith))
            (λ chunk s' t c cs same.
              let longer = length-append magic (c ∷ cs) in
              let bound = t.at_most in
              let size = ap length same in
              fill-Loaded_from fuel (magic ++ (c ∷ cs)) s' (omega arith) (omega arith)))
  ]

  -- However a reader cuts its input into pieces, and whichever of its reads fails, the loop ends after at
  -- most four reads. It gives the first four bytes and leaves exactly the rest to the reader, so that the
  -- two chained are the whole input; or it says that the input is too short, and then the input has
  -- fewer than four bytes or a read behind fewer than four of its bytes failed. A read that does not
  -- fail is taken to give some of the bytes that are left, at most as many as asked for.
  pub fill-Loaded : (s : R) → Loaded read content (content s) (fill read 4 [] s)
  fill-Loaded s = fill-Loaded_from 4 [] s (omega arith) (omega arith)
