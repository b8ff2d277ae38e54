-- ===== src/Reassembly/Carries.antt =====
-- Bytes, segments and sessions of src/reassembly.rs that carry a given byte stream.
use tlscap.Prelude.{
  ℕ, zero, suc, ◌+◌, ◌<◌, ◌≡◌, refl, List, [], ◌∷◌, ◌++◌, arith, length, take, drop, subst, ap₂,
}
use tlscap.Reassembly.{Segment, trimmed}
use tlscap.Reassembly.Placed.{Laid}
use tlscap.Reassembly.Taking.{contents}

module _ (stream : ℕ → ℕ) where
  -- The bytes are those of the stream from offset `o` on.
  abbrev pub Carries : ℕ → List ℕ → Type 0
  Carries o [] = Unit {0}
  Carries o (b ∷ bs) = (b ≡ stream o) × Carries (suc o) bs

  abbrev pub CarriesSegment : ℕ → Segment → Type 0
  CarriesSegment o seg = Carries o seg.bytes

  pub drop-Carries : (n o : ℕ) (bs : List ℕ) → Carries o bs → Carries (o + n) (drop n bs)
  drop-Carries zero o bs h = subst (λ k. Carries k bs) (omega arith) h
  drop-Carries (suc n) o [] h = tt
  drop-Carries (suc n) o (b ∷ bs) h =
      subst (λ k. Carries k (drop n bs)) (omega arith) (drop-Carries n (suc o) bs h.1)

  pub take-Carries : (n o : ℕ) (bs : List ℕ) → Carries o bs → Carries o (take n bs)
  take-Carries zero o bs h = tt
  take-Carries (suc n) o [] h = tt
  take-Carries (suc n) o (b ∷ bs) h = (h.0, take-Carries n (suc o) bs h.1)

  pub append-Carries :
      (o : ℕ) (xs ys : List ℕ) → Carries o xs → Carries (o + length xs) ys → Carries o (xs ++ ys)
  append-Carries o [] ys h k = subst (λ m. Carries m ys) (omega arith) k
  append-Carries o (x ∷ xs) ys h k =
      (h.0, append-Carries (suc o) xs ys h.1 (subst (λ m. Carries m ys) (omega arith) k))

  pub trimmed-Carries :
      (k n : ℕ) (seg : Segment)
      → CarriesSegment k seg
      → n < length seg.bytes
      → CarriesSegment (k + n) (trimmed n seg)
  unfolding trimmed
  trimmed-Carries k n seg h lt = drop-Carries n k seg.bytes h

  pub Laid-Carries :
      (o : ℕ) (segs : List Segment) → Laid CarriesSegment o segs → Carries o (contents segs)
  Laid-Carries o [] h = tt
  Laid-Carries o (seg ∷ segs) h =
      append-Carries o seg.bytes (contents segs) h.0 (Laid-Carries (o + length seg.bytes) segs h.1)

  pub split-Carries :
      (o : ℕ) (xs ys : List ℕ) → Carries o (xs ++ ys) → Carries o xs × Carries (o + length xs) ys
  split-Carries o [] ys h = (tt, subst (λ m. Carries m ys) (omega arith) h)
  split-Carries o (x ∷ xs) ys h =
      let (a, b) = split-Carries (suc o) xs ys h.1 in
      ((h.0, a), subst (λ m. Carries m ys) (omega arith) b)

  pub Carries-Laid :
      (o : ℕ) (segs : List Segment) → Carries o (contents segs) → Laid CarriesSegment o segs
  Carries-Laid o [] h = tt
  Carries-Laid o (seg ∷ segs) h =
      let (a, b) = split-Carries o seg.bytes (contents segs) h in
      (a, Carries-Laid (o + length seg.bytes) segs b)

  -- The stream's bytes from `o` on.
  abbrev pub from_offset : ℕ → ℕ → List ℕ
  from_offset o zero = []
  from_offset o (suc n) = stream o ∷ from_offset (suc o) n

  pub Carries-from_offset : (o : ℕ) (bs : List ℕ) → Carries o bs → bs ≡ from_offset o (length bs)
  Carries-from_offset o [] h = refl
  Carries-from_offset o (b ∷ bs) h = ap₂ ◌∷◌ h.0 (Carries-from_offset (suc o) bs h.1)
