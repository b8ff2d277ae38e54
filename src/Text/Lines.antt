-- ===== src/Text/Lines.antt =====
-- Texts of lines, as a reader of newline-delimited documents splits them.
use tlscap.Prelude.{
  ℕ, suc, ◌+◌, ◌≡◌, refl, ap, ◌∙◌, subst, List, [], ◌∷◌, ◌++◌, append_assoc, arith,
}
use tlscap.Text.{Plain}

abbrev pub line_feed : ℕ
line_feed = 10

-- That many lines: each without a control character, so without a line break, and ended by a line
-- feed.
pub data IsLines : ℕ → List ℕ → Type 0 where
  end : IsLines 0 []
  line :
      (n : ℕ) (body rest text : List ℕ)
      → Plain body
      → IsLines n rest
      → text ≡ body ++ line_feed ∷ rest
      → IsLines (suc n) text

pub IsLines-append :
    (m n : ℕ) (xs ys : List ℕ) → IsLines m xs → IsLines n ys → IsLines (m + n) (xs ++ ys)
IsLines-append _ n _ ys end q = subst (λ k. IsLines k ys) (omega arith) q
IsLines-append _ n _ ys (line m body rest text p r e) q =
    let joined =
      line (m + n) body (rest ++ ys) (text ++ ys) p (IsLines-append m n rest ys r q)
        (ap (λ (t : List ℕ). t ++ ys) e ∙ append_assoc body (line_feed ∷ rest) ys) in
    subst (λ k. IsLines k (text ++ ys)) (omega arith) joined

-- One line.
pub one_line : (body : List ℕ) → Plain body → IsLines 1 (body ++ line_feed ∷ [])
one_line body p = line 0 body [] (body ++ line_feed ∷ []) p end refl
