-- ===== src/Pagination/Shown.antt =====
-- What is shown of the fetched rows.
use hyperspot.Common.{
  ℕ, zero, suc, ◌+◌, ◌≤◌, ◌≡◌, refl, ap, ap₂, subst, ◌∙◌, Bool, List, [], ◌∷◌, length, ltb, nat_beq,
  if◌then◌else◌, arith,
}
use hyperspot.Paging.{truncate, reversed, page_rows}
use hyperspot.Paging.Limits.{page_rows_lem}

length-truncate : {A : Type 0} (n : ℕ) (xs : List A) → length (truncate n xs) ≤ n
length-truncate zero xs = omega arith
length-truncate (suc n) [] = omega arith
length-truncate (suc n) (x ∷ xs) = let rest = length-truncate n xs in omega (arith, rest)

truncate-truncate :
    {A : Type 0} (n : ℕ) (xs : List A) → truncate n (truncate (suc n) xs) ≡ truncate n xs
truncate-truncate zero xs = refl
truncate-truncate (suc n) [] = refl
truncate-truncate (suc n) (x ∷ xs) = ap (λ l. x ∷ l) (truncate-truncate n xs)

length-truncate-ltb :
    {A : Type 0} (n : ℕ) (xs : List A)
    → nat_beq (length (truncate (suc n) xs)) (n + 1) ≡ ltb n (length xs)
length-truncate-ltb n [] = ground arith
length-truncate-ltb zero (x ∷ xs) = ground arith
length-truncate-ltb (suc n) (x ∷ xs) = let rest = length-truncate-ltb n xs in ground (arith, rest)

abbrev pub display {ℓ} : {A : Type ℓ} → Bool → List A → List A
display backward rows = if backward then reversed rows else rows

-- Of rows in the statement's order, the first `limit` are shown, in the order of display, and there are
-- more if any row is left.
pub page_rows-truncate :
    {A : Type 0} (backward : Bool) (limit : ℕ) (sorted : List A)
    → page_rows backward limit (truncate (limit + 1) sorted)
      ≡ (display backward (truncate limit sorted), ltb limit (length sorted))
page_rows-truncate backward limit sorted =
    let fetched = truncate (suc limit) sorted in
    let one_more : suc limit ≡ limit + 1 = omega arith in
    let bounded = length-truncate (suc limit) sorted in
    subst
      (λ n.
        page_rows backward limit (truncate n sorted)
        ≡ (display backward (truncate limit sorted), ltb limit (length sorted)))
      one_more
      (page_rows_lem backward limit fetched (omega (arith, bounded))
        ∙ ap₂ (λ rows more. (display backward rows, more)) (truncate-truncate limit sorted)
            (length-truncate-ltb limit sorted))
