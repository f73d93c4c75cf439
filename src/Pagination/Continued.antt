-- ===== src/Pagination/Continued.antt =====
-- From one page to the next: no row is lost between them, and none is shown twice.
use mathlib.Core.Logic.{∥∥₁_map}
use mathlib.Core.List.{Perm, Permᴰ}
use mathlib.Core.List
use hyperspot.Common.{
  ℕ, zero, suc, ◌≡◌, refl, ap, Bool, true, false, ◌&&◌, ◌||◌, List, [], ◌∷◌, ◌++◌, filter, All,
  text_key, if◌then◌else◌, arith,
}
use hyperspot.Sql.{Sql, is_true}
use hyperspot.Odata.{SortDir}
use hyperspot.Paging.{truncate}
use hyperspot.Paging.Pages.{beyond}
use hyperspot.Pagination.Select.{InOrder}

keep-cons :
    {A : Type 0} {a a' : A} {xs ys : List A} (b b' : Bool)
    → b ≡ b'
    → a ≡ a'
    → Permᴰ xs ys
    → Permᴰ (if b then a ∷ xs else xs) (if b' then a' ∷ ys else ys)
keep-cons true true e same d = Permᴰ.cons same d
keep-cons false false e same d = d
keep-cons true false e same d = cc
keep-cons false true e same d = cc

keep-swap :
    {A : Type 0} {a a' b b' : A} {l : List A} (p p' q q' : Bool)
    → p ≡ p'
    → q ≡ q'
    → a ≡ a'
    → b ≡ b'
    → Permᴰ l l
    → Permᴰ
        (if p then a ∷ (if q then b ∷ l else l) else (if q then b ∷ l else l))
        (if q' then b' ∷ (if p' then a' ∷ l else l) else (if p' then a' ∷ l else l))
keep-swap true true true true e e' same same' d = Permᴰ.swap same same'
keep-swap true true false false e e' same same' d = Permᴰ.cons same d
keep-swap false false true true e e' same same' d = Permᴰ.cons same' d
keep-swap false false false false e e' same same' d = d
keep-swap true false q q' e e' same same' d = cc
keep-swap false true q q' e e' same same' d = cc
keep-swap true true true false e e' same same' d = cc
keep-swap true true false true e e' same same' d = cc
keep-swap false false true false e e' same same' d = cc
keep-swap false false false true e e' same same' d = cc

filter-Permᴰ :
    {A : Type 0} (p : A → Bool) {xs ys : List A} → Permᴰ xs ys → Permᴰ (filter p xs) (filter p ys)
filter-Permᴰ p Permᴰ.nil = Permᴰ.nil
filter-Permᴰ p (Permᴰ.cons e d) = keep-cons _ _ (ap p e) e (filter-Permᴰ p d)
filter-Permᴰ p (Permᴰ.swap {l = l} e e') =
    keep-swap _ _ _ _ (ap p e) (ap p e') e e' (List.Permᴰ.refl (filter p l))
filter-Permᴰ p (Permᴰ.trans d d') = Permᴰ.trans (filter-Permᴰ p d) (filter-Permᴰ p d')

pub filter-Perm :
    {A : Type 0} (p : A → Bool) {xs ys : List A} → Perm xs ys → Perm (filter p xs) (filter p ys)
filter-Perm p {xs} {ys} h = ∥∥₁_map {B = Permᴰ (filter p xs) (filter p ys)} h (filter-Permᴰ p)

pub filter-filter :
    {A : Type 0} (p q : A → Bool) (xs : List A)
    → filter (λ x. p x && q x) xs ≡ filter q (filter p xs)
filter-filter p q [] = refl
filter-filter p q (x ∷ xs) = let rest = filter-filter p q xs in ground (arith, rest)

filter-All : {A : Type 0} (p : A → Bool) (xs : List A) → All (λ x. p x ≡ true) xs → filter p xs ≡ xs
filter-All p [] h = refl
filter-All p (x ∷ xs) h = rw (h.0, filter-All p xs h.1) refl

All-middle :
    {A : Type 0} (P : A → Type 0) (xs : List A) (x : A) (ys : List A) → All P (xs ++ x ∷ ys) → P x
All-middle P [] x ys h = h.0
All-middle P (y ∷ xs) x ys h = All-middle P xs x ys h.1

pub truncate-rest :
    {A : Type 0} (n : ℕ) (xs : List A) → (rest : List A) × (xs ≡ truncate n xs ++ rest)
truncate-rest zero xs = (xs, refl)
truncate-rest (suc n) [] = ([], refl)
truncate-rest (suc n) (x ∷ xs) = let (rest, e) = truncate-rest n xs in (rest, ap (λ l. x ∷ l) e)

module _ (db : Sql) where
  open db use {Col, Row}

  -- The order tells the rows of the list apart.
  abbrev pub Apart : List (Col × SortDir) → List Row → Type 0
  Apart keys [] = Unit
  Apart keys (r ∷ rs) =
      All
        (λ later.
          (is_true (beyond db false later r keys) || is_true (beyond db false r later keys)) ≡ true)
        rs
      × Apart keys rs

  later-beyond :
      (keys : List (Col × SortDir)) (x : Row) (rs : List Row)
      → All (λ later. is_true (beyond db false x later keys) ≡ false) rs
      → All
          (λ later.
            (is_true (beyond db false later x keys) || is_true (beyond db false x later keys))
            ≡ true)
          rs
      → All (λ later. is_true (beyond db false later x keys) ≡ true) rs
  later-beyond keys x [] before apart = tt
  later-beyond keys x (r ∷ rs) before apart =
      let first = before.0 in
      let told = apart.0 in (ground (arith, first, told), later-beyond keys x rs before.1 apart.1)

  -- Of a list in order, the rows beyond one of them are those after it.
  pub filter-beyond :
      (keys : List (Col × SortDir)) (xs : List Row) (x : Row) (rs : List Row)
      → InOrder db keys (xs ++ x ∷ rs)
      → Apart keys (xs ++ x ∷ rs)
      → is_true (beyond db false x x keys) ≡ false
      → filter (λ r. is_true (beyond db false r x keys)) (xs ++ x ∷ rs) ≡ rs
  filter-beyond keys [] x rs ordered apart self =
      rw
        (
          self,
          filter-All (λ r. is_true (beyond db false r x keys)) rs
              (later-beyond keys x rs ordered.0 apart.0),
        )
        refl
  filter-beyond keys (y ∷ xs) x rs ordered apart self =
      let gone : is_true (beyond db false y x keys) ≡ false =
        All-middle (λ later. is_true (beyond db false y later keys) ≡ false) xs x rs ordered.0 in
      rw gone (filter-beyond keys xs x rs ordered.1 apart.1 self)
