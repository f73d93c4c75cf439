-- ===== src/Filter/Connectives.antt =====
-- Conditions that say what a filter says, through and, or and not.

use hyperspot.Common.{◌≡◌, refl, sym, ap, ap₂, ◌∙◌, Bool, true, false, ◌&&◌, [], ◌∷◌, text_key}
use hyperspot.Sql.{Sql, Truth, and3, or3, not3}
use hyperspot.Sql.Toy.{and3-true, or3-false}
use hyperspot.Paging.{ok, err, ◌>>=◌}
use hyperspot.Common.Results.{Result, ok, err, ◌>>=◌}

module _ (db : Sql) where
  open db use {Cond, Row, add, eval}

  -- A condition that says of every row what the filter says, or an error where it is not supported.
  abbrev pub Means : {E : Type 0} → Bool → (Row → Truth) → Result E Cond → Type 0
  Means good says (ok c) = (good ≡ true) × ((r : Row) → eval r c ≡ says r)
  Means good says (err e) = good ≡ false

  pub Means-and :
      {E : Type 0} (p q : Bool) (s t : Row → Truth) (x y : Result E Cond)
      → Means p s x
      → Means q t y
      → Means (p && q) (λ r. and3 (s r) (t r)) (x >>= λ c. y >>= λ d. ok (add (add db.all c) d))
  Means-and p q s t (ok c) (ok d) (g, h) (g', h') = (
    rw (g, g') refl,
    λ r. db.eval-all r (c ∷ d ∷ []) ∙ ap₂ and3 (h r) (and3-true (eval r d) ∙ h' r),
  )
  Means-and p q s t (err e) y g h = rw g refl
  Means-and true q s t (ok c) (err e) (g, h) g' = g'
  Means-and false q s t (ok c) (err e) (g, h) g' = refl

  pub Means-or :
      {E : Type 0} (p q : Bool) (s t : Row → Truth) (x y : Result E Cond)
      → Means p s x
      → Means q t y
      → Means (p && q) (λ r. or3 (s r) (t r)) (x >>= λ c. y >>= λ d. ok (add (add db.any c) d))
  Means-or p q s t (ok c) (ok d) (g, h) (g', h') = (
    rw (g, g') refl,
    λ r. db.eval-any r (c ∷ d ∷ []) ∙ ap₂ or3 (h r) (or3-false (eval r d) ∙ h' r),
  )
  Means-or p q s t (err e) y g h = rw g refl
  Means-or true q s t (ok c) (err e) (g, h) g' = g'
  Means-or false q s t (ok c) (err e) (g, h) g' = refl

  pub Means-not :
      {E : Type 0} (p : Bool) (s : Row → Truth) (x : Result E Cond)
      → Means p s x
      → Means p (λ r. not3 (s r)) (x >>= λ c. ok (db.negate (add db.all c)))
  Means-not p s (ok c) (g, h) = (g, λ r. db.eval-not r c ∙ ap not3 (h r))
  Means-not p s (err e) g = g

  -- One test under `Condition::all()`.
  pub eval-single : (r : Row) (c : Cond) → eval r (add db.all c) ≡ eval r c
  eval-single r c = db.eval-all r (c ∷ []) ∙ and3-true (eval r c)

  pub Means-ok :
      {E : Type 0} (good : Bool) (says : Row → Truth) (x : Result E Cond) (c : Cond)
      → Means good says x
      → x ≡ ok c
      → (good ≡ true) × ((r : Row) → eval r c ≡ says r)
  Means-ok good says (ok d) c (g, h) e =
      let same : d ≡ c = ap (λ y. elim y [ ok b ↦ b | err z ↦ d ]) e in
      (g, λ r. ap (eval r) (sym same) ∙ h r)
  Means-ok good says (err z) c g e = cc

  pub Means-good :
      {E : Type 0} (good : Bool) (says : Row → Truth) (x : Result E Cond)
      → Means good says x
      → good ≡ true
      → (c : Cond) × (x ≡ ok c) × ((r : Row) → eval r c ≡ says r)
  Means-good good says (ok d) (g, h) e = (d, refl, h)
  Means-good good says (err z) g e = cc
