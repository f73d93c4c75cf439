-- ===== src/Paging/Limits.antt =====
-- The bounds of the limit and the size of a page.
use Prim.Native.Nat.{min, max}
use hyperspot.Common.{
  ℕ, zero, suc, ◌+◌, ◌≤◌, ◌≡◌, refl, sym, ap, ap₂, Bool, Option, none, some, List, [], ◌∷◌, length,
  if◌then◌else◌, ltb, nat_beq, arith, Bool-cases, inl, inr,
}
use hyperspot.Paging.{LimitCfg, clamp_limit, pop, truncate, reversed, page_rows}

-- The limit that is used is between 1 and the configured maximum, is the requested one where that
-- already lies between them, and is the maximum where the request exceeds it. The condition: the
-- maximum is not 0.
clamp_limit_bounds :
    (cfg : LimitCfg) (n : ℕ)
    → 1 ≤ cfg.max
    → ((req : Option ℕ) → (1 ≤ clamp_limit req cfg) × (clamp_limit req cfg ≤ cfg.max))
      × (clamp_limit (some n) cfg ≡ min (max 1 n) cfg.max)
unfolding clamp_limit
clamp_limit_bounds cfg n pos = (
  elim [ none ↦ (ground arith, ground arith) | some r ↦ (ground arith, ground arith) ],
  ground arith,
)

truncate-all : {A : Type 0} (n : ℕ) (xs : List A) → length xs ≤ n → truncate n xs ≡ xs
truncate-all zero [] h = refl
truncate-all zero (x ∷ xs) h = absurd (omega arith)
truncate-all (suc n) [] h = refl
truncate-all (suc n) (x ∷ xs) h = ap (λ l. x ∷ l) (truncate-all n xs (omega arith))

truncate-pop : {A : Type 0} (n : ℕ) (xs : List A) → length xs ≡ n + 1 → pop xs ≡ truncate n xs
truncate-pop zero [] h = refl
truncate-pop zero (x ∷ []) h = refl
truncate-pop zero (x ∷ y ∷ xs) h = absurd (omega (arith, h))
truncate-pop (suc n) [] h = refl
truncate-pop (suc n) (x ∷ []) h = absurd (omega (arith, h))
truncate-pop (suc n) (x ∷ y ∷ xs) h = ap (λ l. x ∷ l) (truncate-pop n (y ∷ xs) (omega (arith, h)))

-- A page shows the first `limit` of the rows that were fetched, in the fetched order going forward and
-- reversed going backward, and it has more exactly when limit + 1 rows came. The condition: no more
-- than limit + 1 rows were fetched, as the statement's LIMIT says.
pub page_rows_lem :
    {A : Type 0} (backward : Bool) (limit : ℕ) (rows : List A)
    → length rows ≤ limit + 1
    → page_rows backward limit rows ≡ (
      (if backward then reversed (truncate limit rows) else truncate limit rows),
      nat_beq (length rows) (limit + 1),
    )
unfolding page_rows
page_rows_lem backward limit rows le = elim (Bool-cases (ltb limit (length rows))) [
  | inl e ↦
      rw (e, page_rows)
        (ap₂ (λ p b. ((if backward then reversed p else truncate limit rows), b))
          (truncate-pop limit rows (ground arith)) (ground arith))
  | inr e ↦
      rw (e, page_rows)
        (ap₂ (λ p b. ((if backward then reversed p else p), b))
          (sym (truncate-all limit rows (ground arith))) (ground arith))
]
