-- ===== src/Sql/Defs.antt =====
-- The interface, and SQL's connectives: `none` is the truth value UNKNOWN.
use mathlib.Core.Option
use hyperspot.Common.{
  ℕ, ◌≡◌, refl, Bool, true, false, not, Option, none, some, List, [], ◌∷◌, map, foldl, ◌&&◌, ◌||◌,
  length, filter, nat_beq, if◌then◌else◌, arith,
}

abbrev pub Truth : Type 0
Truth = Option Bool

-- FALSE decides a conjunction, TRUE a disjunction, and UNKNOWN spreads otherwise.
abbrev pub and3 : Truth → Truth → Truth
and3 (some false) q = some false
and3 (some true) q = q
and3 none (some false) = some false
and3 none (some true) = none
and3 none none = none

abbrev pub or3 : Truth → Truth → Truth
or3 (some true) q = some true
or3 (some false) q = q
or3 none (some true) = some true
or3 none (some false) = none
or3 none none = none

abbrev pub not3 : Truth → Truth
not3 p = Option.map not p

abbrev pub all3 : List Truth → Truth
all3 [] = some true
all3 (p ∷ ps) = and3 p (all3 ps)

abbrev pub any3 : List Truth → Truth
any3 [] = some false
any3 (p ∷ ps) = or3 p (any3 ps)

-- A WHERE clause takes a row on TRUE alone.
abbrev pub is_true : Truth → Bool
is_true none = false
is_true (some b) = b

abbrev pub is_some {ℓ} : {A : Type ℓ} → Option A → Bool
is_some none = false
is_some (some a) = true

pub record Sql : Type 1 where
  pub Cond : Type 0
  pub Col : Type 0
  pub Val : Type 0
  pub Row : Type 0
  pub Select : Type 0
  -- `Condition::all()`, `Condition::any()`, `.add(..)`, `.not()` and `Expr::value(b)`.
  pub all : Cond
  pub any : Cond
  pub add : Cond → Cond → Cond
  pub negate : Cond → Cond
  pub value : Bool → Cond
  -- `Expr::col(c).eq(v)` and the like.
  pub eq : Col → Val → Cond
  pub ne : Col → Val → Cond
  pub gt : Col → Val → Cond
  pub gte : Col → Val → Cond
  pub lt : Col → Val → Cond
  pub lte : Col → Val → Cond
  pub is_in : Col → List Val → Cond
  pub is_null : Col → Cond
  pub is_not_null : Col → Cond
  pub uuid : ℕ → Val
  -- A column's value in a row, `none` for NULL; how values compare; what a condition says of a row.
  pub get : Row → Col → Option Val
  pub same : Val → Val → Bool
  pub less : Val → Val → Bool
  pub eval : Row → Cond → Truth
  -- `E::find()`, `QueryFilter::filter`, and the two statements, which fail with a `DbErr`.
  pub find : Select
  pub restrict : Select → Cond → Select
  pub takes : Select → Row → Bool
  pub fetch : List Row → Select → Option (List Row)
  pub delete : List Row → Select → Option (List Row × ℕ)
  pub eval-all : (r : Row) (cs : List Cond) → eval r (foldl add all cs) ≡ all3 (map (eval r) cs)
  pub eval-any : (r : Row) (cs : List Cond) → eval r (foldl add any cs) ≡ any3 (map (eval r) cs)
  pub eval-not : (r : Row) (c : Cond) → eval r (negate (add all c)) ≡ not3 (eval r c)
  pub eval-value : (r : Row) (b : Bool) → eval r (value b) ≡ some b
  pub eval-eq :
      (r : Row) (c : Col) (v : Val) → eval r (eq c v) ≡ Option.map (λ x. same x v) (get r c)
  pub eval-ne :
      (r : Row) (c : Col) (v : Val) → eval r (ne c v) ≡ Option.map (λ x. not (same x v)) (get r c)
  pub eval-gt :
      (r : Row) (c : Col) (v : Val) → eval r (gt c v) ≡ Option.map (λ x. less v x) (get r c)
  pub eval-gte :
      (r : Row) (c : Col) (v : Val) → eval r (gte c v) ≡ Option.map (λ x. not (less x v)) (get r c)
  pub eval-lt :
      (r : Row) (c : Col) (v : Val) → eval r (lt c v) ≡ Option.map (λ x. less x v) (get r c)
  pub eval-lte :
      (r : Row) (c : Col) (v : Val) → eval r (lte c v) ≡ Option.map (λ x. not (less v x)) (get r c)
  pub eval-is_in :
      (r : Row) (c : Col) (v : Val) (vs : List Val)
      → eval r (is_in c (v ∷ vs))
        ≡ Option.map (λ x. hyperspot.Common.any (same x) (v ∷ vs)) (get r c)
  pub eval-is_null : (r : Row) (c : Col) → eval r (is_null c) ≡ some (not (is_some (get r c)))
  pub eval-is_not_null : (r : Row) (c : Col) → eval r (is_not_null c) ≡ some (is_some (get r c))
  pub same-uuid : (a b : ℕ) → same (uuid a) (uuid b) ≡ nat_beq a b
  pub takes-find : (r : Row) → takes find r ≡ true
  pub takes-restrict :
      (s : Select) (c : Cond) (r : Row) → takes (restrict s c) r ≡ (takes s r && is_true (eval r c))
  pub fetch-rows :
      (t : List Row) (s : Select) {rs : List Row} → fetch t s ≡ some rs → rs ≡ filter (takes s) t
  pub delete-rows :
      (t : List Row) (s : Select) {t' : List Row} {n : ℕ}
      → delete t s ≡ some (t', n)
      → (t' ≡ filter (λ r. not (takes s r)) t) × (n ≡ length (filter (takes s) t))
