-- ===== src/Sql/Toy.antt =====
-- A value of the interface: a condition is a list of tests under a connective, a row a list of
-- optional numbers, and every statement succeeds.
use mathlib.Core.Option
use hyperspot.Common.{
  ℕ, ◌≡◌, refl, ap, ◌∙◌, Bool, true, false, not, Option, none, some, List, [], ◌∷◌, ◌++◌, map,
  foldl, ◌&&◌, length, filter, nat_beq, ltb, get_elem?, any, arith,
}
use mathlib.Core.List.{append_assoc, append-nil}
use hyperspot.Sql.Defs.{Sql, Truth, and3, or3, not3, all3, any3, is_true, is_some}

abbrev pub Row : Type 0
Row = List (Option ℕ)

pub record Cond : Type 0 where
  pub is_any : Bool
  pub negated : Bool
  pub parts : List (Row → Truth)

abbrev pub cell : Row → ℕ → Option ℕ
cell r c = elim (get_elem? r c) [ none ↦ none | some v ↦ v ]

abbrev pub answers : List (Row → Truth) → Row → List Truth
answers [] r = []
answers (p ∷ ps) r = p r ∷ answers ps r

abbrev pub connect : Bool → List Truth → Truth
connect true ts = any3 ts
connect false ts = all3 ts

abbrev pub negate_if : Bool → Truth → Truth
negate_if true t = not3 t
negate_if false t = t

abbrev pub eval : Row → Cond → Truth
eval r c = negate_if c.negated (connect c.is_any (answers c.parts r))

abbrev pub all : Cond
all = record { is_any = false; negated = false; parts = [] }

abbrev pub any_of : Cond
any_of = record { is_any = true; negated = false; parts = [] }

abbrev pub add : Cond → Cond → Cond
add c d = record c { parts = c.parts ++ (λ r. eval r d) ∷ [] }

abbrev pub test : (Row → Truth) → Cond
test p = record { is_any = false; negated = false; parts = p ∷ [] }

pub and3-true : (t : Truth) → and3 t (some true) ≡ t
and3-true none = refl
and3-true (some true) = refl
and3-true (some false) = refl

pub or3-false : (t : Truth) → or3 t (some false) ≡ t
or3-false none = refl
or3-false (some true) = refl
or3-false (some false) = refl

answers-append :
    (ps qs : List (Row → Truth)) (r : Row) → answers (ps ++ qs) r ≡ answers ps r ++ answers qs r
answers-append [] qs r = refl
answers-append (p ∷ ps) qs r = ap (λ ts. p r ∷ ts) (answers-append ps qs r)

-- What a chain of `add` leaves.
pub foldl-add :
    (cs : List Cond) (c : Cond) (r : Row)
    → eval r (foldl add c cs)
      ≡ negate_if c.negated (connect c.is_any (answers c.parts r ++ map (eval r) cs))
foldl-add [] c r = rw append-nil
foldl-add (d ∷ cs) c r =
    foldl-add cs (add c d) r
    ∙ ap (λ ts. negate_if c.negated (connect c.is_any ts))
        (rw (answers-append c.parts ((λ q. eval q d) ∷ []) r)
          (append_assoc (answers c.parts r) (eval r d ∷ []) (map (eval r) cs)))

abbrev pub takes : List Cond → Row → Bool
takes [] r = true
takes (c ∷ cs) r = takes cs r && is_true (eval r c)

pub fetch-filter :
    (t : List Row) (s : List Cond) {rs : List Row}
    → some (filter (takes s) t) ≡ some rs
    → rs ≡ filter (takes s) t
fetch-filter t s e = cc

pub delete-filter :
    (t : List Row) (s : List Cond) {t' : List Row} {n : ℕ}
    → ◌≡◌ {A = Option (List Row × ℕ)}
        (some (filter (λ r. not (takes s r)) t, length (filter (takes s) t)))
        (some (t', n))
    → (t' ≡ filter (λ r. not (takes s r)) t) × (n ≡ length (filter (takes s) t))
delete-filter t s e = ground arith

abbrev pub toy : Sql
toy = record {
  Cond = Cond;
  Col = ℕ;
  Val = ℕ;
  Row = Row;
  Select = List Cond;
  all = all;
  any = any_of;
  add = add;
  negate = λ c. record c { negated = not c.negated };
  value = λ b. test (λ r. some b);
  eq = λ c v. test (λ r. Option.map (λ x. nat_beq x v) (cell r c));
  ne = λ c v. test (λ r. Option.map (λ x. not (nat_beq x v)) (cell r c));
  gt = λ c v. test (λ r. Option.map (λ x. ltb v x) (cell r c));
  gte = λ c v. test (λ r. Option.map (λ x. not (ltb x v)) (cell r c));
  lt = λ c v. test (λ r. Option.map (λ x. ltb x v) (cell r c));
  lte = λ c v. test (λ r. Option.map (λ x. not (ltb v x)) (cell r c));
  is_in = λ c vs. test (λ r. Option.map (λ x. any (nat_beq x) vs) (cell r c));
  is_null = λ c. test (λ r. some (not (is_some (cell r c))));
  is_not_null = λ c. test (λ r. some (is_some (cell r c)));
  uuid = λ n. n;
  get = cell;
  same = nat_beq;
  less = ltb;
  eval = eval;
  find = [];
  restrict = λ s c. c ∷ s;
  takes = takes;
  fetch = λ t s. some (filter (takes s) t);
  delete = λ t s. some (filter (λ r. not (takes s r)) t, length (filter (takes s) t));
  eval-all = λ r cs. foldl-add cs all r;
  eval-any = λ r cs. foldl-add cs any_of r;
  eval-not = λ r c. ap not3 (and3-true (eval r c));
  eval-value = λ r b. and3-true _;
  eval-eq = λ r c v. and3-true _;
  eval-ne = λ r c v. and3-true _;
  eval-gt = λ r c v. and3-true _;
  eval-gte = λ r c v. and3-true _;
  eval-lt = λ r c v. and3-true _;
  eval-lte = λ r c v. and3-true _;
  eval-is_in = λ r c v vs. and3-true _;
  eval-is_null = λ r c. and3-true _;
  eval-is_not_null = λ r c. and3-true _;
  same-uuid = λ a b. refl;
  takes-find = λ r. refl;
  takes-restrict = λ s c r. refl;
  fetch-rows = fetch-filter;
  delete-rows = delete-filter;
}
