-- ===== src/Paging/Lexicographic.antt =====
-- The truth of `build_cursor_predicate`'s condition on a row, in SQL's three-valued logic.

use hyperspot.Common.{
  ◌≡◌, refl, ap, ap₂, sym, ◌∙◌, Bool, true, false, Option, none, some, List, [], ◌∷◌, ◌++◌, map,
  foldl, Str, text_key,
}
use hyperspot.Sql.Defs.{Sql, Truth, and3, or3, all3, any3}
use hyperspot.Paging.{FieldKind, CursorValue, comparison, equality, main_condition}

-- Kleene's connectives distribute.
and3_assoc : (p q r : Truth) → and3 (and3 p q) r ≡ and3 p (and3 q r)
and3_assoc (some false) q r = refl
and3_assoc (some true) q r = refl
and3_assoc none (some false) r = refl
and3_assoc none (some true) r = refl
and3_assoc none none (some false) = refl
and3_assoc none none (some true) = refl
and3_assoc none none none = refl

and3-or3 : (p q r : Truth) → or3 (and3 p q) (and3 p r) ≡ and3 p (or3 q r)
and3-or3 (some false) q r = refl
and3-or3 (some true) q r = refl
and3-or3 none (some false) r = refl
and3-or3 none (some true) (some false) = refl
and3-or3 none (some true) (some true) = refl
and3-or3 none (some true) none = refl
and3-or3 none none (some false) = refl
and3-or3 none none (some true) = refl
and3-or3 none none none = refl

and3-true : (p : Truth) → and3 p (some true) ≡ p
and3-true (some false) = refl
and3-true (some true) = refl
and3-true none = refl

and3-false : (p : Truth) → and3 p (some false) ≡ some false
and3-false (some false) = refl
and3-false (some true) = refl
and3-false none = refl

all3-append : (ps qs : List Truth) → all3 (ps ++ qs) ≡ and3 (all3 ps) (all3 qs)
all3-append [] qs = refl
all3-append (p ∷ ps) qs = ap (and3 p) (all3-append ps qs) ∙ sym (and3_assoc p (all3 ps) (all3 qs))

foldl-append :
    {A B : Type 0} (f : B → A → B) (b : B) (xs ys : List A)
    → foldl f b (xs ++ ys) ≡ foldl f (foldl f b xs) ys
foldl-append f b [] ys = refl
foldl-append f b (x ∷ xs) ys = foldl-append f (f b x) xs ys

map-append : {A B : Type 0} (f : A → B) (xs ys : List A) → map f (xs ++ ys) ≡ map f xs ++ map f ys
map-append f [] ys = refl
map-append f (x ∷ xs) ys = ap (λ l. f x ∷ l) (map-append f xs ys)

map-map :
    {A B C : Type 0} (g : B → C) (f : A → B) (xs : List A)
    → map g (map f xs) ≡ map (λ x. g (f x)) xs
map-map g f [] = refl
map-map g f (x ∷ xs) = ap (λ l. g (f x) ∷ l) (map-map g f xs)

module _ (db : Sql) (lower : Str → Str) (parse : FieldKind → Str → Option db.Val) where
  open db use {Cond, Col, Val, Row, all, any, add, eq, gt, lt, eval, eval-all, eval-any}

  abbrev Cv : Type 0
  Cv = CursorValue db lower parse

  -- The row lies past the cursor in the first field where they differ; UNKNOWN as SQL has it where a
  -- column is NULL.
  abbrev pub past : Bool → Row → Cv → Truth
  past backward r v = eval r (comparison db lower parse backward v)

  abbrev pub level : Row → Cv → Truth
  level r v = eval r (equality db lower parse v)

  abbrev pub lexicographic : Bool → Row → List Cv → Truth
  lexicographic backward r [] = some false
  lexicographic backward r (v ∷ vs) =
      or3 (past backward r v) (and3 (level r v) (lexicographic backward r vs))

  conjunct : Bool → List Cv → Cv → Cond
  conjunct backward done v =
      add (foldl add all (map (equality db lower parse) done))
        (comparison db lower parse backward v)

  disjuncts : Bool → List Cv → List Cv → List Cond
  disjuncts backward done [] = []
  disjuncts backward done (v ∷ vs) =
      conjunct backward done v ∷ disjuncts backward (done ++ v ∷ []) vs

  main_condition-disjuncts :
      (backward : Bool) (main : Cond) (done vs : List Cv)
      → main_condition db lower parse backward main done vs
        ≡ foldl add main (disjuncts backward done vs)
  unfolding main_condition disjuncts conjunct
  main_condition-disjuncts backward main done [] = refl
  main_condition-disjuncts backward main done (v ∷ vs) =
      main_condition-disjuncts backward (add main (conjunct backward done v)) (done ++ v ∷ []) vs

  eval-conjunct :
      (backward : Bool) (r : Row) (done : List Cv) (v : Cv)
      → eval r (conjunct backward done v) ≡ and3 (all3 (map (level r) done)) (past backward r v)
  unfolding conjunct
  eval-conjunct backward r done v =
      let es = map (equality db lower parse) done in
      let c = comparison db lower parse backward v in
      ap (eval r) (sym (foldl-append add all es (c ∷ [])))
      ∙ eval-all r (es ++ c ∷ [])
      ∙ ap all3 (map-append (eval r) es (c ∷ []))
      ∙ all3-append (map (eval r) es) (eval r c ∷ [])
      ∙ ap₂ and3 (ap all3 (map-map (eval r) (equality db lower parse) done)) (and3-true (eval r c))

  any3-disjuncts :
      (backward : Bool) (r : Row) (done vs : List Cv)
      → any3 (map (eval r) (disjuncts backward done vs))
        ≡ and3 (all3 (map (level r) done)) (lexicographic backward r vs)
  unfolding disjuncts
  any3-disjuncts backward r done [] = sym (and3-false (all3 (map (level r) done)))
  any3-disjuncts backward r done (v ∷ vs) =
      let before = all3 (map (level r) done) in
      let rest = lexicographic backward r vs in
      let grown : all3 (map (level r) (done ++ v ∷ [])) ≡ and3 before (level r v) =
        ap all3 (map-append (level r) done (v ∷ []))
        ∙ all3-append (map (level r) done) (level r v ∷ [])
        ∙ ap (and3 before) (and3-true (level r v)) in
      ap₂ or3 (eval-conjunct backward r done v) (
        any3-disjuncts backward r (done ++ v ∷ []) vs
        ∙ ap (λ g. and3 g rest) grown
        ∙ and3_assoc before (level r v) rest)
      ∙ and3-or3 before (past backward r v) (and3 (level r v) rest)

  -- The condition of the second loop is TRUE, FALSE or UNKNOWN on a row as the lexicographic
  -- comparison of the row with the cursor is.
  pub main_condition-lexicographic :
      (backward : Bool) (r : Row) (vs : List Cv)
      → eval r (main_condition db lower parse backward any [] vs) ≡ lexicographic backward r vs
  main_condition-lexicographic backward r vs =
      ap (eval r) (main_condition-disjuncts backward any [] vs)
      ∙ eval-any r (disjuncts backward [] vs)
      ∙ any3-disjuncts backward r [] vs
