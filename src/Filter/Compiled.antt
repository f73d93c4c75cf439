-- ===== src/Filter/Compiled.antt =====
-- expr_to_condition of core.rs answers with a condition that says what the filter says.
use mathlib.Core.Option
use hyperspot.Common.{
  ◌≡◌, refl, ap, ◌∙◌, Bool, true, false, Option, none, some, List, [], ◌∷◌, Str, text_key, ◌==◌,
  if◌then◌else◌,
}
use mathlib.Core.Path.{fun_ext}
use hyperspot.Sql.{Sql, Truth}
use hyperspot.Odata.Ast.{
  Literals, Value, CompareOperator, ne, gt, ge, lt, le, Expr, Exprs, none_left, more, and_expr,
  or_expr, not_expr, compare_expr, in_expr, function_expr, identifier, value,
}
use hyperspot.Odata.Ast
use hyperspot.Paging.{
  FieldKind, Field, FieldMap, get, BuildError, unsupported_fn, BuildResult, ok, err, ok_or, ◌>>=◌,
}
use hyperspot.Filter.Like
use hyperspot.Filter.Like.{like_contains, like_starts, like_ends}
use hyperspot.Filter.Patterns.{
  starts_with, ends_with, contains_text, like-starts_with, like-ends_with, like-contains_text,
}
use hyperspot.Filter.Coerce.{FilterSql, coerce, coerce_many}
use hyperspot.Filter.Compile.{
  to_ascii_lowercase, contains_name, startswith_name, endswith_name, string_args, is_null_literal,
  ensure_string_field, null_condition, comparison, compare_condition, in_condition, in_list,
  like_condition, with_args, function_condition, expr_to_condition,
}
use hyperspot.Common.Results.{is_ok}
use hyperspot.Filter.Typed.{is_string_kind}
use hyperspot.Filter.Connectives.{Means, Means-and, Means-or, Means-not, eval-single}
use hyperspot.Filter.Meaning.{
  is_equality, compares, null_test, literal_test, compare_test, list_test, text_test, at_field,
  call_holds, with_kind, call_supported, holds, supported,
}

module _ (db : Sql) (lower : Str → Str) (parse : FieldKind → Str → Option db.Val) (l : Literals)
    (fs : FilterSql db l) where
  open db use {Cond, Col, Val, Row, add, eval}

  comparison-compares :
      (op : CompareOperator) (c : Col) (v : Val) (r : Row)
      → eval r (comparison db lower parse l fs op c v)
        ≡ Option.map (λ y. compares db op y v) (db.get r c)
  comparison-compares Ast.eq c v r = db.eval-eq r c v
  comparison-compares ne c v r = db.eval-ne r c v
  comparison-compares gt c v r = db.eval-gt r c v
  comparison-compares ge c v r = db.eval-gte r c v
  comparison-compares lt c v r = db.eval-lt r c v
  comparison-compares le c v r = db.eval-lte r c v

  null_condition-Means :
      (op : CompareOperator) (c : Col)
      → Means db
          (is_equality op)
          (λ r. null_test db op (db.get r c))
          (null_condition db lower parse l fs op c)
  unfolding null_condition
  null_condition-Means Ast.eq c = (refl, λ r. eval-single db r _ ∙ db.eval-is_null r c)
  null_condition-Means ne c = (refl, λ r. eval-single db r _ ∙ db.eval-is_not_null r c)
  null_condition-Means gt c = refl
  null_condition-Means ge c = refl
  null_condition-Means lt c = refl
  null_condition-Means le c = refl

  literal-Means :
      (op : CompareOperator) (c : Col) (x : BuildResult Val)
      → Means db
          (is_ok x)
          (λ r. literal_test db op (db.get r c) x)
          (x >>= λ w. ok (add db.all (comparison db lower parse l fs op c w)))
  literal-Means op c (ok v) = (refl, λ r. eval-single db r _ ∙ comparison-compares op c v r)
  literal-Means op c (err e) = refl

  list-Means :
      (c : Col) (x : BuildResult (List Val))
      → Means db
          (is_ok x)
          (λ r. list_test db x (db.get r c))
          (x >>= λ vs. ok (in_condition db lower parse l fs c vs))
  list-Means c (ok []) = (refl, λ r. eval-single db r _ ∙ fs.eval-impossible r)
  list-Means c (ok (v ∷ vs)) = (refl, λ r. eval-single db r _ ∙ db.eval-is_in r c v vs)
  list-Means c (err e) = refl

  compare_kind-Means :
      (op : CompareOperator) (kind : FieldKind) (c : Col) (v : Value l)
      → Means db
          (if is_null_literal v then is_equality op else is_ok (coerce db l fs kind v))
          (λ r. compare_test db lower parse l fs op kind v (db.get r c))
          (if is_null_literal v
            then null_condition db lower parse l fs op c
            else coerce db l fs kind v >>= λ w.
                ok (add db.all (comparison db lower parse l fs op c w)))
  compare_kind-Means op kind c Value.null = null_condition-Means op c
  compare_kind-Means op kind c (Value.bool b) = literal-Means op c _
  compare_kind-Means op kind c (Value.number b) = literal-Means op c _
  compare_kind-Means op kind c (Value.uuid b) = literal-Means op c _
  compare_kind-Means op kind c (Value.date_time b) = literal-Means op c _
  compare_kind-Means op kind c (Value.date b) = literal-Means op c _
  compare_kind-Means op kind c (Value.time b) = literal-Means op c _
  compare_kind-Means op kind c (Value.string b) = literal-Means op c _

  field-Means :
      (o : Option (Field Col Row)) (e : BuildError) (good : FieldKind → Bool)
      (test : FieldKind → Option Val → Truth) (k : Field Col Row → BuildResult Cond)
      → ((f : Field Col Row) → Means db (good f.kind) (λ r. test f.kind (db.get r f.col)) (k f))
      → Means db
          (with_kind db lower parse l fs o good)
          (at_field db lower parse l fs o test)
          (ok_or o e >>= k)
  field-Means none e good test k h = refl
  field-Means (some f) e good test k h = h f

  compare-Means :
      (m : FieldMap db lower parse) (name : Str) (op : CompareOperator) (v : Value l)
      → Means db
          (supported db lower parse l fs m (compare_expr (identifier name) op (value v)))
          (holds db lower parse l fs m (compare_expr (identifier name) op (value v)))
          (compare_condition db lower parse l fs m op name v)
  unfolding supported holds compare_condition
  compare-Means m name op v =
      field-Means (get db lower parse m name) _ _
        (λ kind. compare_test db lower parse l fs op kind v) _
        (λ f. compare_kind-Means op f.kind f.col v)

  in-Means :
      (m : FieldMap db lower parse) (name : Str) (list : Exprs l)
      → Means db
          (supported db lower parse l fs m (in_expr (identifier name) list))
          (holds db lower parse l fs m (in_expr (identifier name) list))
          (in_list db lower parse l fs m (identifier name) list)
  unfolding supported holds in_list
  in-Means m name list =
      field-Means (get db lower parse m name) _ _
        (λ kind. list_test db (coerce_many db l fs kind list)) _
        (λ f. list-Means f.col (coerce_many db l fs f.kind list))

  -- A pattern that matches what the test accepts.
  abbrev Reads : (Str → Str) → (Str → Str → Bool) → Type 0
  Reads pattern test = (s t : Str) → Like.like (pattern s) t ≡ test s t

  like-text_test :
      (pattern : Str → Str) (test : Str → Str → Bool) (s : Str) (c : Col) (r : Row)
      → Reads pattern test
      → eval r (add db.all (fs.like c (pattern s))) ≡ text_test db l fs (test s) (db.get r c)
  like-text_test pattern test s c r h =
      eval-single db r _
      ∙ fs.eval-like r c (pattern s)
      ∙ ap (λ p. Option.map p (db.get r c)) (fun_ext (λ y. h s (fs.text_of y)))

  text-Means :
      (kind : FieldKind) (c : Col) (to_string : Option (Row → Str)) (pattern : Str → Str)
      (test : Str → Str → Bool) (s : Str)
      → Reads pattern test
      → Means db
          (is_string_kind kind)
          (λ r. text_test db l fs (test s) (db.get r c))
          (ensure_string_field db lower parse l fs
              (record { col = c; kind = kind; to_string_for_cursor = to_string })
            >>= λ u. ok (add db.all (fs.like c (pattern s))))
  unfolding ensure_string_field
  text-Means FieldKind.string c o pattern test s h =
      (refl, λ r. like-text_test pattern test s c r h)
  text-Means FieldKind.i64 c o pattern test s h = refl
  text-Means FieldKind.f64 c o pattern test s h = refl
  text-Means FieldKind.bool c o pattern test s h = refl
  text-Means FieldKind.uuid_kind c o pattern test s h = refl
  text-Means FieldKind.date_time_utc c o pattern test s h = refl
  text-Means FieldKind.date c o pattern test s h = refl
  text-Means FieldKind.time c o pattern test s h = refl
  text-Means FieldKind.decimal c o pattern test s h = refl

  call-Means :
      (m : FieldMap db lower parse) (fname : Str) (args : Option (Str × Str)) (pattern : Str → Str)
      (test : Str → Str → Bool)
      → Reads pattern test
      → Means db
          (call_supported db lower parse l fs m (some test) args)
          (call_holds db lower parse l fs m (some test) args)
          (with_args db lower parse l fs m fname args pattern)
  unfolding like_condition
  call-Means m fname none pattern test h = refl
  call-Means m fname (some (name, s)) pattern test h =
      field-Means (get db lower parse m name) _ _ (λ kind. text_test db l fs (test s)) _
        (λ f. text-Means f.kind f.col f.to_string_for_cursor pattern test s h)

  named-Means :
      (m : FieldMap db lower parse) (fname : Str) (args : Option (Str × Str))
      (is_contains is_starts is_ends : Bool)
      → let test : Option (Str → Str → Bool) =
          if is_contains
          then some contains_text
          else if is_starts
          then some starts_with
          else if is_ends
          then some ends_with
          else none in
        Means db
          (call_supported db lower parse l fs m test args)
          (call_holds db lower parse l fs m test args)
          (if is_contains
            then with_args db lower parse l fs m fname args like_contains
            else if is_starts
            then with_args db lower parse l fs m fname args like_starts
            else if is_ends
            then with_args db lower parse l fs m fname args like_ends
            else err (unsupported_fn fname))
  named-Means m fname args true b c = call-Means m fname args _ _ like-contains_text
  named-Means m fname args false true c = call-Means m fname args _ _ like-starts_with
  named-Means m fname args false false true = call-Means m fname args _ _ like-ends_with
  named-Means m fname args false false false = refl

  function-Means :
      (m : FieldMap db lower parse) (fname : Str) (args : Exprs l)
      → Means db
          (supported db lower parse l fs m (function_expr fname args))
          (holds db lower parse l fs m (function_expr fname args))
          (function_condition db lower parse l fs m fname args)
  unfolding supported holds function_condition
  function-Means m fname args =
      named-Means m fname (string_args args) (to_ascii_lowercase fname == contains_name)
        (to_ascii_lowercase fname == startswith_name) (to_ascii_lowercase fname == endswith_name)

  pub expr_to_condition-Means :
      (m : FieldMap db lower parse) (e : Expr l)
      → Means db
          (supported db lower parse l fs m e)
          (holds db lower parse l fs m e)
          (expr_to_condition db lower parse l fs e m)
  unfolding supported holds expr_to_condition in_list
  expr_to_condition-Means m (and_expr a b) =
      Means-and db _ _ _ _ _ _ (expr_to_condition-Means m a) (expr_to_condition-Means m b)
  expr_to_condition-Means m (or_expr a b) =
      Means-or db _ _ _ _ _ _ (expr_to_condition-Means m a) (expr_to_condition-Means m b)
  expr_to_condition-Means m (not_expr x) = Means-not db _ _ _ (expr_to_condition-Means m x)
  expr_to_condition-Means m (compare_expr (identifier name) op (value v)) =
      compare-Means m name op v
  expr_to_condition-Means m (compare_expr lhs op rhs) = refl
  expr_to_condition-Means m (in_expr (identifier name) list) = in-Means m name list
  expr_to_condition-Means m (in_expr lhs list) = refl
  expr_to_condition-Means m (function_expr fname args) = function-Means m fname args
  expr_to_condition-Means m (identifier name) = refl
  expr_to_condition-Means m (value v) = refl
