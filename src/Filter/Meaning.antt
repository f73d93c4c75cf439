-- ===== src/Filter/Meaning.antt =====
-- What a filter says of a row, as SQL's three truth values, for the filters of core.rs.
use mathlib.Core.Option
use hyperspot.Common.{
  Bool, true, false, ◌&&◌, not, Option, none, some, List, [], ◌∷◌, Str, text_key, ◌==◌,
  if◌then◌else◌, any,
}
use hyperspot.Sql.{Sql, Truth, and3, or3, not3, is_some}
use hyperspot.Odata.Ast.{
  Literals, Value, CompareOperator, ne, gt, ge, lt, le, Expr, Exprs, none_left, more, and_expr,
  or_expr, not_expr, compare_expr, in_expr, function_expr, identifier, value,
}
use hyperspot.Odata.Ast
use hyperspot.Paging.{FieldKind, Field, FieldMap, get, ok, err}
use hyperspot.Filter.Patterns.{starts_with, ends_with, contains_text}
use hyperspot.Filter.Coerce.{FilterSql, coerce, coerce_many}
use hyperspot.Filter.Compile.{
  to_ascii_lowercase, contains_name, startswith_name, endswith_name, string_args, is_null_literal,
}
use hyperspot.Filter.Typed.{is_string_kind}
use hyperspot.Common.Results.{Result, is_ok}

abbrev pub is_equality : CompareOperator → Bool
is_equality Ast.eq = true
is_equality ne = true
is_equality op = false

-- The function that the name stands for, in any case of its letters.
abbrev pub text_function : Str → Option (Str → Str → Bool)
text_function fname =
    let n = to_ascii_lowercase fname in
    if n == contains_name
    then some contains_text
    else if n == startswith_name
    then some starts_with
    else if n == endswith_name
    then some ends_with
    else none

module _ (db : Sql) where
  open db use {Val, same, less}

  -- A value `x` of a column against a literal `v`.
  abbrev pub compares : CompareOperator → Val → Val → Bool
  compares Ast.eq x v = same x v
  compares ne x v = not (same x v)
  compares gt x v = less v x
  compares ge x v = not (less x v)
  compares lt x v = less x v
  compares le x v = not (less v x)

  -- `eq null` and `ne null` ask whether there is a value.
  abbrev pub null_test : CompareOperator → Option Val → Truth
  null_test Ast.eq x = some (not (is_some x))
  null_test ne x = some (is_some x)
  null_test op x = none

  -- NULL compares as UNKNOWN with every literal.
  abbrev pub literal_test : {E : Type 0} → CompareOperator → Option Val → Result E Val → Truth
  literal_test op x (ok v) = Option.map (λ y. compares op y v) x
  literal_test op x (err e) = none

  -- Nothing is in the empty list, not even NULL.
  abbrev pub list_test : {E : Type 0} → Result E (List Val) → Option Val → Truth
  list_test (ok []) x = some false
  list_test (ok (v ∷ vs)) x = Option.map (λ y. any (same y) (v ∷ vs)) x
  list_test (err e) x = none

module _ (db : Sql) (l : Literals) (fs : FilterSql db l) where
  open db use {Val}

  abbrev pub text_test : (Str → Bool) → Option Val → Truth
  text_test test x = Option.map (λ y. test (fs.text_of y)) x

module _ (db : Sql) (lower : Str → Str) (parse : FieldKind → Str → Option db.Val) (l : Literals)
    (fs : FilterSql db l) where
  open db use {Col, Val, Row}

  abbrev pub compare_test : CompareOperator → FieldKind → Value l → Option Val → Truth
  compare_test op kind v x =
      if is_null_literal v then null_test db op x else literal_test db op x (coerce db l fs kind v)

  -- What a test says of the field of that name in a row.
  abbrev pub at_field : Option (Field Col Row) → (FieldKind → Option Val → Truth) → Row → Truth
  at_field none test r = none
  at_field (some f) test r = test f.kind (db.get r f.col)

  abbrev pub call_holds :
      FieldMap db lower parse → Option (Str → Str → Bool) → Option (Str × Str) → Row → Truth
  call_holds m (some test) (some (name, s)) r =
      at_field (get db lower parse m name) (λ kind. text_test db l fs (test s)) r
  call_holds m none args r = none
  call_holds m (some test) none r = none

  -- What a filter says of a row, UNKNOWN where it is not one that the program supports.
  unfoldable pub holds : FieldMap db lower parse → Expr l → Row → Truth
  holds m (and_expr a b) r = and3 (holds m a r) (holds m b r)
  holds m (or_expr a b) r = or3 (holds m a r) (holds m b r)
  holds m (not_expr x) r = not3 (holds m x r)
  holds m (compare_expr (identifier name) op (value v)) r =
      at_field (get db lower parse m name) (λ kind. compare_test op kind v) r
  holds m (in_expr (identifier name) list) r =
      at_field (get db lower parse m name) (λ kind. list_test db (coerce_many db l fs kind list)) r
  holds m (function_expr fname args) r = call_holds m (text_function fname) (string_args args) r
  holds m e r = none

  abbrev pub with_kind : Option (Field Col Row) → (FieldKind → Bool) → Bool
  with_kind none test = false
  with_kind (some f) test = test f.kind

  abbrev pub call_supported :
      FieldMap db lower parse → Option (Str → Str → Bool) → Option (Str × Str) → Bool
  call_supported m (some test) (some (name, s)) =
      with_kind (get db lower parse m name) is_string_kind
  call_supported m none args = false
  call_supported m (some test) none = false

  -- The filters that the program supports: comparisons and IN on known fields with literals of their
  -- kind, null for equality alone, text functions on text fields, and their combinations.
  unfoldable pub supported : FieldMap db lower parse → Expr l → Bool
  supported m (and_expr a b) = supported m a && supported m b
  supported m (or_expr a b) = supported m a && supported m b
  supported m (not_expr x) = supported m x
  supported m (compare_expr (identifier name) op (value v)) =
      with_kind (get db lower parse m name)
        (λ kind. if is_null_literal v then is_equality op else is_ok (coerce db l fs kind v))
  supported m (in_expr (identifier name) list) =
      with_kind (get db lower parse m name) (λ kind. is_ok (coerce_many db l fs kind list))
  supported m (function_expr fname args) = call_supported m (text_function fname) (string_args args)
  supported m e = false
