-- ===== src/Filter/Compile.antt =====
-- expr_to_condition of core.rs, with the helpers that it calls.
use hyperspot.Common.{
  ℕ, ◌+◌, Bool, true, false, ◌&&◌, Option, none, some, List, [], ◌∷◌, map, Str, text_key, ◌==◌, leb,
  if◌then◌else◌,
}
use hyperspot.Sql.Defs.{Sql}
use hyperspot.Odata.Ast.{
  Literals, Value, CompareOperator, ne, gt, ge, lt, le, Expr, Exprs, none_left, more, and_expr,
  or_expr, not_expr, compare_expr, in_expr, function_expr, identifier, value,
}
use hyperspot.Odata.Ast
use hyperspot.Paging.{
  FieldKind, Field, FieldMap, get, unknown_field, type_mismatch, unsupported_op, unsupported_fn,
  bare_identifier, bare_literal, other, BuildResult, ok, err, ok_or, ◌>>=◌,
}
use hyperspot.Filter.Like.{like_contains, like_starts, like_ends}
use hyperspot.Filter.Coerce.{FilterSql, coerce, coerce_many}

-- `to_ascii_lowercase`.
abbrev pub ascii_lower : ℕ → ℕ
ascii_lower c = if leb b'A' c && leb c b'Z' then c + 32 else c

abbrev pub to_ascii_lowercase : Str → Str
to_ascii_lowercase s = map ascii_lower s

abbrev pub contains_name : Str
contains_name = b'c' ∷ b'o' ∷ b'n' ∷ b't' ∷ b'a' ∷ b'i' ∷ b'n' ∷ b's' ∷ []

abbrev pub startswith_name : Str
startswith_name = b's' ∷ b't' ∷ b'a' ∷ b'r' ∷ b't' ∷ b's' ∷ b'w' ∷ b'i' ∷ b't' ∷ b'h' ∷ []

abbrev pub endswith_name : Str
endswith_name = b'e' ∷ b'n' ∷ b'd' ∷ b's' ∷ b'w' ∷ b'i' ∷ b't' ∷ b'h' ∷ []

-- The arguments `[Identifier(name), Value(String(s))]`.
abbrev pub string_args : {l : Literals} → Exprs l → Option (Str × Str)
string_args (more (identifier name) (more (value (Value.string s)) none_left)) = some (name, s)
string_args args = none

-- The operands `(Identifier(name), Value(val))`, or the error for others.
abbrev pub operands : {l : Literals} → Expr l → Expr l → BuildResult (Str × Value l)
operands (identifier name) (value v) = ok (name, v)
operands (identifier name) (identifier other_name) =
    err (other "field-to-field comparison is not supported")
operands lhs rhs = err (other "unsupported comparison form")

abbrev pub is_null_literal : {l : Literals} → Value l → Bool
is_null_literal Value.null = true
is_null_literal v = false

module _ (db : Sql) (lower : Str → Str) (parse : FieldKind → Str → Option db.Val) (l : Literals)
    (fs : FilterSql db l) where
  open db use {Cond, Col, Val, Row, all, any, add, negate}

  abbrev pub Fields : Type 0
  Fields = FieldMap db lower parse

  unfoldable pub ensure_string_field : Field Col Row → BuildResult (Unit {0})
  ensure_string_field f = elim f.kind [
    | FieldKind.string ↦ ok tt
    | _ ↦ err (type_mismatch FieldKind.string "non-string field")
  ]

  unfoldable pub null_condition : CompareOperator → Col → BuildResult Cond
  null_condition Ast.eq col = ok (add all (db.is_null col))
  null_condition ne col = ok (add all (db.is_not_null col))
  null_condition op col = err (unsupported_op op)

  abbrev pub comparison : CompareOperator → Col → Val → Cond
  comparison Ast.eq col v = db.eq col v
  comparison ne col v = db.ne col v
  comparison gt col v = db.gt col v
  comparison ge col v = db.gte col v
  comparison lt col v = db.lt col v
  comparison le col v = db.lte col v

  unfoldable pub compare_condition : Fields → CompareOperator → Str → Value l → BuildResult Cond
  compare_condition m op name v =
      ok_or (get db lower parse m name) (unknown_field name) >>= λ field.
      if is_null_literal v
      then null_condition op field.col
      else coerce db l fs field.kind v >>= λ w. ok (add all (comparison op field.col w))

  abbrev pub in_condition : Col → List Val → Cond
  in_condition col [] = add all fs.impossible
  in_condition col (v ∷ vs) = add all (db.is_in col (v ∷ vs))

  -- The left side of IN must be a field.
  unfoldable pub in_list : Fields → Expr l → Exprs l → BuildResult Cond
  in_list m (identifier name) list = ok_or (get db lower parse m name) (unknown_field name) >>= λ f.
      coerce_many db l fs f.kind list >>= λ vals. ok (in_condition f.col vals)
  in_list m lhs list = err (other "left side of IN must be a field")

  unfoldable pub like_condition : Fields → (Str → Str) → Str × Str → BuildResult Cond
  like_condition m pattern (name, s) =
      ok_or (get db lower parse m name) (unknown_field name) >>= λ f.
      ensure_string_field f >>= λ u. ok (add all (fs.like f.col (pattern s)))

  abbrev pub with_args : Fields → Str → Option (Str × Str) → (Str → Str) → BuildResult Cond
  with_args m fname none pattern = err (unsupported_fn fname)
  with_args m fname (some args) pattern = like_condition m pattern args

  unfoldable pub function_condition : Fields → Str → Exprs l → BuildResult Cond
  function_condition m fname args =
      let n = to_ascii_lowercase fname in
      if n == contains_name
      then with_args m fname (string_args args) like_contains
      else if n == startswith_name
      then with_args m fname (string_args args) like_starts
      else if n == endswith_name
      then with_args m fname (string_args args) like_ends
      else err (unsupported_fn fname)

  unfoldable pub expr_to_condition : Expr l → Fields → BuildResult Cond
  expr_to_condition (and_expr a b) m =
      let left = expr_to_condition a m in
      let right = expr_to_condition b m in left >>= λ c. right >>= λ d. ok (add (add all c) d)
  expr_to_condition (or_expr a b) m =
      let left = expr_to_condition a m in
      let right = expr_to_condition b m in left >>= λ c. right >>= λ d. ok (add (add any c) d)
  expr_to_condition (not_expr x) m = expr_to_condition x m >>= λ c. ok (negate (add all c))
  expr_to_condition (compare_expr lhs op rhs) m =
      operands lhs rhs >>= λ (name, v). compare_condition m op name v
  expr_to_condition (in_expr lhs list) m = in_list m lhs list
  expr_to_condition (function_expr fname args) m = function_condition m fname args
  expr_to_condition (identifier name) m = err (bare_identifier name)
  expr_to_condition (value v) m = err bare_literal
