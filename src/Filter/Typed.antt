-- ===== src/Filter/Typed.antt =====
-- filter.rs: the filters over a DTO's fields, and their conversion from the syntax tree.
use hyperspot.Common.{
  Bool, true, false, Option, none, some, List, [], ◌∷◌, Str, text_key, ◌==◌, String, if◌then◌else◌,
}
use hyperspot.Common.Results.{Result, ok, err, ok_or, ◌>>=◌}
use hyperspot.Odata.Ast.{
  Literals, Value, CompareOperator, Expr, Exprs, and_expr, or_expr, not_expr, compare_expr, in_expr,
  function_expr, identifier, value,
}
use hyperspot.Odata.Ast
use hyperspot.Paging.{FieldKind, i64, f64, decimal, date_time_utc, uuid_kind}
use hyperspot.Filter.Coerce.{got}
use hyperspot.Filter.Compile.{
  to_ascii_lowercase, contains_name, startswith_name, endswith_name, string_args,
}

pub data FilterOp : Type 0 where
  eq ne gt ge lt le contains starts_with ends_with and or : FilterOp

mutual
  pub data FilterNode (F : Type 0) (l : Literals) : Type 0 where
    binary : F → FilterOp → Value l → FilterNode F l
    composite : FilterOp → FilterNodes F l → FilterNode F l
    not_node : FilterNode F l → FilterNode F l

  -- `Vec<FilterNode<F>>`.
  pub data FilterNodes (F : Type 0) (l : Literals) : Type 0 where
    no_nodes : FilterNodes F l
    nodes : FilterNode F l → FilterNodes F l → FilterNodes F l

-- `UnsupportedOperation` has a text, here one constructor for each of the two that the code writes;
-- the text of `InvalidExpression` is always the same.
pub data FilterError : Type 0 where
  unknown_field : Str → FilterError
  type_mismatch : Str → FieldKind → String → FilterError
  unsupported_function : Str → FilterError
  unsupported_in invalid_expression field_to_field_comparison bare_literal : FilterError
  bare_identifier : Str → FilterError

abbrev pub FilterResult : Type 0 → Type 0
FilterResult A = Result FilterError A

-- The trait that the derive macro fills.
pub record FilterField (F : Type 0) : Type 0 where
  pub fields : List F
  pub name : F → Str
  pub kind : F → FieldKind

abbrev pub eq_ignore_ascii_case : Str → Str → Bool
eq_ignore_ascii_case a b = to_ascii_lowercase a == to_ascii_lowercase b

abbrev pub filter_op : CompareOperator → FilterOp
filter_op Ast.eq = FilterOp.eq
filter_op Ast.ne = FilterOp.ne
filter_op Ast.gt = FilterOp.gt
filter_op Ast.ge = FilterOp.ge
filter_op Ast.lt = FilterOp.lt
filter_op Ast.le = FilterOp.le

-- The table of `validate_value_type`.
unfoldable pub value_matches : {l : Literals} → FieldKind → Value l → Bool
value_matches FieldKind.string (Value.string s) = true
value_matches i64 (Value.number n) = true
value_matches f64 (Value.number n) = true
value_matches decimal (Value.number n) = true
value_matches FieldKind.bool (Value.bool b) = true
value_matches uuid_kind (Value.uuid u) = true
value_matches date_time_utc (Value.date_time t) = true
value_matches FieldKind.date (Value.date d) = true
value_matches FieldKind.time (Value.time t) = true
value_matches kind v = false

abbrev pub is_string_kind : FieldKind → Bool
is_string_kind FieldKind.string = true
is_string_kind kind = false

-- The field and the value of a comparison.
abbrev pub field_and_value : {l : Literals} → Expr l → Expr l → FilterResult (Str × Value l)
field_and_value (identifier name) (value v) = ok (name, v)
field_and_value (identifier name) (identifier other) = err field_to_field_comparison
field_and_value lhs rhs = err invalid_expression

module _ (F : Type 0) (t : FilterField F) (l : Literals) where
  abbrev pub find_name : Str → List F → Option F
  find_name s [] = none
  find_name s (f ∷ fs) =
      let later = find_name s fs in if eq_ignore_ascii_case (t.name f) s then some f else later

  unfoldable pub from_name : Str → Option F
  from_name s = find_name s t.fields

  unfoldable pub validate_value_type : F → Value l → FilterResult (Unit {0})
  validate_value_type f v =
      if value_matches (t.kind f) v
      then ok tt
      else err (type_mismatch (t.name f) (t.kind f) (got v))

  unfoldable pub convert_compare : CompareOperator → Str × Value l → FilterResult (FilterNode F l)
  convert_compare op (name, v) = ok_or (from_name name) (unknown_field name) >>= λ field.
      validate_value_type field v >>= λ u. ok (binary field (filter_op op) v)

  unfoldable pub convert_text : FilterOp → Str × Str → FilterResult (FilterNode F l)
  convert_text op (name, s) = ok_or (from_name name) (unknown_field name) >>= λ field.
      if is_string_kind (t.kind field)
      then ok (binary field op (Value.string s))
      else err (type_mismatch name FieldKind.string "non-string")

  abbrev pub convert_args : Str → Option (Str × Str) → FilterOp → FilterResult (FilterNode F l)
  convert_args fname none op = err (unsupported_function fname)
  convert_args fname (some args) op = convert_text op args

  unfoldable pub convert_function : Str → Exprs l → FilterResult (FilterNode F l)
  convert_function fname args =
      let n = to_ascii_lowercase fname in
      if n == contains_name
      then convert_args fname (string_args args) FilterOp.contains
      else if n == startswith_name
      then convert_args fname (string_args args) FilterOp.starts_with
      else if n == endswith_name
      then convert_args fname (string_args args) FilterOp.ends_with
      else err (unsupported_function fname)

  abbrev pub pair : FilterNode F l → FilterNode F l → FilterNodes F l
  pair a b = nodes a (nodes b no_nodes)

  unfoldable pub convert_expr_to_filter_node : Expr l → FilterResult (FilterNode F l)
  convert_expr_to_filter_node (and_expr a b) =
      let left = convert_expr_to_filter_node a in
      let right = convert_expr_to_filter_node b in
      left >>= λ x. right >>= λ y. ok (composite FilterOp.and (pair x y))
  convert_expr_to_filter_node (or_expr a b) =
      let left = convert_expr_to_filter_node a in
      let right = convert_expr_to_filter_node b in
      left >>= λ x. right >>= λ y. ok (composite FilterOp.or (pair x y))
  convert_expr_to_filter_node (not_expr e) = convert_expr_to_filter_node e >>= λ x. ok (not_node x)
  convert_expr_to_filter_node (compare_expr lhs op rhs) =
      field_and_value lhs rhs >>= λ operands. convert_compare op operands
  convert_expr_to_filter_node (function_expr fname args) = convert_function fname args
  convert_expr_to_filter_node (in_expr lhs list) = err unsupported_in
  convert_expr_to_filter_node (identifier name) = err (bare_identifier name)
  convert_expr_to_filter_node (value v) = err bare_literal
