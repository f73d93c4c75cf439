-- ===== src/Filter/Conversion.antt =====
-- convert_expr_to_filter_node of filter.rs with filter_node_to_condition of sea_orm_filter.rs: the
-- condition says what the filter says.
use hyperspot.Common.{
  ◌≡◌, refl, sym, ap, ap₂, ◌∙◌, Bool, true, false, ◌&&◌, &&-true, Option, none, some, Str, text_key,
  ◌==◌, if◌then◌else◌,
}
use hyperspot.Common.Results.{Result, ok, err, ok_or, map_err, ◌>>=◌, is_ok}
use hyperspot.Sql.{Sql, Truth, and3, or3, not3}
use hyperspot.Sql.Toy.{and3-true, or3-false}
use hyperspot.Odata.Ast.{
  Literals, Value, CompareOperator, Expr, Exprs, and_expr, or_expr, not_expr, compare_expr, in_expr,
  function_expr, identifier, value,
}
use hyperspot.Odata.Ast
use hyperspot.Paging.{FieldKind}
use hyperspot.Filter.Patterns.{starts_with, ends_with, contains_text}
use hyperspot.Filter.Coerce.{FilterSql}
use hyperspot.Filter.Compile.{
  to_ascii_lowercase, contains_name, startswith_name, endswith_name, string_args,
}
use hyperspot.Filter.Connectives.{Means}
use hyperspot.Filter.Meaning.{literal_test, text_test}
use hyperspot.Filter.Typed.{
  FilterOp, FilterNode, FilterField, FilterError, FilterResult, binary, composite, not_node,
  no_nodes, nodes, filter_op, value_matches, is_string_kind, from_name, validate_value_type,
  convert_compare, convert_text, convert_args, convert_function, convert_expr_to_filter_node,
  unsupported_function,
}
use hyperspot.Filter.Columns.{
  odata_value_to_sea_value, filter_node_to_condition, filter_condition, converting, building,
  ConditionError,
}
use hyperspot.Filter.Conditions.{binary_supported, binary_test}
use hyperspot.Filter.Nodes.{node_holds, node_supported, filter_node_to_condition-Means}
use hyperspot.Filter.TypedMeaning.{
  at_typed, typed_call_holds, typed_holds, with_typed, typed_call_supported, typed_supported,
}

module _ (db : Sql) (l : Literals) (fs : FilterSql db l) (F : Type 0) (t : FilterField F)
    (map_field : F → db.Col) where
  open db use {Cond, Col, Val, Row, eval}

  abbrev holds : FilterNode F l → Row → Truth
  holds n r = node_holds db l fs F map_field n r

  abbrev takes : FilterNode F l → Bool
  takes n = node_supported db l fs F map_field n

  -- A node that says what the expression says, or an error where the expression is not supported.
  abbrev Converts : Bool → (Row → Truth) → FilterResult (FilterNode F l) → Type 0
  Converts good says (ok n) = (takes n ≡ good) × ((r : Row) → holds n r ≡ says r)
  Converts good says (err e) = good ≡ false

  abbrev pair_of : FilterOp → FilterNode F l → FilterNode F l → FilterNode F l
  pair_of op a b = composite op (nodes a (nodes b no_nodes))

  Converts-and :
      (p q : Bool) (s u : Row → Truth) (x y : FilterResult (FilterNode F l))
      → Converts p s x
      → Converts q u y
      → Converts
          (p && q)
          (λ r. and3 (s r) (u r))
          (x >>= λ a. y >>= λ b. ok (pair_of FilterOp.and a b))
  unfolding node_holds node_supported
  Converts-and p q s u (ok a) (ok b) (g, h) (g', h') =
      (ap₂ ◌&&◌ g (&&-true (takes b) ∙ g'), λ r. ap₂ and3 (h r) (and3-true (holds b r) ∙ h' r))
  Converts-and p q s u (err e) y g h = rw g refl
  Converts-and true q s u (ok a) (err e) h g = g
  Converts-and false q s u (ok a) (err e) h g = refl

  Converts-or :
      (p q : Bool) (s u : Row → Truth) (x y : FilterResult (FilterNode F l))
      → Converts p s x
      → Converts q u y
      → Converts
          (p && q)
          (λ r. or3 (s r) (u r))
          (x >>= λ a. y >>= λ b. ok (pair_of FilterOp.or a b))
  unfolding node_holds node_supported
  Converts-or p q s u (ok a) (ok b) (g, h) (g', h') =
      (ap₂ ◌&&◌ g (&&-true (takes b) ∙ g'), λ r. ap₂ or3 (h r) (or3-false (holds b r) ∙ h' r))
  Converts-or p q s u (err e) y g h = rw g refl
  Converts-or true q s u (ok a) (err e) h g = g
  Converts-or false q s u (ok a) (err e) h g = refl

  Converts-not :
      (p : Bool) (s : Row → Truth) (x : FilterResult (FilterNode F l))
      → Converts p s x
      → Converts p (λ r. not3 (s r)) (x >>= λ a. ok (not_node a))
  unfolding node_holds node_supported
  Converts-not p s (ok a) (g, h) = (g, λ r. ap not3 (h r))
  Converts-not p s (err e) g = g

  op_takes-filter_op :
      (op : CompareOperator) (v : Value l)
      → binary_supported db l fs (filter_op op) v ≡ is_ok (odata_value_to_sea_value db l fs v)
  op_takes-filter_op Ast.eq v = &&-true _
  op_takes-filter_op Ast.ne v = &&-true _
  op_takes-filter_op Ast.gt v = &&-true _
  op_takes-filter_op Ast.ge v = &&-true _
  op_takes-filter_op Ast.lt v = &&-true _
  op_takes-filter_op Ast.le v = &&-true _

  op_test-filter_op :
      (op : CompareOperator) (v : Value l) (y : Option Val)
      → binary_test db l fs (filter_op op) v y
        ≡ literal_test db op y (odata_value_to_sea_value db l fs v)
  op_test-filter_op Ast.eq v y = refl
  op_test-filter_op Ast.ne v y = refl
  op_test-filter_op Ast.gt v y = refl
  op_test-filter_op Ast.ge v y = refl
  op_test-filter_op Ast.lt v y = refl
  op_test-filter_op Ast.le v y = refl

  compare-node :
      (op : CompareOperator) (v : Value l) (f : F) (matches : Bool) (e : FilterError)
      → Converts
          (matches && is_ok (odata_value_to_sea_value db l fs v))
          (λ r. literal_test db op (db.get r (map_field f)) (odata_value_to_sea_value db l fs v))
          ((if matches then ok tt else err e) >>= λ u. ok (binary f (filter_op op) v))
  unfolding node_holds node_supported
  compare-node op v f true e =
      (op_takes-filter_op op v, λ r. op_test-filter_op op v (db.get r (map_field f)))
  compare-node op v f false e = refl

  field-Converts :
      (o : Option F) (e : FilterError) (good : FieldKind → Bool) (test : Option Val → Truth)
      (k : F → FilterResult (FilterNode F l))
      → ((f : F) → Converts (good (t.kind f)) (λ r. test (db.get r (map_field f))) (k f))
      → Converts
          (with_typed db l fs F t map_field o good)
          (at_typed db l fs F t map_field o test)
          (ok_or o e >>= k)
  field-Converts none e good test k h = refl
  field-Converts (some f) e good test k h = h f

  string_kind-node :
      (op : FilterOp) (test : Str → Str → Bool) (f : F) (s : Str) (matches : Bool) (e : FilterError)
      → binary_supported db l fs op (Value.string s) ≡ true
      → ((y : Option Val)
          → binary_test db l fs op (Value.string s) y ≡ text_test db l fs (test s) y)
      → Converts matches
          (λ r. text_test db l fs (test s) (db.get r (map_field f)))
          (if matches then ok (binary f op (Value.string s)) else err e)
  unfolding node_holds node_supported
  string_kind-node op test f s true e good says = (good, λ r. says (db.get r (map_field f)))
  string_kind-node op test f s false e good says = refl

  -- An operation on text that stands for the test.
  abbrev Stands : FilterOp → (Str → Str → Bool) → Type 0
  Stands op test =
      (s : Str)
      → (binary_supported db l fs op (Value.string s) ≡ true)
        × ((y : Option Val)
            → binary_test db l fs op (Value.string s) y ≡ text_test db l fs (test s) y)

  args-Converts :
      (fname : Str) (args : Option (Str × Str)) (op : FilterOp) (test : Str → Str → Bool)
      → Stands op test
      → Converts
          (typed_call_supported db l fs F t map_field (some test) args)
          (typed_call_holds db l fs F t map_field (some test) args)
          (convert_args F t l fname args op)
  unfolding convert_text
  args-Converts fname none op test h = refl
  args-Converts fname (some (name, s)) op test h =
      field-Converts (from_name F t l name) _ _ (text_test db l fs (test s)) _
        (λ f. string_kind-node op test f s (is_string_kind (t.kind f)) _ (h s).0 (h s).1)

  named-Converts :
      (fname : Str) (args : Option (Str × Str)) (is_contains is_starts is_ends : Bool)
      → let test : Option (Str → Str → Bool) =
          if is_contains
          then some contains_text
          else if is_starts
          then some starts_with
          else if is_ends
          then some ends_with
          else none in
        Converts
          (typed_call_supported db l fs F t map_field test args)
          (typed_call_holds db l fs F t map_field test args)
          (if is_contains
            then convert_args F t l fname args FilterOp.contains
            else if is_starts
            then convert_args F t l fname args FilterOp.starts_with
            else if is_ends
            then convert_args F t l fname args FilterOp.ends_with
            else err (unsupported_function fname))
  unfolding odata_value_to_sea_value
  named-Converts fname args true b c =
      args-Converts fname args FilterOp.contains contains_text (λ s. (refl, λ y. refl))
  named-Converts fname args false true c =
      args-Converts fname args FilterOp.starts_with starts_with (λ s. (refl, λ y. refl))
  named-Converts fname args false false true =
      args-Converts fname args FilterOp.ends_with ends_with (λ s. (refl, λ y. refl))
  named-Converts fname args false false false = refl

  expr-Converts :
      (e : Expr l)
      → Converts
          (typed_supported db l fs F t map_field e)
          (typed_holds db l fs F t map_field e)
          (convert_expr_to_filter_node F t l e)
  unfolding typed_supported typed_holds convert_expr_to_filter_node convert_compare convert_function
      validate_value_type
  expr-Converts (and_expr a b) = Converts-and _ _ _ _ _ _ (expr-Converts a) (expr-Converts b)
  expr-Converts (or_expr a b) = Converts-or _ _ _ _ _ _ (expr-Converts a) (expr-Converts b)
  expr-Converts (not_expr x) = Converts-not _ _ _ (expr-Converts x)
  expr-Converts (compare_expr (identifier name) op (value v)) =
      field-Converts (from_name F t l name) _ _
        (λ y. literal_test db op y (odata_value_to_sea_value db l fs v)) _
        (λ f. compare-node op v f (value_matches (t.kind f) v) _)
  expr-Converts (compare_expr lhs op rhs) = refl
  expr-Converts (in_expr lhs list) = refl
  expr-Converts (function_expr fname args) =
      named-Converts fname (string_args args) (to_ascii_lowercase fname == contains_name)
        (to_ascii_lowercase fname == startswith_name) (to_ascii_lowercase fname == endswith_name)
  expr-Converts (identifier name) = refl
  expr-Converts (value v) = refl

  built-Means :
      (good : Bool) (says : Row → Truth) (n : FilterNode F l) (x : Result (ConditionError l) Cond)
      → Means db (takes n) (holds n) x
      → takes n ≡ good
      → ((r : Row) → holds n r ≡ says r)
      → Means db good says (map_err building x)
  built-Means good says n (ok c) (g, h) same agree = (sym same ∙ g, λ r. h r ∙ agree r)
  built-Means good says n (err e) g same agree = sym same ∙ g

  converted-Means :
      (good : Bool) (says : Row → Truth) (x : FilterResult (FilterNode F l))
      → Converts good says x
      → Means db good says (
          map_err converting x >>= λ n.
          map_err building (filter_node_to_condition db l fs F map_field n))
  converted-Means good says (ok n) (g, h) =
      built-Means good says n _ (filter_node_to_condition-Means db l fs F map_field n) g h
  converted-Means good says (err e) g = g

  pub filter_condition-Means :
      (e : Expr l)
      → Means db
          (typed_supported db l fs F t map_field e)
          (typed_holds db l fs F t map_field e)
          (filter_condition db l fs F t map_field e)
  unfolding filter_condition
  filter_condition-Means e = converted-Means _ _ _ (expr-Converts e)
