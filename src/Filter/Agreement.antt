-- ===== src/Filter/Agreement.antt =====
-- core.rs and filter.rs with sea_orm_filter.rs compile filters twice, by names and by typed fields: what
-- they agree on, and null, on which they do not.
use mathlib.Core.Option
use hyperspot.Common.{
  ◌≡◌, refl, sym, ap, ap₂, ◌∙◌, Bool, true, false, ◌&&◌, and-true, not, Option, none, some, Str,
  if◌then◌else◌,
}
use hyperspot.Common.Results.{ok, err, is_ok}
use hyperspot.Sql.{Sql, Truth, and3, or3, not3}
use hyperspot.Odata.Ast.{
  Literals, Value, CompareOperator, Expr, Exprs, and_expr, or_expr, not_expr, compare_expr, in_expr,
  function_expr, identifier, value,
}
use hyperspot.Odata.Ast
use hyperspot.Paging.{FieldKind, Field, FieldMap, get, i64, f64, decimal, date_time_utc, uuid_kind}
use hyperspot.Filter.Coerce.{FilterSql, coerce}
use hyperspot.Filter.Compile.{
  is_null_literal, string_args, compare_condition, null_condition, expr_to_condition,
}
use hyperspot.Filter.Connectives.{Means-ok, Means-good}
use hyperspot.Filter.Meaning.{
  is_equality, literal_test, compare_test, text_test, text_function, at_field, call_holds,
  with_kind, call_supported, holds, supported,
}
use hyperspot.Filter.Compiled.{expr_to_condition-Means}
use hyperspot.Filter.Typed.{
  FilterOp, FilterField, type_mismatch, convert_expr_to_filter_node, convert_compare,
  validate_value_type, is_string_kind, value_matches, from_name,
}
use hyperspot.Filter.Columns.{
  odata_value_to_sea_value, filter_condition, build_binary_condition, converting, null_not_separate,
}
use hyperspot.Filter.TypedMeaning.{
  at_typed, typed_call_holds, typed_holds, with_typed, typed_call_supported, typed_supported,
}
use hyperspot.Filter.Conversion.{filter_condition-Means}

abbrev pub is_number : {l : Literals} → Value l → Bool
is_number (Value.number n) = true
is_number v = false

-- No comparison with a number.
abbrev pub number_free : {l : Literals} → Expr l → Bool
number_free (and_expr a b) = number_free a && number_free b
number_free (or_expr a b) = number_free a && number_free b
number_free (not_expr x) = number_free x
number_free (compare_expr lhs op (value v)) = not (is_number v)
number_free e = true

value_matches-null :
    (l : Literals) (kind : FieldKind) → value_matches {l = l} kind Value.null ≡ false
unfolding value_matches
value_matches-null l FieldKind.string = refl
value_matches-null l i64 = refl
value_matches-null l f64 = refl
value_matches-null l FieldKind.bool = refl
value_matches-null l uuid_kind = refl
value_matches-null l date_time_utc = refl
value_matches-null l FieldKind.date = refl
value_matches-null l FieldKind.time = refl
value_matches-null l decimal = refl

module _ (db : Sql) (lower : Str → Str) (parse : FieldKind → Str → Option db.Val) (l : Literals)
    (fs : FilterSql db l) (F : Type 0) (t : FilterField F) (map_field : F → db.Col)
    (m : FieldMap db lower parse) where
  open db use {Cond, Col, Val, Row, eval}

  abbrev pub column_and_kind : Field Col Row → Col × FieldKind
  column_and_kind f = (f.col, f.kind)

  abbrev pub typed_column_and_kind : F → Col × FieldKind
  typed_column_and_kind f = (map_field f, t.kind f)

  -- Both compilers find the same column and kind under a name, or neither finds one.
  abbrev pub SameFields : Type 0
  SameFields =
      (name : Str)
      → Option.map column_and_kind (get db lower parse m name)
        ≡ Option.map typed_column_and_kind (from_name F t l name)

  field-agrees :
      (o : Option (Field Col Row)) (p : Option F) (good good' : FieldKind → Bool)
      (test : FieldKind → Option Val → Truth) (test' : Option Val → Truth)
      → Option.map column_and_kind o ≡ Option.map typed_column_and_kind p
      → ((kind : FieldKind)
          → good' kind ≡ true
          → (good kind ≡ true) × ((y : Option Val) → test kind y ≡ test' y))
      → with_typed db l fs F t map_field p good' ≡ true
      → (with_kind db lower parse l fs o good ≡ true)
        × ((r : Row)
            → at_field db lower parse l fs o test r ≡ at_typed db l fs F t map_field p test' r)
  field-agrees o none good good' test test' same h g = cc
  field-agrees none (some f) good good' test test' same h g = cc
  field-agrees (some f) (some f') good good' test test' same h g =
      let col : f.col ≡ map_field f' = ap (λ o. elim o [ none ↦ f.col | some x ↦ x.0 ]) same in
      let kind : f.kind ≡ t.kind f' = ap (λ o. elim o [ none ↦ f.kind | some x ↦ x.1 ]) same in
      let (fine, agree) = h (t.kind f') g in
      (rw kind fine, λ r. rw (kind, col) (agree (db.get r (map_field f'))))

  literal-agrees :
      (op : CompareOperator) (v : Value l)
      → not (is_number v) ≡ true
      → (kind : FieldKind)
      → (value_matches kind v && is_ok (odata_value_to_sea_value db l fs v)) ≡ true
      → ((if is_null_literal v then is_equality op else is_ok (coerce db l fs kind v)) ≡ true)
        × ((y : Option Val)
            → compare_test db lower parse l fs op kind v y
              ≡ literal_test db op y (odata_value_to_sea_value db l fs v))
  unfolding value_matches odata_value_to_sea_value coerce
  literal-agrees op (Value.string s) n FieldKind.string h = (refl, λ y. refl)
  literal-agrees op (Value.bool s) n FieldKind.bool h = (refl, λ y. refl)
  literal-agrees op (Value.uuid s) n uuid_kind h = (refl, λ y. refl)
  literal-agrees op (Value.date_time s) n date_time_utc h = (refl, λ y. refl)
  literal-agrees op (Value.date s) n FieldKind.date h = (refl, λ y. refl)
  literal-agrees op (Value.time s) n FieldKind.time h = (refl, λ y. refl)
  literal-agrees op Value.null n kind h =
      let bad : false ≡ true = (and-true (value_matches kind Value.null) false h).1 in cc
  literal-agrees op v n kind h = cc

  call-agrees :
      SameFields
      → (test : Option (Str → Str → Bool)) (args : Option (Str × Str))
      → typed_call_supported db l fs F t map_field test args ≡ true
      → (call_supported db lower parse l fs m test args ≡ true)
        × ((r : Row)
            → call_holds db lower parse l fs m test args r
              ≡ typed_call_holds db l fs F t map_field test args r)
  call-agrees same (some test) (some (name, s)) h =
      field-agrees (get db lower parse m name) (from_name F t l name) is_string_kind is_string_kind
        (λ kind. text_test db l fs (test s)) (text_test db l fs (test s)) (same name)
        (λ kind g. (g, λ y. refl)) h
  call-agrees same none args h = cc
  call-agrees same (some test) none h = cc

  -- What the typed compiler supports without numbers, the other one supports too, with the same
  -- meaning.
  typed-agrees :
      SameFields
      → (e : Expr l) → number_free e ≡ true
      → typed_supported db l fs F t map_field e ≡ true
      → (supported db lower parse l fs m e ≡ true)
        × ((r : Row) → holds db lower parse l fs m e r ≡ typed_holds db l fs F t map_field e r)
  unfolding supported holds typed_supported typed_holds
  typed-agrees same (and_expr a b) n h =
      let (na, nb) = and-true _ _ n in
      let (ha, hb) = and-true _ _ h in
      let (ga, sa) = typed-agrees same a na ha in
      let (gb, sb) = typed-agrees same b nb hb in (rw (ga, gb) refl, λ r. ap₂ and3 (sa r) (sb r))
  typed-agrees same (or_expr a b) n h =
      let (na, nb) = and-true _ _ n in
      let (ha, hb) = and-true _ _ h in
      let (ga, sa) = typed-agrees same a na ha in
      let (gb, sb) = typed-agrees same b nb hb in (rw (ga, gb) refl, λ r. ap₂ or3 (sa r) (sb r))
  typed-agrees same (not_expr x) n h =
      let (g, s) = typed-agrees same x n h in (g, λ r. ap not3 (s r))
  typed-agrees same (compare_expr (identifier name) op (value v)) n h =
      field-agrees (get db lower parse m name) (from_name F t l name) _ _
        (λ kind. compare_test db lower parse l fs op kind v)
        (λ y. literal_test db op y (odata_value_to_sea_value db l fs v)) (same name)
        (literal-agrees op v n) h
  typed-agrees same (function_expr fname args) n h =
      call-agrees same (text_function fname) (string_args args) h
  typed-agrees same e n h = cc

  -- A filter without numbers that the typed compiler takes, the compiler by names takes too, and both
  -- conditions say the same of every row.
  pub filter_condition-agrees :
      SameFields
      → (e : Expr l) (c : Cond) → number_free e ≡ true
      → filter_condition db l fs F t map_field e ≡ ok c
      → (d : Cond) × (expr_to_condition db lower parse l fs e m ≡ ok d)
        × ((r : Row) → eval r d ≡ eval r c)
  filter_condition-agrees same e c n h =
      let (good, says) = Means-ok db _ _ _ c (filter_condition-Means db l fs F t map_field e) h in
      let (good', agree) = typed-agrees same e n good in
      let (d, compiled, says') =
        Means-good db _ _ _ (expr_to_condition-Means db lower parse l fs m e) good' in
      (d, compiled, λ r. says' r ∙ agree r ∙ sym (says r))

  -- The typed compiler takes no comparison with null: it refuses the literal for its kind whatever the
  -- field, and a filter built by hand fails in build_binary_condition too. The compiler by names takes
  -- `eq null`, as IS NULL.
  pub null_filter-error :
      (name : Str) (f : F) (g : Field Col Row) (op : CompareOperator)
      → from_name F t l name ≡ some f
      → get db lower parse m name ≡ some g
      → (filter_condition db l fs F t map_field
            (compare_expr (identifier name) op (value Value.null))
          ≡ err (converting (type_mismatch (t.name f) (t.kind f) "null")))
        × ((c : Col) (o : FilterOp)
            → build_binary_condition db l fs c o Value.null ≡ err null_not_separate)
        × (expr_to_condition db lower parse l fs
              (compare_expr (identifier name) Ast.eq (value Value.null))
              m
            ≡ ok (db.add db.all (db.is_null g.col)))
  unfolding filter_condition convert_expr_to_filter_node convert_compare validate_value_type
      value_matches build_binary_condition odata_value_to_sea_value expr_to_condition
      compare_condition null_condition
  null_filter-error name f g op found found' =
      (rw (found, value_matches-null l (t.kind f)) refl, λ c o. refl, rw found' refl)
