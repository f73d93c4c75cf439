-- ===== src/Filter/TypedMeaning.antt =====
-- What a filter says of a row through the typed fields of a DTO, for filter.rs and sea_orm_filter.rs.
use hyperspot.Common.{Bool, false, ◌&&◌, Option, none, some, Str, text_key}
use hyperspot.Common.Results.{is_ok}
use hyperspot.Sql.{Sql, Truth, and3, or3, not3}
use hyperspot.Odata.Ast.{
  Literals, Expr, and_expr, or_expr, not_expr, compare_expr, function_expr, identifier, value,
}
use hyperspot.Paging.{FieldKind}
use hyperspot.Filter.Coerce.{FilterSql}
use hyperspot.Filter.Compile.{string_args}
use hyperspot.Filter.Meaning.{literal_test, text_test, text_function}
use hyperspot.Filter.Typed.{FilterField, value_matches, is_string_kind, from_name}
use hyperspot.Filter.Columns.{odata_value_to_sea_value}

module _ (db : Sql) (l : Literals) (fs : FilterSql db l) (F : Type 0) (t : FilterField F)
    (map_field : F → db.Col) where
  open db use {Cond, Col, Val, Row, eval}

  abbrev pub at_typed : Option F → (Option Val → Truth) → Row → Truth
  at_typed none test r = none
  at_typed (some f) test r = test (db.get r (map_field f))

  abbrev pub typed_call_holds : Option (Str → Str → Bool) → Option (Str × Str) → Row → Truth
  typed_call_holds (some test) (some (name, s)) r =
      at_typed (from_name F t l name) (text_test db l fs (test s)) r
  typed_call_holds none args r = none
  typed_call_holds (some test) none r = none

  -- What a filter says of a row. The literal of a comparison is read by its own type.
  unfoldable pub typed_holds : Expr l → Row → Truth
  typed_holds (and_expr a b) r = and3 (typed_holds a r) (typed_holds b r)
  typed_holds (or_expr a b) r = or3 (typed_holds a r) (typed_holds b r)
  typed_holds (not_expr x) r = not3 (typed_holds x r)
  typed_holds (compare_expr (identifier name) op (value v)) r =
      at_typed (from_name F t l name)
        (λ y. literal_test db op y (odata_value_to_sea_value db l fs v)) r
  typed_holds (function_expr fname args) r =
      typed_call_holds (text_function fname) (string_args args) r
  typed_holds e r = none

  abbrev pub with_typed : Option F → (FieldKind → Bool) → Bool
  with_typed none test = false
  with_typed (some f) test = test (t.kind f)

  abbrev pub typed_call_supported : Option (Str → Str → Bool) → Option (Str × Str) → Bool
  typed_call_supported (some test) (some (name, s)) =
      with_typed (from_name F t l name) is_string_kind
  typed_call_supported none args = false
  typed_call_supported (some test) none = false

  -- No null and no IN; a number needs a value in the database.
  unfoldable pub typed_supported : Expr l → Bool
  typed_supported (and_expr a b) = typed_supported a && typed_supported b
  typed_supported (or_expr a b) = typed_supported a && typed_supported b
  typed_supported (not_expr x) = typed_supported x
  typed_supported (compare_expr (identifier name) op (value v)) =
      with_typed (from_name F t l name)
        (λ kind. value_matches kind v && is_ok (odata_value_to_sea_value db l fs v))
  typed_supported (function_expr fname args) =
      typed_call_supported (text_function fname) (string_args args)
  typed_supported e = false
