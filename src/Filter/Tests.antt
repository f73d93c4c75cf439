-- ===== src/Filter/Tests.antt =====
-- Filters on a table with one column, the texts of one character, and the theorems there.

use hyperspot.Common.{
  ℕ, ◌≡◌, refl, sym, ap, ap₂, arith, ◌∙◌, inl, inr, ◌↔◌, Bool, true, false, not, Option, none, some,
  List, [], ◌∷◌, ◌++◌, Str, if◌then◌else◌, Bool-cases, str_beq,
}
use hyperspot.Common.Results.{ok, err}
use hyperspot.Sql.Toy.{toy, Row, Cond}
use hyperspot.Odata.Ast.{
  Literals, Value, CompareOperator, Expr, Exprs, and_expr, or_expr, not_expr, compare_expr, in_expr,
  function_expr, identifier, value, none_left, more,
}
use hyperspot.Odata.Ast
use hyperspot.Paging.{FieldKind, Field, FieldMap, get}
use hyperspot.Filter.Like
use hyperspot.Filter.Coerce.{coerce_many}
use hyperspot.Filter.Compile.{ascii_lower, to_ascii_lowercase, startswith_name, expr_to_condition}
use hyperspot.Filter.Meaning.{holds, supported}
use hyperspot.Filter.Typed.{
  FilterOp, FilterField, from_name, type_mismatch, convert_expr_to_filter_node, convert_compare,
  validate_value_type, value_matches,
}
use hyperspot.Filter.Columns.{
  filter_condition, filter_node_to_condition, build_binary_condition, odata_value_to_sea_value,
  converting, null_not_separate,
}
use hyperspot.Filter.TypedMeaning.{typed_supported}
use hyperspot.Filter.Agreement.{SameFields, filter_condition-agrees, null_filter-error}
use hyperspot.Filter.Hash.{LiteralTexts, short_filter_hash}
use hyperspot.Filter.Spelling.{rename, short_filter_hash-rename}
use hyperspot.Filter.Toy.{literals, sql}
use hyperspot.Filter.Patterns.{like_patterns_iff}

abbrev lower : Str → Str
lower s = to_ascii_lowercase s

abbrev parse : FieldKind → Str → Option ℕ
parse kind s = none

abbrev letter_field : Field ℕ Row
letter_field = record { col = 0; kind = FieldKind.string; to_string_for_cursor = none }

abbrev fields : FieldMap toy lower parse
fields = ((b'x' ∷ []), letter_field) ∷ []

-- One typed field, `x`.
abbrev dto : FilterField (Unit {0})
dto = record { fields = tt ∷ []; name = λ u. b'x' ∷ []; kind = λ u. FieldKind.string }

abbrev column : Unit {0} → ℕ
column u = 0

same_fields : SameFields toy lower parse literals sql (Unit {0}) dto column fields
unfolding get from_name hyperspot.Common.Map.lookup
same_fields name = elim (Bool-cases (str_beq (b'x' ∷ []) (lower name))) [
  | inl e ↦ rw e refl
  | inr e ↦ rw e refl
]

-- startswith(x, 'a') or not x in ()
abbrev letters : Expr literals
letters =
    or_expr
      (function_expr startswith_name
        (more (identifier (b'x' ∷ [])) (more (value (Value.string (b'a' ∷ []))) none_left)))
      (not_expr (in_expr (identifier (b'x' ∷ [])) none_left))

supported-letters : supported toy lower parse literals sql fields letters ≡ true
unfolding supported get hyperspot.Common.Map.lookup coerce_many
supported-letters = refl

-- X starts with 'a', given as an upper-case name.
abbrev typed_letters : Expr literals
typed_letters =
    and_expr
      (function_expr startswith_name
        (more (identifier (b'X' ∷ [])) (more (value (Value.string (b'a' ∷ []))) none_left)))
      (compare_expr (identifier (b'x' ∷ [])) Ast.ne (value (Value.string (b'b' ∷ []))))

typed_supported-letters :
    typed_supported toy literals sql (Unit {0}) dto column typed_letters ≡ true
unfolding typed_supported from_name value_matches odata_value_to_sea_value
typed_supported-letters = refl

abbrev not_b : Expr literals
not_b = compare_expr (identifier (b'X' ∷ [])) Ast.ne (value (Value.string (b'b' ∷ [])))

abbrev not_b_condition : Cond
not_b_condition = toy.add toy.all (toy.ne 0 b'b')

not_b_compiled : filter_condition toy literals sql (Unit {0}) dto column not_b ≡ ok not_b_condition
unfolding filter_condition convert_expr_to_filter_node convert_compare validate_value_type
    value_matches from_name filter_node_to_condition build_binary_condition odata_value_to_sea_value
not_b_compiled = refl

filter_condition-agrees_example :
    (d : Cond) × (expr_to_condition toy lower parse literals sql not_b fields ≡ ok d)
    × ((r : Row) → toy.eval r d ≡ toy.eval r not_b_condition)
filter_condition-agrees_example =
    filter_condition-agrees toy lower parse literals sql (Unit {0}) dto column fields same_fields
      not_b not_b_condition refl not_b_compiled

x_typed : from_name (Unit {0}) dto literals (b'x' ∷ []) ≡ some tt
unfolding from_name
x_typed = refl

x_field : get toy lower parse fields (b'x' ∷ []) ≡ some letter_field
unfolding get hyperspot.Common.Map.lookup
x_field = refl

null_filter-error_example :
    (filter_condition toy literals sql
        (Unit {0})
        dto
        column
        (compare_expr (identifier (b'x' ∷ [])) Ast.ne (value Value.null))
      ≡ err (converting (type_mismatch (b'x' ∷ []) FieldKind.string "null")))
    × ((c : ℕ) (o : FilterOp)
        → build_binary_condition toy literals sql c o Value.null ≡ err null_not_separate)
    × (expr_to_condition toy lower parse literals sql
          (compare_expr (identifier (b'x' ∷ [])) Ast.eq (value Value.null))
          fields
        ≡ ok (toy.add toy.all (toy.is_null 0)))
null_filter-error_example =
    null_filter-error toy lower parse literals sql (Unit {0}) dto column fields (b'x' ∷ []) tt
      letter_field Ast.ne x_typed x_field

abbrev percent : Str
percent = b'%' ∷ b'_' ∷ []

like_patterns_iff_example :
    ((Like.like (Like.like_starts percent) (percent ++ b'a' ∷ []) ≡ true)
      ↔ ((after : Str) × (percent ++ b'a' ∷ [] ≡ percent ++ after)))
    × ((Like.like (Like.like_ends percent) (percent ++ b'a' ∷ []) ≡ true)
        ↔ ((before : Str) × (percent ++ b'a' ∷ [] ≡ before ++ percent)))
    × ((Like.like (Like.like_contains percent) (percent ++ b'a' ∷ []) ≡ true)
        ↔ ((before after : Str) × (percent ++ b'a' ∷ [] ≡ before ++ (percent ++ after))))
like_patterns_iff_example = like_patterns_iff percent (percent ++ b'a' ∷ [])

abbrev texts : LiteralTexts literals
texts = record {
  number = λ n. [];
  uuid = λ u. [];
  date_time = λ t. [];
  date = λ d. [];
  time = λ t. [];
}

ascii_lower_idem : (c : ℕ) → ascii_lower (ascii_lower c) ≡ ascii_lower c
ascii_lower_idem c = ground arith

lower_idem : (s : Str) → lower (lower s) ≡ lower s
lower_idem [] = refl
lower_idem (c ∷ s) = ap₂ ◌∷◌ (ascii_lower_idem c) (lower_idem s)

-- `X eq 'a'`, and `x eq 'a'` by `lower`.
abbrev in_capitals : Expr literals
in_capitals = compare_expr (identifier (b'X' ∷ [])) Ast.eq (value (Value.string (b'a' ∷ [])))

short_filter_hash-rename_example :
    (short_filter_hash literals texts lower (λ s. s) (some (rename lower in_capitals))
      ≡ short_filter_hash literals texts lower (λ s. s) (some in_capitals))
    × (supported toy lower parse literals sql fields (rename lower in_capitals)
        ≡ supported toy lower parse literals sql fields in_capitals)
    × ((r : Row)
        → holds toy lower parse literals sql fields (rename lower in_capitals) r
          ≡ holds toy lower parse literals sql fields in_capitals r)
short_filter_hash-rename_example =
    short_filter_hash-rename toy lower parse literals sql texts lower lower_idem (λ s. s) fields
      in_capitals
