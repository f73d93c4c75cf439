-- ===== src/Filter/Hash.antt =====
-- libs/modkit-odata/src/pagination.rs: the hash of a filter, which a cursor keeps.
use mathlib.Core.Option
use hyperspot.Common.{ℕ, true, false, Option, [], ◌∷◌, ◌++◌, Str}
use hyperspot.Odata.Ast.{
  Literals, Value, CompareOperator, ne, gt, ge, lt, le, Expr, Exprs, none_left, more, and_expr,
  or_expr, not_expr, compare_expr, in_expr, function_expr, identifier, value,
}
use hyperspot.Odata.Ast

abbrev pub op_str : CompareOperator → Str
op_str Ast.eq = b'E' ∷ b'Q' ∷ []
op_str ne = b'N' ∷ b'E' ∷ []
op_str gt = b'G' ∷ b'T' ∷ []
op_str ge = b'G' ∷ b'E' ∷ []
op_str lt = b'L' ∷ b'T' ∷ []
op_str le = b'L' ∷ b'E' ∷ []

-- The words of the normal form, each with its parenthesis.
abbrev pub and_str : Str
and_str = b'A' ∷ b'N' ∷ b'D' ∷ b'(' ∷ []

abbrev pub or_str : Str
or_str = b'O' ∷ b'R' ∷ b'(' ∷ []

abbrev pub not_str : Str
not_str = b'N' ∷ b'O' ∷ b'T' ∷ b'(' ∷ []

abbrev pub cmp_str : Str
cmp_str = b'C' ∷ b'M' ∷ b'P' ∷ b'(' ∷ []

abbrev pub in_str : Str
in_str = b'I' ∷ b'N' ∷ b'(' ∷ []

abbrev pub fn_str : Str
fn_str = b'F' ∷ b'N' ∷ b'(' ∷ []

abbrev pub id_str : Str
id_str = b'I' ∷ b'D' ∷ b'(' ∷ []

-- `format!("NAME({})", inner)`, for a name with its parenthesis.
abbrev pub enclosed : Str → Str → Str
enclosed name inner = name ++ (inner ++ b')' ∷ [])

abbrev pub comma : Str → Str → Str
comma a b = a ++ b',' ∷ b

-- What bigdecimal, uuid and chrono print.
pub record LiteralTexts (l : Literals) : Type 0 where
  pub number : l.Number → Str
  pub uuid : ℕ → Str
  pub date_time : l.DateTime → Str
  pub date : l.Date → Str
  pub time : l.Time → Str

module _ (l : Literals) (texts : LiteralTexts l) (lower : Str → Str) where
  unfoldable pub normalize_value : Value l → Str
  normalize_value Value.null = b'N' ∷ b'U' ∷ b'L' ∷ b'L' ∷ []
  normalize_value (Value.bool true) =
      enclosed (b'B' ∷ b'O' ∷ b'O' ∷ b'L' ∷ b'(' ∷ []) (b't' ∷ b'r' ∷ b'u' ∷ b'e' ∷ [])
  normalize_value (Value.bool false) =
      enclosed (b'B' ∷ b'O' ∷ b'O' ∷ b'L' ∷ b'(' ∷ []) (b'f' ∷ b'a' ∷ b'l' ∷ b's' ∷ b'e' ∷ [])
  normalize_value (Value.number n) = enclosed (b'N' ∷ b'U' ∷ b'M' ∷ b'(' ∷ []) (texts.number n)
  normalize_value (Value.uuid u) =
      enclosed (b'U' ∷ b'U' ∷ b'I' ∷ b'D' ∷ b'(' ∷ []) (lower (texts.uuid u))
  normalize_value (Value.date_time t) =
      enclosed (b'D' ∷ b'A' ∷ b'T' ∷ b'E' ∷ b'T' ∷ b'I' ∷ b'M' ∷ b'E' ∷ b'(' ∷ [])
        (texts.date_time t)
  normalize_value (Value.date d) = enclosed (b'D' ∷ b'A' ∷ b'T' ∷ b'E' ∷ b'(' ∷ []) (texts.date d)
  normalize_value (Value.time t) = enclosed (b'T' ∷ b'I' ∷ b'M' ∷ b'E' ∷ b'(' ∷ []) (texts.time t)
  normalize_value (Value.string s) = enclosed (b'S' ∷ b'T' ∷ b'R' ∷ b'(' ∷ []) s

  unfoldable mutual
    pub normalize_expr : Expr l → Str
    normalize_expr (and_expr a b) = enclosed and_str (comma (normalize_expr a) (normalize_expr b))
    normalize_expr (or_expr a b) = enclosed or_str (comma (normalize_expr a) (normalize_expr b))
    normalize_expr (not_expr e) = enclosed not_str (normalize_expr e)
    normalize_expr (compare_expr a op b) =
        enclosed cmp_str (comma (normalize_expr a) (comma (op_str op) (normalize_expr b)))
    normalize_expr (in_expr e list) =
        enclosed in_str (comma (normalize_expr e) (normalize_list list))
    normalize_expr (function_expr name args) =
        enclosed fn_str (comma (lower name) (normalize_list args))
    normalize_expr (identifier name) = enclosed id_str (lower name)
    normalize_expr (value v) = normalize_value v

    -- The list's texts joined by commas.
    pub normalize_list : Exprs l → Str
    normalize_list none_left = []
    normalize_list (more e list) = normalize_after (normalize_expr e) list

    pub normalize_after : Str → Exprs l → Str
    normalize_after s none_left = s
    normalize_after s (more e list) = comma s (normalize_after (normalize_expr e) list)

  unfoldable pub normalize_filter_for_hash : Expr l → Str
  normalize_filter_for_hash e = normalize_expr e

  -- `digest` is SHA-256, cut to eight bytes and written in hex.
  unfoldable pub short_filter_hash : (Str → Str) → Option (Expr l) → Option Str
  short_filter_hash digest o = Option.map (λ e. digest (normalize_filter_for_hash e)) o
