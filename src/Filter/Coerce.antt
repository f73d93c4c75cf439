-- ===== src/Filter/Coerce.antt =====
-- What the filters use of sea_orm and of the number types, and `coerce` of core.rs.
use mathlib.Core.Option
use hyperspot.Common.{◌≡◌, Bool, false, Option, some, List, [], ◌∷◌, Str, String}
use hyperspot.Sql.Defs.{Sql}
use hyperspot.Odata.Ast.{Literals, Value, Expr, Exprs, none_left, more, value}
use hyperspot.Paging.{
  FieldKind, i64, f64, decimal, date_time_utc, uuid_kind, type_mismatch, non_literal_in_list, other,
  BuildResult, ok, err, ok_or, ◌>>=◌,
}
use hyperspot.Filter.Like

-- `sea_orm::Value` of the literals; `like` with its law; `impossible` is the raw text "1=0". The
-- number conversions are those of bigdecimal and rust_decimal, which may fail.
pub record FilterSql (db : Sql) (l : Literals) : Type 0 where
  pub of_string : Str → db.Val
  pub of_bool : Bool → db.Val
  pub of_date_time : l.DateTime → db.Val
  pub of_date : l.Date → db.Val
  pub of_time : l.Time → db.Val
  pub to_i64 : l.Number → Option db.Val
  pub to_f64 : l.Number → Option db.Val
  pub to_decimal : l.Number → Option db.Val
  pub like : db.Col → Str → db.Cond
  pub impossible : db.Cond
  pub text_of : db.Val → Str
  pub eval-like :
      (r : db.Row) (c : db.Col) (p : Str)
      → db.eval r (like c p) ≡ Option.map (λ x. Like.like p (text_of x)) (db.get r c)
  pub eval-impossible : (r : db.Row) → db.eval r impossible ≡ some false

-- The word of the error for a value of the wrong type.
abbrev pub got : {l : Literals} → Value l → String
got Value.null = "null"
got (Value.string s) = "string"
got (Value.number n) = "number"
got (Value.bool b) = "bool"
got (Value.uuid u) = "uuid"
got (Value.date_time t) = "datetime"
got (Value.date d) = "date"
got (Value.time t) = "time"

module _ (db : Sql) (l : Literals) (f : FilterSql db l) where
  unfoldable pub coerce : FieldKind → Value l → BuildResult db.Val
  coerce FieldKind.string (Value.string s) = ok (f.of_string s)
  coerce i64 (Value.number n) = ok_or (f.to_i64 n) (type_mismatch i64 "number")
  coerce f64 (Value.number n) = ok_or (f.to_f64 n) (type_mismatch f64 "number")
  coerce decimal (Value.number n) = ok_or (f.to_decimal n) (other "invalid decimal")
  coerce FieldKind.bool (Value.bool b) = ok (f.of_bool b)
  coerce uuid_kind (Value.uuid u) = ok (db.uuid u)
  coerce date_time_utc (Value.date_time t) = ok (f.of_date_time t)
  coerce FieldKind.date (Value.date d) = ok (f.of_date d)
  coerce FieldKind.time (Value.time t) = ok (f.of_time t)
  coerce expected v = err (type_mismatch expected (got v))

  -- One item of an IN list: only literals.
  abbrev pub coerce_item : FieldKind → Expr l → BuildResult db.Val
  coerce_item kind (value v) = coerce kind v
  coerce_item kind e = err non_literal_in_list

  unfoldable pub coerce_many : FieldKind → Exprs l → BuildResult (List db.Val)
  coerce_many kind none_left = ok []
  coerce_many kind (more e items) =
      let rest = coerce_many kind items in coerce_item kind e >>= λ v. rest >>= λ vs. ok (v ∷ vs)
