-- ===== src/Filter/Conditions.antt =====
-- What a typed filter says of a row, and that filter_node_to_condition of sea_orm_filter.rs answers
-- with a condition that says it.
use mathlib.Core.Path.{fun_ext}
use mathlib.Core.Option
use hyperspot.Common.{◌≡◌, refl, ap, ◌∙◌, Bool, true, false, ◌&&◌, Option, none, [], ◌∷◌, Str}
use hyperspot.Common.Results.{Result, ok, err, ◌>>=◌, is_ok}
use hyperspot.Sql.{Sql, Truth}
use hyperspot.Odata.Ast.{Literals, Value}
use hyperspot.Odata.Ast
use hyperspot.Filter.Like
use hyperspot.Filter.Like.{
  like_escape, escape_like, like_contains, like_starts, like_ends, is_special,
}
use hyperspot.Filter.Patterns.{
  starts_with, ends_with, contains_text, like-starts_with, like-ends_with, like-contains_text,
}
use hyperspot.Filter.Coerce.{FilterSql}
use hyperspot.Filter.Connectives.{Means, eval-single}
use hyperspot.Filter.Meaning.{literal_test, text_test}
use hyperspot.Filter.Typed.{FilterOp}
use hyperspot.Filter.Columns.{
  ConditionError, contains_pattern, starts_pattern, ends_pattern, extract_string,
  odata_value_to_sea_value, binary_expr, build_binary_condition,
}

-- The two loops that escape a pattern.
escape_like-like_escape : (s : Str) → escape_like s ≡ like_escape s
unfolding escape_like like_escape
escape_like-like_escape [] = refl
escape_like-like_escape (c ∷ s) = rw (escape_like-like_escape s) refl

abbrev pub is_string : {l : Literals} → Value l → Bool
is_string (Value.string s) = true
is_string v = false

module _ (db : Sql) (l : Literals) (fs : FilterSql db l) where
  open db use {Cond, Col, Val, Row, all, any, add, eval}

  abbrev pub string_test : (Str → Str → Bool) → Value l → Option Val → Truth
  string_test test (Value.string s) x = text_test db l fs (test s) x
  string_test test v x = none

  -- What an operation says of a column's value, by the literal and the database's value for it.
  abbrev pub op_test : FilterOp → Value l → Result (ConditionError l) Val → Option Val → Truth
  op_test FilterOp.eq v x y = literal_test db Ast.eq y x
  op_test FilterOp.ne v x y = literal_test db Ast.ne y x
  op_test FilterOp.gt v x y = literal_test db Ast.gt y x
  op_test FilterOp.ge v x y = literal_test db Ast.ge y x
  op_test FilterOp.lt v x y = literal_test db Ast.lt y x
  op_test FilterOp.le v x y = literal_test db Ast.le y x
  op_test FilterOp.contains v x y = string_test contains_text v y
  op_test FilterOp.starts_with v x y = string_test starts_with v y
  op_test FilterOp.ends_with v x y = string_test ends_with v y
  op_test op v x y = none

  -- Text functions want a string; the connectives are no operations on a field.
  abbrev pub op_takes : FilterOp → Value l → Bool
  op_takes FilterOp.and v = false
  op_takes FilterOp.or v = false
  op_takes FilterOp.contains v = is_string v
  op_takes FilterOp.starts_with v = is_string v
  op_takes FilterOp.ends_with v = is_string v
  op_takes op v = true

  abbrev pub binary_supported : FilterOp → Value l → Bool
  binary_supported op v = is_ok (odata_value_to_sea_value db l fs v) && op_takes op v

  text-Means :
      (c : Col) (pattern : Str → Str) (test : Str → Str → Bool) (v : Value l)
      → ((s u : Str) → Like.like (pattern s) u ≡ test s u)
      → Means db
          (is_string v)
          (λ r. string_test test v (db.get r c))
          ((extract_string v >>= λ s. ok (fs.like c (pattern s))) >>= λ e. ok (add all e))
  unfolding extract_string
  text-Means c pattern test (Value.string s) h = (
    refl,
    λ r.
        eval-single db r _
        ∙ fs.eval-like r c (pattern s)
        ∙ ap (λ p. Option.map p (db.get r c)) (fun_ext (λ y. h s (fs.text_of y))),
  )
  text-Means c pattern test v h = refl

  pattern-test :
      (p q : Str → Str) (test : Str → Str → Bool)
      → ((s : Str) → p s ≡ q s)
      → ((s u : Str) → Like.like (q s) u ≡ test s u)
      → (s u : Str) → Like.like (p s) u ≡ test s u
  pattern-test p q test same h s u = ap (λ x. Like.like x u) (same s) ∙ h s u

  contains_pattern-lem : (s : Str) → contains_pattern s ≡ like_contains s
  unfolding like_contains
  contains_pattern-lem s = rw (escape_like-like_escape s) refl

  starts_pattern-lem : (s : Str) → starts_pattern s ≡ like_starts s
  unfolding like_starts
  starts_pattern-lem s = rw (escape_like-like_escape s) refl

  ends_pattern-lem : (s : Str) → ends_pattern s ≡ like_ends s
  unfolding like_ends
  ends_pattern-lem s = rw (escape_like-like_escape s) refl

  op-Means :
      (op : FilterOp) (c : Col) (v : Value l) (x : Result (ConditionError l) Val)
      → Means db
          (is_ok x && op_takes op v)
          (λ r. op_test op v x (db.get r c))
          (x >>= λ w. binary_expr db l fs op c v w >>= λ e. ok (add all e))
  op-Means op c v (err e) = refl
  op-Means FilterOp.eq c v (ok w) = (refl, λ r. eval-single db r _ ∙ db.eval-eq r c w)
  op-Means FilterOp.ne c v (ok w) = (refl, λ r. eval-single db r _ ∙ db.eval-ne r c w)
  op-Means FilterOp.gt c v (ok w) = (refl, λ r. eval-single db r _ ∙ db.eval-gt r c w)
  op-Means FilterOp.ge c v (ok w) = (refl, λ r. eval-single db r _ ∙ db.eval-gte r c w)
  op-Means FilterOp.lt c v (ok w) = (refl, λ r. eval-single db r _ ∙ db.eval-lt r c w)
  op-Means FilterOp.le c v (ok w) = (refl, λ r. eval-single db r _ ∙ db.eval-lte r c w)
  op-Means FilterOp.contains c v (ok w) =
      text-Means c contains_pattern contains_text v
        (pattern-test _ _ _ contains_pattern-lem like-contains_text)
  op-Means FilterOp.starts_with c v (ok w) =
      text-Means c starts_pattern starts_with v
        (pattern-test _ _ _ starts_pattern-lem like-starts_with)
  op-Means FilterOp.ends_with c v (ok w) =
      text-Means c ends_pattern ends_with v (pattern-test _ _ _ ends_pattern-lem like-ends_with)
  op-Means FilterOp.and c v (ok w) = refl
  op-Means FilterOp.or c v (ok w) = refl

  abbrev pub binary_test : FilterOp → Value l → Option Val → Truth
  binary_test op v y = op_test op v (odata_value_to_sea_value db l fs v) y

  pub build_binary_condition-Means :
      (c : Col) (op : FilterOp) (v : Value l)
      → Means db
          (binary_supported op v)
          (λ r. binary_test op v (db.get r c))
          (build_binary_condition db l fs c op v)
  unfolding build_binary_condition odata_value_to_sea_value
  build_binary_condition-Means c op Value.null = refl
  build_binary_condition-Means c op (Value.bool b) =
      op-Means op c (Value.bool b) (odata_value_to_sea_value db l fs (Value.bool b))
  build_binary_condition-Means c op (Value.number b) =
      op-Means op c (Value.number b) (odata_value_to_sea_value db l fs (Value.number b))
  build_binary_condition-Means c op (Value.uuid b) =
      op-Means op c (Value.uuid b) (odata_value_to_sea_value db l fs (Value.uuid b))
  build_binary_condition-Means c op (Value.date_time b) =
      op-Means op c (Value.date_time b) (odata_value_to_sea_value db l fs (Value.date_time b))
  build_binary_condition-Means c op (Value.date b) =
      op-Means op c (Value.date b) (odata_value_to_sea_value db l fs (Value.date b))
  build_binary_condition-Means c op (Value.time b) =
      op-Means op c (Value.time b) (odata_value_to_sea_value db l fs (Value.time b))
  build_binary_condition-Means c op (Value.string b) =
      op-Means op c (Value.string b) (odata_value_to_sea_value db l fs (Value.string b))
