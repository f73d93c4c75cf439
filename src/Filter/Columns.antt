-- ===== src/Filter/Columns.antt =====
-- sea_orm_filter.rs: typed filters as conditions on the columns that a mapper gives.
use hyperspot.Common.{none, some, ◌∷◌, [], ◌++◌, Str, if◌then◌else◌}
use hyperspot.Common.Results.{Result, ok, err, ok_or, map_err, ◌>>=◌}
use hyperspot.Sql.{Sql}
use hyperspot.Odata.Ast.{Literals, Value, Expr}
use hyperspot.Filter.Like.{escape_like}
use hyperspot.Filter.Coerce.{FilterSql}
use hyperspot.Filter.Compile.{is_null_literal}
use hyperspot.Filter.Typed.{
  FilterOp, FilterField, FilterError, convert_expr_to_filter_node, FilterNode, FilterNodes, binary,
  composite, not_node, no_nodes, nodes,
}

-- The errors are texts: one constructor for each.
pub data ConditionError (l : Literals) : Type 0 where
  invalid_composite_operator null_operator logical_in_binary : FilterOp → ConditionError l
  number_out_of_range null_not_separate : ConditionError l
  expected_string : Value l → ConditionError l

abbrev pub contains_pattern : Str → Str
contains_pattern s = b'%' ∷ (escape_like s ++ b'%' ∷ [])

abbrev pub starts_pattern : Str → Str
starts_pattern s = escape_like s ++ b'%' ∷ []

abbrev pub ends_pattern : Str → Str
ends_pattern s = b'%' ∷ escape_like s

unfoldable pub extract_string : {l : Literals} → Value l → Result (ConditionError l) Str
extract_string (Value.string s) = ok s
extract_string v = err (expected_string v)

module _ (db : Sql) (l : Literals) (fs : FilterSql db l) where
  open db use {Cond, Col, Val, all, any, add, negate}

  unfoldable pub odata_value_to_sea_value : Value l → Result (ConditionError l) Val
  odata_value_to_sea_value (Value.string s) = ok (fs.of_string s)
  odata_value_to_sea_value (Value.number n) = elim (fs.to_i64 n) [
    | some i ↦ ok i
    | none ↦ ok_or (fs.to_f64 n) number_out_of_range
  ]
  odata_value_to_sea_value (Value.bool b) = ok (fs.of_bool b)
  odata_value_to_sea_value (Value.uuid u) = ok (db.uuid u)
  odata_value_to_sea_value (Value.date_time t) = ok (fs.of_date_time t)
  odata_value_to_sea_value (Value.date d) = ok (fs.of_date d)
  odata_value_to_sea_value (Value.time t) = ok (fs.of_time t)
  odata_value_to_sea_value Value.null = err null_not_separate

  abbrev pub null_expr : FilterOp → Col → Result (ConditionError l) Cond
  null_expr FilterOp.eq c = ok (add all (db.is_null c))
  null_expr FilterOp.ne c = ok (add all (db.is_not_null c))
  null_expr op c = err (null_operator op)

  abbrev pub binary_expr : FilterOp → Col → Value l → Val → Result (ConditionError l) Cond
  binary_expr FilterOp.eq c v w = ok (db.eq c w)
  binary_expr FilterOp.ne c v w = ok (db.ne c w)
  binary_expr FilterOp.gt c v w = ok (db.gt c w)
  binary_expr FilterOp.ge c v w = ok (db.gte c w)
  binary_expr FilterOp.lt c v w = ok (db.lt c w)
  binary_expr FilterOp.le c v w = ok (db.lte c w)
  binary_expr FilterOp.contains c v w =
      extract_string v >>= λ s. ok (fs.like c (contains_pattern s))
  binary_expr FilterOp.starts_with c v w =
      extract_string v >>= λ s. ok (fs.like c (starts_pattern s))
  binary_expr FilterOp.ends_with c v w = extract_string v >>= λ s. ok (fs.like c (ends_pattern s))
  binary_expr op c v w = err (logical_in_binary op)

  unfoldable pub build_binary_condition : Col → FilterOp → Value l → Result (ConditionError l) Cond
  build_binary_condition c op v = odata_value_to_sea_value v >>= λ w.
      if is_null_literal v then null_expr op c else binary_expr op c v w >>= λ e. ok (add all e)

  -- `M::map_field`.
  module _ (F : Type 0) (map_field : F → Col) where
    abbrev pub base_condition : FilterOp → Result (ConditionError l) Cond
    base_condition FilterOp.and = ok all
    base_condition FilterOp.or = ok any
    base_condition op = err (invalid_composite_operator op)

    unfoldable mutual
      pub filter_node_to_condition : FilterNode F l → Result (ConditionError l) Cond
      filter_node_to_condition (binary field op v) = build_binary_condition (map_field field) op v
      filter_node_to_condition (composite op children) =
          base_condition op >>= λ base. add_children base children
      filter_node_to_condition (not_node inner) =
          filter_node_to_condition inner >>= λ c. ok (negate (add all c))

      -- The `try_fold`.
      pub add_children : Cond → FilterNodes F l → Result (ConditionError l) Cond
      add_children acc no_nodes = ok acc
      add_children acc (nodes child children) =
          filter_node_to_condition child >>= λ c. add_children (add acc c) children

-- `ODataError::InvalidFilter`, which has the text of either.
pub data InvalidFilter (l : Literals) : Type 0 where
  converting : FilterError → InvalidFilter l
  building : ConditionError l → InvalidFilter l

-- The step of `paginate_odata` that applies the query's filter.
unfoldable pub filter_condition :
    (db : Sql) (l : Literals) (fs : FilterSql db l) (F : Type 0) (t : FilterField F)
    (map_field : F → db.Col)
    → Expr l
    → Result (InvalidFilter l) db.Cond
filter_condition db l fs F t map_field e =
    map_err converting (convert_expr_to_filter_node F t l e) >>= λ n.
    map_err building (filter_node_to_condition db l fs F map_field n)
