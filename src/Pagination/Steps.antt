-- ===== src/Pagination/Steps.antt =====
-- The steps that a query goes through before its statement: the filter, the cursor and the order.

use hyperspot.Common.{
  ◌≡◌, sym, ap, ◌∙◌, Bool, true, ◌&&◌, Option, none, some, List, [], ◌∷◌, foldl, Str, text_key,
  ◌==◌, &&-true,
}
use hyperspot.Common.Results.{ok, ok_or, map_err, ◌>>=◌, ok-inj, bind-ok, map_err_ok, ok_or_ok}
use hyperspot.Sql.{Sql, is_true}
use hyperspot.Odata.Ast.{Literals, Expr}
use hyperspot.Odata.{SortDir, OrderKey, Wire, CursorV1, bwd, keep, invalid_order_by_field}
use hyperspot.Odata
use hyperspot.Paging.{
  FieldKind, FieldMap, get, BuildError, build_cursor_predicate, build_cursor_for_model,
}
use hyperspot.Paging.Pages.{beyond, columns, IsPrinted, built_keys, build_cursor_predicate-beyond}
use hyperspot.Filter.Coerce.{FilterSql}
use hyperspot.Filter.Compile.{expr_to_condition}
use hyperspot.Filter.Connectives.{Means-ok}
use hyperspot.Filter.Meaning.{holds}
use hyperspot.Filter.Compiled.{expr_to_condition-Means}
use hyperspot.Pagination.{
  ODataQuery, is_backward, apply_filter, apply_cursor, apply_odata_order_page,
}
use hyperspot.Pagination.Select.{PageSql}

module _ (db : Sql) (p : PageSql db) (lower : Str → Str) (parse : FieldKind → Str → Option db.Val)
    (l : Literals) (fs : FilterSql db l) (show : BuildError → Str) (Bytes : Type 0)
    (to_vec : Wire → Option Bytes) (base64_encode : Bytes → Str) where
  open db use {Col, Row, Select, restrict, takes, takes-restrict}

  -- What the query's filter says of a row; without a filter, yes.
  abbrev pub filter_says : FieldMap db lower parse → Option (Expr l) → Row → Bool
  filter_says m none r = true
  filter_says m (some e) r = is_true (holds db lower parse l fs m e r)

  -- The row sorts strictly after the row of the cursor, before it going backward; any row does if there
  -- is none.
  abbrev pub beyond_start : Bool → List (Col × SortDir) → Option Row → Row → Bool
  beyond_start backward keys none r = true
  beyond_start backward keys (some start) r = is_true (beyond db backward r start keys)

  -- The query has no cursor, or one that was built from the row.
  abbrev pub StartsAt : ODataQuery l → List OrderKey → FieldMap db lower parse → Option Row → Type 0
  StartsAt q order m none = q.cursor ≡ none
  StartsAt q order m (some row) =
      (c : CursorV1) × (dir : SortDir) × (hash : Option Str) × (direction : Str) × (q.cursor
        ≡ some c)
      × IsPrinted db lower parse m row
      × (build_cursor_for_model db lower parse row order m dir hash direction ≡ ok c)

  abbrev with_filter : Select → Option (Expr l) → FieldMap db lower parse → Odata.Result Select
  with_filter s o m = elim o [
    | some ast ↦
        map_err (λ e. Odata.invalid_filter (show e)) (expr_to_condition db lower parse l fs ast m)
        >>= λ c. ok (restrict s c)
    | none ↦ ok s
  ]

  with_filter-takes :
      (s s' : Select) (o : Option (Expr l)) (m : FieldMap db lower parse)
      → with_filter s o m ≡ ok s'
      → (r : Row) → takes s' r ≡ (takes s r && filter_says m o r)
  with_filter-takes s s' none m h r =
      ap (λ x. takes x r) (sym (ok-inj h)) ∙ sym (&&-true (takes s r))
  with_filter-takes s s' (some e) m h r =
      let (c, compiled, same) =
        bind-ok
          (map_err (λ e. Odata.invalid_filter (show e)) (expr_to_condition db lower parse l fs e m))
          (λ c. ok (restrict s c)) h in
      let (good, says) =
        Means-ok db _ _ _ c (expr_to_condition-Means db lower parse l fs m e)
          (map_err_ok _ _ compiled) in
      ap (λ x. takes x r) (sym (ok-inj same))
      ∙ takes-restrict s c r
      ∙ ap (λ b. takes s r && is_true b) (says r)

  pub apply_filter-takes :
      (s s' : Select) (q : ODataQuery l) (m : FieldMap db lower parse)
      → apply_filter db p lower parse l fs show Bytes to_vec base64_encode s q m ≡ ok s'
      → (r : Row) → takes s' r ≡ (takes s r && filter_says m q.filter r)
  unfolding apply_filter
  apply_filter-takes s s' q m h r = with_filter-takes s s' q.filter m h r

  -- The key that a cursor was built with is the one that its predicate is read in.
  built-direction :
      (m : FieldMap db lower parse) (row : Row) (order : List OrderKey) (dir : SortDir)
      (hash : Option Str) (direction : Str) (c : CursorV1)
      → build_cursor_for_model db lower parse row order m dir hash direction ≡ ok c
      → direction ≡ c.d
  built-direction m row order dir hash direction c built =
      let (ks, keys, same) = built_keys db lower parse m row order dir hash direction c built in
      ap (λ x. x.d) same

  restricted-takes :
      (s s' : Select) (c : CursorV1) (order : List OrderKey) (m : FieldMap db lower parse)
      (row : Row) (dir : SortDir) (hash : Option Str) (direction : Str)
      → IsPrinted db lower parse m row
      → build_cursor_for_model db lower parse row order m dir hash direction ≡ ok c
      → (map_err (λ e. Odata.invalid_cursor) (build_cursor_predicate db lower parse c order m)
          >>= λ cond. ok (restrict s cond))
        ≡ ok s'
      → (r : Row)
      → takes s' r
        ≡ (takes s r && is_true (beyond db (c.d == bwd) r row (columns db lower parse m order)))
  restricted-takes s s' c order m row dir hash direction printed built h r =
      let (cond, predicate, says) =
        build_cursor_predicate-beyond db lower parse m row order dir hash direction c printed
          built in
      let (cond', found, same) =
        bind-ok
          (map_err (λ e. Odata.invalid_cursor) (build_cursor_predicate db lower parse c order m))
          (λ k. ok (restrict s k)) h in
      let same_cond : cond' ≡ cond = ok-inj (sym (map_err_ok _ _ found) ∙ predicate) in
      ap (λ x. takes x r) (sym (ok-inj same))
      ∙ takes-restrict s cond' r
      ∙ ap (λ k. takes s r && is_true (db.eval r k)) same_cond
      ∙ ap (λ b. takes s r && is_true b) (says r)
      ∙ ap (λ d. takes s r && is_true (beyond db (d == bwd) r row (columns db lower parse m order)))
          (built-direction m row order dir hash direction c built)

  pub apply_cursor-takes :
      (s s' : Select) (q : ODataQuery l) (order : List OrderKey) (m : FieldMap db lower parse)
      (start : Option Row)
      → StartsAt q order m start
      → apply_cursor db p lower parse l fs show Bytes to_vec base64_encode s q order m ≡ ok s'
      → (r : Row)
      → takes s' r
        ≡ (takes s r && beyond_start (is_backward q) (columns db lower parse m order) start r)
  unfolding apply_cursor is_backward
  apply_cursor-takes s s' q order m none none_given h r =
      ap (λ x. takes x r) (sym (ok-inj (rw none_given at h))) ∙ sym (&&-true (takes s r))
  apply_cursor-takes s s' q order m (some row) (c, dir, hash, direction, given, printed, built) h
        r =
      rw given
        (restricted-takes s s' c order m row dir hash direction printed built (rw given at h) r)

  -- ORDER BY has the columns of the order, in turn.
  pub apply_odata_order_page-columns :
      (query query' : p.Query) (order : List OrderKey) (m : FieldMap db lower parse)
      → apply_odata_order_page db p lower parse l fs show Bytes to_vec base64_encode query order m
        ≡ ok query'
      → query' ≡ foldl (λ x (c, d). p.order_by x c d) query (columns db lower parse m order)
  unfolding apply_odata_order_page
  apply_odata_order_page-columns query query' [] m h = sym (ok-inj h)
  apply_odata_order_page-columns query query' (k ∷ order) m h =
      let (f, found, rest) =
        bind-ok (ok_or (get db lower parse m k.field) (invalid_order_by_field k.field)) _ h in
      rw (ok_or_ok _ _ found)
        (apply_odata_order_page-columns (p.order_by query f.col k.dir) query' order m rest)
