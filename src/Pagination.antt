-- ===== src/Pagination.antt =====
-- libs/modkit-db/src/odata/core.rs: paginate_with_odata, from the query to the page.
pub mod Select
pub mod Steps
mod Shown
pub mod Answer
pub mod Continued
pub mod Next
mod Tests
use hyperspot.Common.{
  ℕ, ◌+◌, ◌%◌, ◌^◌, Bool, true, false, Option, none, some, List, [], ◌∷◌, map, Str, text_key, ◌==◌,
  if◌then◌else◌,
}
use hyperspot.Common.Results.{ok, err, ok_or, map_err, ◌>>=◌}
use hyperspot.Sql.Defs.{Sql}
use hyperspot.Odata.Ast.{Literals, Expr}
use hyperspot.Odata.{
  SortDir, OrderKey, CursorV1, Wire, Result, fwd, bwd, encode, ensure_tiebreaker,
  from_signed_tokens, hashes_agree, reverse_directions, invalid_filter, filter_mismatch,
  invalid_cursor, invalid_order_by_field,
}
use hyperspot.Odata
use hyperspot.Paging.{
  FieldKind, FieldMap, get, BuildError, LimitCfg, clamp_limit, page_rows, build_cursor_predicate,
  build_cursor_for_model,
}
use hyperspot.Filter.Coerce.{FilterSql}
use hyperspot.Filter.Compile.{expr_to_condition}
use hyperspot.Pagination.Select.{PageSql}

pub record ODataQuery (l : Literals) : Type 0 where
  pub filter : Option (Expr l)
  pub order : List OrderKey
  pub limit : Option ℕ
  pub cursor : Option CursorV1
  pub filter_hash : Option Str

pub record PageInfo : Type 0 where
  pub next_cursor : Option Str
  pub prev_cursor : Option Str
  pub limit : ℕ

pub record Page (A : Type 0) : Type 0 where
  pub items : List A
  pub page_info : PageInfo

-- The effective order, from the tokens of a cursor or the order of the query.
unfoldable pub effective_order :
    {l : Literals} → ODataQuery l → Str × SortDir → Result (List OrderKey)
effective_order q (name, dir) = elim q.cursor [
  | some c ↦ map_err (λ e. invalid_cursor) (from_signed_tokens c.s)
  | none ↦ ok (ensure_tiebreaker q.order name dir)
]

unfoldable pub check_hash : {l : Literals} → ODataQuery l → Result (Unit {0})
check_hash q = elim q.cursor [
  | some c ↦ if hashes_agree q.filter_hash c.f then ok tt else err filter_mismatch
  | none ↦ ok tt
]

unfoldable pub is_backward : {l : Literals} → ODataQuery l → Bool
is_backward q = elim q.cursor [ some c ↦ c.d == bwd | none ↦ false ]

abbrev pub first_row {ℓ} : {A : Type ℓ} → List A → Option A
first_row [] = none
first_row (x ∷ xs) = some x

abbrev pub last_row {ℓ} : {A : Type ℓ} → List A → Option A
last_row [] = none
last_row (x ∷ []) = some x
last_row (x ∷ y ∷ xs) = last_row (y ∷ xs)

-- `show` gives the text of an error, `to_vec` and `base64_encode` are those of serde_json and base64.
module _ (db : Sql) (p : PageSql db) (lower : Str → Str) (parse : FieldKind → Str → Option db.Val)
    (l : Literals) (fs : FilterSql db l) (show : BuildError → Str) (Bytes : Type 0)
    (to_vec : Wire → Option Bytes) (base64_encode : Bytes → Str) where
  open db use {Row, Select, restrict}

  unfoldable pub apply_filter : Select → ODataQuery l → FieldMap db lower parse → Result Select
  apply_filter s q m = elim q.filter [
    | some ast ↦
        map_err (λ e. invalid_filter (show e)) (expr_to_condition db lower parse l fs ast m)
        >>= λ c. ok (restrict s c)
    | none ↦ ok s
  ]

  unfoldable pub apply_cursor :
      Select → ODataQuery l → List OrderKey → FieldMap db lower parse → Result Select
  apply_cursor s q order m = elim q.cursor [
    | some c ↦
        map_err (λ e. invalid_cursor) (build_cursor_predicate db lower parse c order m) >>= λ cond.
        ok (restrict s cond)
    | none ↦ ok s
  ]

  unfoldable pub apply_odata_order_page :
      p.Query → List OrderKey → FieldMap db lower parse → Result p.Query
  apply_odata_order_page query [] m = ok query
  apply_odata_order_page query (k ∷ order) m =
      ok_or (get db lower parse m k.field) (invalid_order_by_field k.field) >>= λ f.
      apply_odata_order_page (p.order_by query f.col k.dir) order m

  -- The cursor of a row, if there is one.
  abbrev pub cursor_of :
      Option Row
      → List OrderKey
      → FieldMap db lower parse
      → SortDir
      → Option Str
      → Str
      → Result (Option Str)
  cursor_of none order m dir hash direction = ok none
  cursor_of (some row) order m dir hash direction =
      build_cursor_for_model db lower parse row order m dir hash direction >>= λ c.
      ok_or (encode to_vec base64_encode c) invalid_cursor >>= λ token. ok (some token)

  unfoldable pub build_cursor :
      List Row
      → List OrderKey
      → FieldMap db lower parse
      → Str × SortDir
      → ODataQuery l
      → Bool
      → Str
      → Result (Option Str)
  build_cursor rows order m (name, dir) q last direction =
      cursor_of (if last then last_row rows else first_row rows) order m dir q.filter_hash direction

  unfoldable pub next_cursor :
      List Row
      → Bool
      → List OrderKey
      → FieldMap db lower parse
      → Str × SortDir
      → ODataQuery l
      → Result (Option Str)
  next_cursor rows has_more order m tiebreaker q =
      if is_backward q
      then build_cursor rows order m tiebreaker q true fwd
      else if has_more
      then build_cursor rows order m tiebreaker q true fwd
      else ok none

  unfoldable pub prev_cursor :
      List Row
      → Bool
      → List OrderKey
      → FieldMap db lower parse
      → Str × SortDir
      → ODataQuery l
      → Result (Option Str)
  prev_cursor rows has_more order m tiebreaker q =
      if is_backward q
      then if has_more then build_cursor rows order m tiebreaker q false bwd else ok none
      else elim q.cursor [
        | some c ↦ build_cursor rows order m tiebreaker q false bwd
        | none ↦ ok none
      ]

  -- From the fetched rows to the page.
  unfoldable pub page_of :
      {A : Type 0}
      → (Row → A)
      → ℕ
      → List Row
      → List OrderKey
      → FieldMap db lower parse
      → Str × SortDir
      → ODataQuery l
      → Result (Page A)
  page_of to_domain limit fetched order m tiebreaker q =
      let (rows, has_more) = page_rows (is_backward q) limit fetched in
      next_cursor rows has_more order m tiebreaker q >>= λ next.
      prev_cursor rows has_more order m tiebreaker q >>= λ prev. ok (record {
        items = map to_domain rows;
        page_info = record { next_cursor = next; prev_cursor = prev; limit = limit };
      })

  -- The table is an argument; `limit + 1` is a u64.
  unfoldable pub paginate_with_odata :
      {A : Type 0}
      → Select
      → List Row
      → ODataQuery l
      → FieldMap db lower parse
      → Str × SortDir
      → LimitCfg
      → (Row → A)
      → Result (Page A)
  paginate_with_odata select table q m tiebreaker cfg to_domain =
      let limit = clamp_limit q.limit cfg in
      effective_order q tiebreaker >>= λ order. check_hash q >>= λ u.
      apply_filter select q m >>= λ s. apply_cursor s q order m >>= λ s'.
      apply_odata_order_page (p.from s') (if is_backward q then reverse_directions order else order)
        m
      >>= λ query.
          ok_or (p.fetch_page table (p.limit query ((limit + 1) % 2 ^ 64))) Odata.db >>= λ rows.
          page_of to_domain limit rows order m tiebreaker q
