-- ===== src/Pagination/Answer.antt =====
-- The page that paginate_with_odata answers.
use hyperspot.Common.{
  ℕ, ◌≡◌, Bool, ◌&&◌, Option, List, map, filter, length, ltb, Str, text_key, if◌then◌else◌,
}
use hyperspot.Common.Results.{ok}
use hyperspot.Sql.{Sql}
use hyperspot.Odata.Ast.{Literals}
use hyperspot.Odata.{SortDir, OrderKey, Wire, reverse_directions}
use hyperspot.Odata
use hyperspot.Paging.{FieldKind, FieldMap, BuildError, LimitCfg, clamp_limit, truncate}
use hyperspot.Paging.Pages.{columns}
use hyperspot.Filter.Coerce.{FilterSql}
use hyperspot.Pagination.{ODataQuery, Page, is_backward, next_cursor, prev_cursor}
use hyperspot.Pagination.Select.{PageSql, Sorts}
use hyperspot.Pagination.Shown.{display}
use hyperspot.Pagination.Steps.{filter_says, beyond_start}

module _ (db : Sql) (p : PageSql db) (lower : Str → Str) (parse : FieldKind → Str → Option db.Val)
    (l : Literals) (fs : FilterSql db l) (show : BuildError → Str) (Bytes : Type 0)
    (to_vec : Wire → Option Bytes) (base64_encode : Bytes → Str) where
  open db use {Col, Row, Select, takes}

  -- The rows that the page is about.
  abbrev pub wanted :
      Select → ODataQuery l → FieldMap db lower parse → List OrderKey → Option Row → Row → Bool
  wanted s q m order start r =
      (takes s r && filter_says db p lower parse l fs show Bytes to_vec base64_encode m q.filter r)
      && beyond_start db p lower parse l fs show Bytes to_vec base64_encode (is_backward q)
          (columns db lower parse m order) start r

  abbrev pub statement_order : ODataQuery l → List OrderKey → List OrderKey
  statement_order q order = if is_backward q then reverse_directions order else order

  -- The first `limit` of the wanted rows in the statement's order, shown in the effective order, and the
  -- cursors of the rows at its ends, where the code gives them.
  pub record IsPage {A : Type 0} (s : Select) (table : List Row) (q : ODataQuery l)
      (m : FieldMap db lower parse) (tiebreaker : Str × SortDir) (cfg : LimitCfg)
      (to_domain : Row → A) (order : List OrderKey) (start : Option Row) (page : Page A)
      : Type 0 where
    pub sorted : List Row
    pub sorts :
        Sorts db
          (columns db lower parse m (statement_order q order))
          (filter (wanted s q m order start) table)
          sorted
    pub shown : List Row
    pub shown-truncate : shown ≡ display (is_backward q) (truncate (clamp_limit q.limit cfg) sorted)
    pub items : page.items ≡ map to_domain shown
    pub limit : page.page_info.limit ≡ clamp_limit q.limit cfg
    pub next :
        next_cursor db p lower parse l fs show Bytes to_vec base64_encode shown
          (ltb (clamp_limit q.limit cfg) (length sorted))
          order
          m
          tiebreaker
          q
        ≡ ok page.page_info.next_cursor
    pub prev :
        prev_cursor db p lower parse l fs show Bytes to_vec base64_encode shown
          (ltb (clamp_limit q.limit cfg) (length sorted))
          order
          m
          tiebreaker
          q
        ≡ ok page.page_info.prev_cursor

  abbrev next_of :
      List Row
      → Bool
      → List OrderKey
      → FieldMap db lower parse
      → Str × SortDir
      → ODataQuery l
      → Odata.Result (Option Str)
  next_of rows more order m tiebreaker q =
      next_cursor db p lower parse l fs show Bytes to_vec base64_encode rows more order m tiebreaker
        q

  abbrev prev_of :
      List Row
      → Bool
      → List OrderKey
      → FieldMap db lower parse
      → Str × SortDir
      → ODataQuery l
      → Odata.Result (Option Str)
  prev_of rows more order m tiebreaker q =
      prev_cursor db p lower parse l fs show Bytes to_vec base64_encode rows more order m tiebreaker
        q

  -- What of a page comes from which rows.
  abbrev Shows :
      {A : Type 0}
      → (Row → A)
      → ℕ
      → List Row
      → Bool
      → List OrderKey
      → FieldMap db lower parse
      → Str × SortDir
      → ODataQuery l
      → Page A
      → Type 0
  Shows to_domain limit rows more order m tiebreaker q page =
      (page.items ≡ map to_domain rows)
      × (page.page_info.limit ≡ limit)
      × (next_of rows more order m tiebreaker q ≡ ok page.page_info.next_cursor)
      × (prev_of rows more order m tiebreaker q ≡ ok page.page_info.prev_cursor)
