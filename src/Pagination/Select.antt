-- ===== src/Pagination/Select.antt =====
-- What the code relies on of sea_orm's ORDER BY and LIMIT: `Select` with an order and a bound.
use mathlib.Core.List.{Perm}
use hyperspot.Common.{ℕ, ◌≡◌, false, Option, some, List, [], ◌∷◌, foldl, filter, All}
use hyperspot.Sql.Defs.{Sql, is_true}
use hyperspot.Odata.{SortDir}
use hyperspot.Paging.{truncate}
use hyperspot.Paging.Pages.{beyond}

module _ (db : Sql) where
  open db use {Col, Row, Select, takes}

  -- No row sorts strictly after one that follows it; columns with NULL are left to the database.
  abbrev pub InOrder : List (Col × SortDir) → List Row → Type 0
  InOrder keys [] = Unit
  InOrder keys (r ∷ rs) =
      All (λ later. is_true (beyond db false r later keys) ≡ false) rs × InOrder keys rs

  abbrev pub Sorts : List (Col × SortDir) → List Row → List Row → Type 0
  Sorts keys rows sorted = Perm rows sorted × InOrder keys sorted

  -- `order_by` adds a key after the ones that are there.
  pub record PageSql : Type 1 where
    pub Query : Type 0
    pub from : Select → Query
    pub order_by : Query → Col → SortDir → Query
    pub limit : Query → ℕ → Query
    pub fetch_page : List Row → Query → Option (List Row)
    pub page-rows :
        (t : List Row) (s : Select) (keys : List (Col × SortDir)) (n : ℕ) {rs : List Row}
        → fetch_page t (limit (foldl (λ q (c, d). order_by q c d) (from s) keys) n) ≡ some rs
        → (sorted : List Row) × Sorts keys (filter (takes s) t) sorted × (rs ≡ truncate n sorted)
