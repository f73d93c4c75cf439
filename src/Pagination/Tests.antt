-- ===== src/Pagination/Tests.antt =====
-- A page of a table with one column, and a database that fails on rows that are not in order.
use mathlib.Core.List.{Perm, Perm-prop}
use mathlib.Core.List
use hyperspot.Common.{
  ℕ, ◌+◌, ◌<◌, ◌^◌, ◌≡◌, refl, sym, ap, subst, ◌∙◌, inl, inr, Bool, true, false, not, ◌&&◌,
  and-true, Option, none, some, List, [], ◌∷◌, ◌++◌, foldl, filter, All, Str, text_key,
  if◌then◌else◌, Bool-cases, arith,
}
use hyperspot.Common.Map
use hyperspot.Sql.Toy.{toy, Row, Cond}
use hyperspot.Sql.{is_true}
use hyperspot.Odata.Ast.{Value, compare_expr, identifier, value}
use hyperspot.Odata.Ast
use hyperspot.Filter.Toy.{literals, sql}
use hyperspot.Odata.{
  SortDir, asc, desc, OrderKey, CursorV1, Wire, fwd, bwd, to_signed_tokens, signed_token,
}
use hyperspot.Paging.{
  FieldKind, i64, Field, FieldMap, BuildError, LimitCfg, truncate, get, clamp_limit,
  build_cursor_for_model, model_keys, encode_model_key,
}
use hyperspot.Paging.Pages.{beyond}
use hyperspot.Odata
use hyperspot.Filter.Coerce.{coerce}
use hyperspot.Pagination.{
  ODataQuery, Page, effective_order, is_backward, next_cursor, prev_cursor, build_cursor,
}
use hyperspot.Pagination.Select.{PageSql, InOrder, Sorts}
use hyperspot.Pagination.Answer.{IsPage}

abbrev Keys : Type 0
Keys = List (ℕ × SortDir)

record Query : Type 0 where
  select : List Cond
  keys : Keys
  bound : Option ℕ

abbrev none_after : Keys → Row → List Row → Bool
none_after keys r [] = true
none_after keys r (later ∷ rs) =
    not (is_true (beyond toy false r later keys)) && none_after keys r rs

abbrev in_order : Keys → List Row → Bool
in_order keys [] = true
in_order keys (r ∷ rs) = none_after keys r rs && in_order keys rs

abbrev bounded : Option ℕ → List Row → List Row
bounded none rows = rows
bounded (some n) rows = truncate n rows

abbrev fetch_page : List Row → Query → Option (List Row)
fetch_page t q =
    let rows = filter (toy.takes q.select) t in
    if in_order q.keys rows then some (bounded q.bound rows) else none

none_after-All :
    (keys : Keys) (r : Row) (rs : List Row)
    → none_after keys r rs ≡ true
    → All (λ later. is_true (beyond toy false r later keys) ≡ false) rs
none_after-All keys r [] h = tt
none_after-All keys r (later ∷ rs) h =
    let (here, rest) = and-true _ _ h in (ground arith, none_after-All keys r rs rest)

in_order-InOrder : (keys : Keys) (rs : List Row) → in_order keys rs ≡ true → InOrder toy keys rs
in_order-InOrder keys [] h = tt
in_order-InOrder keys (r ∷ rs) h =
    let (here, rest) = and-true _ _ h in
    (none_after-All keys r rs here, in_order-InOrder keys rs rest)

abbrev order_by : Query → ℕ → SortDir → Query
order_by q c d = record q { keys = q.keys ++ (c, d) ∷ [] }

abbrev from_select : List Cond → Query
from_select s = record { select = s; keys = []; bound = none }

ordered-keys :
    (keys : Keys) (q : Query)
    → foldl (λ x (c, d). order_by x c d) q keys ≡ record q { keys = q.keys ++ keys }
ordered-keys [] q = ap (λ k. record q { keys = k }) (sym (List.append-nil q.keys))
ordered-keys ((c, d) ∷ keys) q =
    ordered-keys keys (order_by q c d)
    ∙ ap (λ k. record q { keys = k }) (List.append_assoc q.keys ((c, d) ∷ []) keys)

fetched-sorted :
    (t : List Row) (s : List Cond) (keys : Keys) (n : ℕ) (rs : List Row)
    → fetch_page t (record { select = s; keys = keys; bound = some n }) ≡ some rs
    → (sorted : List Row) × Sorts toy keys (filter (toy.takes s) t) sorted
      × (rs ≡ truncate n sorted)
fetched-sorted t s keys n rs h =
    let rows = filter (toy.takes s) t in
    elim (Bool-cases (in_order keys rows)) [
      | inl e ↦
          let found : some (truncate n rows) ≡ some rs = rw e at h in
          (rows, (List.Perm.refl rows, in_order-InOrder keys rows e), cc)
      | inr e ↦ let gone : none ≡ some rs = rw e at h in cc
    ]

abbrev pages : PageSql toy
pages = record {
  Query = Query;
  from = from_select;
  order_by = order_by;
  limit = λ q n. record q { bound = some n };
  fetch_page = fetch_page;
  page-rows = λ t s keys n {rs} h. fetched-sorted t s keys n rs (
      subst (λ q. fetch_page t (record q { bound = some n }) ≡ some rs)
        (ordered-keys keys (from_select s)) h);
}

abbrev same_text : Str → Str
same_text s = s

abbrev read_number : FieldKind → Str → Option ℕ
read_number kind [] = none
read_number kind (n ∷ s) = some n

abbrev print_row : Row → Str
print_row [] = 0 ∷ []
print_row (none ∷ r) = 0 ∷ []
print_row (some n ∷ r) = n ∷ []

abbrev number_field : Field ℕ Row
number_field = record { col = 0; kind = i64; to_string_for_cursor = some print_row }

abbrev columns_by_name : FieldMap toy same_text read_number
columns_by_name = (b'n' ∷ [], number_field) ∷ []

abbrev seven : Row
seven = some 7 ∷ []

abbrev descending : List OrderKey
descending = record { field = b'n' ∷ []; dir = desc } ∷ []

abbrev after_seven : CursorV1
after_seven = record { k = (7 ∷ []) ∷ []; o = desc; s = b'-' ∷ b'n' ∷ []; f = none; d = fwd }

-- Below 7, not 3, in descending order.
abbrev query : ODataQuery literals
query = record {
  filter = some (compare_expr (identifier (b'n' ∷ [])) Ast.ne (value (Value.number 3)));
  order = [];
  limit = some 1;
  cursor = some after_seven;
  filter_hash = none;
}

abbrev table : List Row
table = (some 9 ∷ []) ∷ (some 7 ∷ []) ∷ (some 5 ∷ []) ∷ (some 3 ∷ []) ∷ (some 1 ∷ []) ∷ []

abbrev tiebreaker : Str × SortDir
tiebreaker = (b'n' ∷ [], desc)

abbrev limits : LimitCfg
limits = record { default = 25; max = 1000 }

abbrev show_error : BuildError → Str
show_error e = []

abbrev token_of : Wire → Str
token_of w = elim w.k [ [] ↦ [] | k ∷ ks ↦ k ]

abbrev page : Page Row
page = record {
  items = (some 5 ∷ []) ∷ [];
  page_info = record { next_cursor = some (5 ∷ []); prev_cursor = some (5 ∷ []); limit = 1 };
}

-- The first two rows, 9 and 7.
abbrev first_query : ODataQuery literals
first_query = record query { limit = some 2; cursor = none }

abbrev nine : Row
nine = some 9 ∷ []

abbrev first_page : Page Row
first_page = record {
  items = nine ∷ seven ∷ [];
  page_info = record { next_cursor = some (7 ∷ []); prev_cursor = none; limit = 2 };
}

abbrev in_keys : Keys
in_keys = (0, desc) ∷ []

abbrev left_over : List Row
left_over = (some 5 ∷ []) ∷ (some 1 ∷ []) ∷ []

unfoldable first_IsPage :
    IsPage toy pages same_text read_number literals sql show_error Wire
      (λ w. some w)
      token_of
      []
      table
      first_query
      columns_by_name
      tiebreaker
      limits
      (λ r. r)
      descending
      none
      first_page
unfolding effective_order is_backward next_cursor prev_cursor build_cursor clamp_limit
    hyperspot.Filter.Meaning.holds coerce build_cursor_for_model model_keys encode_model_key get
    Map.lookup to_signed_tokens signed_token hyperspot.Common.join Odata.encode Odata.wire_of
    Odata.reverse_directions Odata.reverse
first_IsPage = record {
  sorted = nine ∷ seven ∷ left_over;
  sorts = (List.Perm.refl _, in_order-InOrder in_keys (nine ∷ seven ∷ left_over) refl);
  shown = nine ∷ seven ∷ [];
  shown-truncate = refl;
  items = refl;
  limit = refl;
  next = refl;
  prev = refl;
}

unfoldable second_IsPage :
    IsPage toy pages same_text read_number literals sql show_error Wire
      (λ w. some w)
      token_of
      []
      table
      query
      columns_by_name
      tiebreaker
      limits
      (λ r. r)
      descending
      (some seven)
      page
unfolding effective_order is_backward next_cursor prev_cursor build_cursor clamp_limit
    hyperspot.Filter.Meaning.holds coerce build_cursor_for_model model_keys encode_model_key get
    Map.lookup to_signed_tokens signed_token hyperspot.Common.join Odata.encode Odata.wire_of
    Odata.reverse_directions Odata.reverse
second_IsPage = record {
  sorted = left_over;
  sorts = (List.Perm.refl _, in_order-InOrder in_keys left_over refl);
  shown = (some 5 ∷ []) ∷ [];
  shown-truncate = refl;
  items = refl;
  limit = refl;
  next = refl;
  prev = refl;
}
