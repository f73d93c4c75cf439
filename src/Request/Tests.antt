-- ===== src/Request/Tests.antt =====
-- A request with a filter, an order and a limit, and what is read from it.
use hyperspot.Common.{ℕ, ◌≡◌, refl, ◌⊎◌, Option, none, some, List, [], ◌∷◌, Str}
use hyperspot.Common.Results.{err}
use hyperspot.Odata.{asc, desc, OrderKey, CursorV1, Error, invalid_cursor, order_with_cursor}
use hyperspot.Odata
use hyperspot.Odata.Ast.{Expr, identifier}
use hyperspot.Filter.Hash.{LiteralTexts, short_filter_hash}
use hyperspot.Filter.Toy.{literals}
use hyperspot.Pagination.{ODataQuery}
use hyperspot.Request.{ODataParams, Problem, odata_problem, extract_odata_query}

abbrev texts : LiteralTexts literals
texts = record {
  number = λ n. [];
  uuid = λ u. [];
  date_time = λ t. [];
  date = λ d. [];
  time = λ t. [];
}

abbrev digest : Str → Str
digest s = s

abbrev lower : Str → Str
lower s = s

abbrev parse_str : Str → Option (Expr literals)
parse_str s = some (identifier s)

abbrev decode_cursor : Str → Odata.Result CursorV1
decode_cursor s = err invalid_cursor

-- `x desc, y`
abbrev orderby : Str
orderby = b'x' ∷ b' ' ∷ b'd' ∷ b'e' ∷ b's' ∷ b'c' ∷ b',' ∷ b' ' ∷ b'y' ∷ []

abbrev params : ODataParams
params = record {
  filter = some (b' ' ∷ b'f' ∷ []);
  orderby = some orderby;
  limit = some 5;
  cursor = none;
}

abbrev query : ODataQuery literals
query = record {
  filter = some (identifier (b'f' ∷ []));
  order = record { field = b'x' ∷ []; dir = desc } ∷ record { field = b'y' ∷ []; dir = asc } ∷ [];
  limit = some 5;
  cursor = none;
  filter_hash = short_filter_hash literals texts lower digest (some (identifier (b'f' ∷ [])));
}

both_given :
    extract_odata_query literals texts lower digest parse_str decode_cursor
      (record params { cursor = some [] })
    ≡ err (odata_problem order_with_cursor)
unfolding extract_odata_query hyperspot.Request.read_filter hyperspot.Request.read_position
    hyperspot.Request.len hyperspot.Request.count_nodes hyperspot.Common.trim
    hyperspot.Common.trim_start hyperspot.Common.trim_end
both_given = refl
