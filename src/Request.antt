-- ===== src/Request.antt =====
-- libs/modkit/src/api/odata.rs: the query parameters of a request, read into a query. A text is the
-- list of its code points, and its length that of its UTF-8. odata_params, which parses filters, is a parameter.
pub mod Accepted
mod Tests
use hyperspot.Common.{
  ℕ, ◌+◌, ◌*◌, Bool, true, false, Option, none, some, List, [], ◌∷◌, ◌++◌, length, is_empty, Str,
  text_key, ◌==◌, if◌then◌else◌, ltb, nat_beq, is_whitespace, trim, split, grow,
}
use hyperspot.Common.Results.{Result, ok, err, ◌>>=◌, ok_or, map_err}
use hyperspot.Odata.{
  SortDir, asc, desc, OrderKey, CursorV1, Error, invalid_order_by_field, order_with_cursor,
  invalid_cursor, invalid_limit,
}
use hyperspot.Odata.Ast.{
  Literals, Expr, Exprs, none_left, more, and_expr, or_expr, not_expr, compare_expr, in_expr,
  function_expr, identifier, value,
}
use hyperspot.Filter.Hash.{LiteralTexts, short_filter_hash}
use hyperspot.Pagination.{ODataQuery}

pub record ODataParams : Type 0 where
  pub filter : Option Str
  pub orderby : Option Str
  pub limit : Option ℕ
  pub cursor : Option Str

abbrev pub max_filter_len : ℕ
max_filter_len = 8 * 1024

abbrev pub max_nodes : ℕ
max_nodes = 2000

abbrev pub max_orderby_len : ℕ
max_orderby_len = 1024

abbrev pub max_order_fields : ℕ
max_order_fields = 10

-- `str::len`, in bytes.
abbrev pub utf8_width : ℕ → ℕ
utf8_width c = if ltb c 0x80 then 1 else if ltb c 0x800 then 2 else if ltb c 0x10000 then 3 else 4

unfoldable pub len : Str → ℕ
len [] = 0
len (c ∷ s) = utf8_width c + len s

-- `split_whitespace`: the words, none of them empty.
abbrev starts_white : Str → Bool
starts_white [] = true
starts_white (c ∷ s) = is_whitespace c

unfoldable pub split_whitespace : Str → List Str
split_whitespace [] = []
split_whitespace (c ∷ s) =
    let rest = split_whitespace s in
    if is_whitespace c then rest else if starts_white s then (c ∷ []) ∷ rest else grow c rest

abbrev asc_word : Str
asc_word = b'a' ∷ b's' ∷ b'c' ∷ []

abbrev desc_word : Str
desc_word = b'd' ∷ b'e' ∷ b's' ∷ b'c' ∷ []

-- The texts of the errors.
abbrev orderby_too_long : Str
orderby_too_long =
    b'o' ∷ b'r' ∷ b'd' ∷ b'e' ∷ b'r' ∷ b'b' ∷ b'y' ∷ b' ' ∷ b't' ∷ b'o' ∷ b'o' ∷ b' ' ∷ b'l' ∷ b'o'
    ∷ b'n' ∷ b'g' ∷ []

abbrev too_many_order_fields : Str
too_many_order_fields =
    b't' ∷ b'o' ∷ b'o' ∷ b' ' ∷ b'm' ∷ b'a' ∷ b'n' ∷ b'y' ∷ b' ' ∷ b'o' ∷ b'r' ∷ b'd' ∷ b'e' ∷ b'r'
    ∷ b' ' ∷ b'f' ∷ b'i' ∷ b'e' ∷ b'l' ∷ b'd' ∷ b's' ∷ []

-- "invalid orderby clause: ", before the clause.
abbrev invalid_clause : Str → Error
invalid_clause part = invalid_order_by_field (
    b'i' ∷ b'n' ∷ b'v' ∷ b'a' ∷ b'l' ∷ b'i' ∷ b'd' ∷ b' ' ∷ b'o' ∷ b'r' ∷ b'd' ∷ b'e' ∷ b'r' ∷ b'b'
    ∷ b'y' ∷ b' ' ∷ b'c' ∷ b'l' ∷ b'a' ∷ b'u' ∷ b's' ∷ b'e' ∷ b':' ∷ b' ' ∷ part)

abbrev empty_field_name : Str
empty_field_name =
    b'e' ∷ b'm' ∷ b'p' ∷ b't' ∷ b'y' ∷ b' ' ∷ b'f' ∷ b'i' ∷ b'e' ∷ b'l' ∷ b'd' ∷ b' ' ∷ b'n' ∷ b'a'
    ∷ b'm' ∷ b'e' ∷ b' ' ∷ b'i' ∷ b'n' ∷ b' ' ∷ b'o' ∷ b'r' ∷ b'd' ∷ b'e' ∷ b'r' ∷ b'b' ∷ b'y' ∷ []

-- The match on the words of a clause.
abbrev pub clause_key : Str → List Str → Result Error OrderKey
clause_key part (field ∷ []) = ok (record { field = field; dir = asc })
clause_key part (field ∷ word ∷ []) =
    if word == asc_word
    then ok (record { field = field; dir = asc })
    else if word == desc_word
    then ok (record { field = field; dir = desc })
    else err (invalid_clause part)
clause_key part words = err (invalid_clause part)

abbrev pub named_key : OrderKey → Result Error OrderKey
named_key k = if is_empty k.field then err (invalid_order_by_field empty_field_name) else ok k

abbrev pub clause_keys : Str → Result Error (List OrderKey) → Result Error (List OrderKey)
clause_keys [] rest = rest
clause_keys (c ∷ part) rest =
    clause_key (c ∷ part) (split_whitespace (c ∷ part)) >>= named_key >>= λ k.
    rest >>= λ ks. ok (k ∷ ks)

unfoldable pub parse_clauses : List Str → Result Error (List OrderKey)
parse_clauses [] = ok []
parse_clauses (part ∷ parts) = clause_keys (trim part) (parse_clauses parts)

abbrev pub few_keys : List OrderKey → Result Error (List OrderKey)
few_keys keys =
    if ltb max_order_fields (length keys)
    then err (invalid_order_by_field too_many_order_fields)
    else ok keys

unfoldable pub parse_orderby : Str → Result Error (List OrderKey)
parse_orderby text =
    let raw = trim text in
    if is_empty raw
    then ok []
    else if ltb max_orderby_len (len raw)
    then err (invalid_order_by_field orderby_too_long)
    else parse_clauses (split b',' raw) >>= few_keys

-- A problem answered to the client: 400 with a reason, or the problem of an error.
pub data Problem : Type 0 where
  filter_too_long invalid_filter filter_too_complex : Problem
  odata_problem : Error → Problem

unfoldable mutual
  pub count_nodes : {l : Literals} → Expr l → ℕ
  count_nodes (value v) = 1
  count_nodes (identifier name) = 1
  count_nodes (not_expr x) = 1 + count_nodes x
  count_nodes (and_expr a b) = 1 + count_nodes a + count_nodes b
  count_nodes (or_expr a b) = 1 + count_nodes a + count_nodes b
  count_nodes (compare_expr a op b) = 1 + count_nodes a + count_nodes b
  count_nodes (in_expr a list) = 1 + count_nodes a + count_list list
  count_nodes (function_expr name args) = 1 + count_list args

  pub count_list : {l : Literals} → Exprs l → ℕ
  count_list none_left = 0
  count_list (more e list) = count_nodes e + count_list list

-- `parse_str` is the parser with the conversion of its tree, which has the same shape, `digest` the
-- hash of a filter's text, and `decode_cursor` is `CursorV1::decode`.
module _ (l : Literals) (texts : LiteralTexts l) (lower : Str → Str) (digest : Str → Str)
    (parse_str : Str → Option (Expr l)) (decode_cursor : Str → Result Error CursorV1) where
  abbrev pub simple_filter : Expr l → Result Problem (Option (Expr l))
  simple_filter e = if ltb max_nodes (count_nodes e) then err filter_too_complex else ok (some e)

  unfoldable pub read_filter : Option Str → Result Problem (Option (Expr l))
  read_filter none = ok none
  read_filter (some raw_filter) =
      let raw = trim raw_filter in
      if is_empty raw
      then ok none
      else if ltb max_filter_len (len raw)
      then err filter_too_long
      else ok_or (parse_str raw) invalid_filter >>= simple_filter

  -- The cursor, or else the order.
  unfoldable pub read_position :
      Option Str → Option Str → Result Problem (Option CursorV1 × List OrderKey)
  read_position (some c) (some o) = err (odata_problem order_with_cursor)
  read_position (some c) none =
      map_err (λ e. odata_problem invalid_cursor) (decode_cursor c) >>= λ cursor.
      ok (some cursor, [])
  read_position none (some o) =
      map_err odata_problem (parse_orderby o) >>= λ order. ok (none, order)
  read_position none none = ok (none, [])

  unfoldable pub read_limit : Option ℕ → Result Problem (Option ℕ)
  read_limit none = ok none
  read_limit (some limit) =
      if nat_beq limit 0 then err (odata_problem invalid_limit) else ok (some limit)

  unfoldable pub extract_odata_query : ODataParams → Result Problem (ODataQuery l)
  extract_odata_query params = read_filter params.filter >>= λ filter.
      read_position params.cursor params.orderby >>= λ (cursor, order).
      read_limit params.limit >>= λ limit. ok (record {
        filter = filter;
        order = order;
        limit = limit;
        cursor = cursor;
        filter_hash = short_filter_hash l texts lower digest filter;
      })
