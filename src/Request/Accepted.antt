-- ===== src/Request/Accepted.antt =====
-- The queries that extract_odata_query accepts.
use hyperspot.Common.{◌≡◌, ◌≤◌, ◌⊎◌, Option, none, some, List, [], Str}
use hyperspot.Common.Results.{Result, ok}
use hyperspot.Odata.{OrderKey, CursorV1, Error}
use hyperspot.Odata.Ast.{Literals, Expr}
use hyperspot.Filter.Hash.{LiteralTexts}
use hyperspot.Request.{parse_orderby, count_nodes}

-- A filter of at most 2000 nodes, or none.
abbrev pub IsSmall : {l : Literals} → Option (Expr l) → Type 0
IsSmall none = Unit {0}
IsSmall (some e) = count_nodes e ≤ 2000

module _ (l : Literals) (texts : LiteralTexts l) (lower : Str → Str) (digest : Str → Str)
    (parse_str : Str → Option (Expr l)) (decode_cursor : Str → Result Error CursorV1) where
  -- Either the request's cursor with no order, or its order with no cursor.
  abbrev pub IsPosition : Option Str → Option Str → Option CursorV1 → List OrderKey → Type 0
  IsPosition c o none order =
      (c ≡ none) × (order ≡ [] ⊎ ((raw : Str) × (o ≡ some raw) × (parse_orderby raw ≡ ok order)))
  IsPosition c o (some cursor) order =
      (o ≡ none) × (order ≡ []) × ((raw : Str) × (c ≡ some raw) × (decode_cursor raw ≡ ok cursor))
