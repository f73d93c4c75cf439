-- ===== src/Paging.antt =====
-- libs/modkit-db/src/odata/core.rs: the field map, the cursor of a row, the cursor's predicate and
-- the limit. Parsing and printing of column values are parameters, one per kind of field.
pub mod Lexicographic
pub mod Pages
pub mod Limits
mod Tests
use mathlib.Core.Option
use hyperspot.Common.{
  ℕ, zero, suc, ◌+◌, Bool, true, false, not, Option, none, some, List, [], ◌∷◌, ◌++◌, map, foldl,
  length, Str, String, text_key, ◌==◌, if◌then◌else◌, ltb, nat_beq,
}
use hyperspot.Common.Map
use hyperspot.Common.Results.{Result}
pub use hyperspot.Common.Results.{ok, err, ◌>>=◌, ok_or}
use hyperspot.Sql.Defs.{Sql}
use hyperspot.Odata.{
  SortDir, asc, desc, OrderKey, CursorV1, bwd, to_signed_tokens, invalid_order_by_field,
}
use hyperspot.Odata
use hyperspot.Odata.Ast.{CompareOperator}

pub data FieldKind : Type 0 where
  string i64 f64 bool uuid_kind date_time_utc date time decimal : FieldKind

pub record LimitCfg : Type 0 where
  pub default : ℕ
  pub max : ℕ

unfoldable pub clamp_limit : Option ℕ → LimitCfg → ℕ
clamp_limit req cfg =
    let l : ℕ = elim req [ none ↦ cfg.default | some n ↦ n ] in
    let l' : ℕ = if nat_beq l 0 then 1 else l in if ltb cfg.max l' then cfg.max else l'

-- `Vec::pop` without its result, and `truncate`.
abbrev pub pop {ℓ} : {A : Type ℓ} → List A → List A
pop [] = []
pop (x ∷ []) = []
pop (x ∷ y ∷ xs) = x ∷ pop (y ∷ xs)

abbrev pub truncate {ℓ} : {A : Type ℓ} → ℕ → List A → List A
truncate zero xs = []
truncate (suc n) [] = []
truncate (suc n) (x ∷ xs) = x ∷ truncate n xs

abbrev pub reversed {ℓ} : {A : Type ℓ} → List A → List A
reversed [] = []
reversed (x ∷ xs) = reversed xs ++ x ∷ []

-- The rows of the page in display order, and `has_more`, from the rows that were fetched.
unfoldable pub page_rows {ℓ} : {A : Type ℓ} → Bool → ℕ → List A → List A × Bool
page_rows backward limit rows =
    let has_more = ltb limit (length rows) in
    let page =
      if backward
      then reversed (if has_more then pop rows else rows)
      else if has_more
      then truncate limit rows
      else rows in
    (page, has_more)

-- `other` carries the text, but where the code has one text for each kind of field.
pub data BuildError : Type 0 where
  unknown_field : Str → BuildError
  type_mismatch : FieldKind → String → BuildError
  unsupported_op : CompareOperator → BuildError
  unsupported_fn bare_identifier : Str → BuildError
  non_literal_in_list bare_literal keys_count_mismatch : BuildError
  invalid_in_cursor : FieldKind → BuildError
  other : String → BuildError

abbrev pub BuildResult : Type 0 → Type 0
BuildResult A = Result BuildError A

pub record Field (Col Row : Type 0) : Type 0 where
  pub col : Col
  pub kind : FieldKind
  pub to_string_for_cursor : Option (Row → Str)

-- `lower` is `str::to_lowercase`; `parse` is `str::parse` at the type of the kind, and for dates the
-- function of chrono that the code calls.
module _ (db : Sql) (lower : Str → Str) (parse : FieldKind → Str → Option db.Val) where
  open db use {Cond, Col, Val, Row, all, any, add, eq, gt, lt}

  abbrev pub FieldMap : Type 0
  FieldMap = List (Str × Field Col Row)

  unfoldable pub insert : FieldMap → Str → Col → FieldKind → FieldMap
  insert m api_name col kind =
      Map.insert (lower api_name) (record { col = col; kind = kind; to_string_for_cursor = none }) m

  unfoldable pub insert_with_extractor : FieldMap → Str → Col → FieldKind → (Row → Str) → FieldMap
  insert_with_extractor m api_name col kind to_string =
      Map.insert (lower api_name)
        (record { col = col; kind = kind; to_string_for_cursor = some to_string }) m

  unfoldable pub get : FieldMap → Str → Option (Field Col Row)
  get m name = Map.lookup (lower name) m

  abbrev pub encode_field : Option (Field Col Row) → Row → Option Str
  encode_field none model = none
  encode_field (some f) model = Option.map (λ to_string. to_string model) f.to_string_for_cursor

  unfoldable pub encode_model_key : FieldMap → Row → Str → Option Str
  encode_model_key m model name = encode_field (get m name) model

  unfoldable pub parse_cursor_value : FieldKind → Str → BuildResult Val
  parse_cursor_value kind s = ok_or (parse kind s) (invalid_in_cursor kind)

  -- A column, the cursor's value for it, and the direction.
  abbrev pub CursorValue : Type 0
  CursorValue = Col × Val × SortDir

  unfoldable pub cursor_value : FieldMap → Str → OrderKey → BuildResult CursorValue
  cursor_value m key k = ok_or (get m k.field) (unknown_field k.field) >>= λ f.
      parse_cursor_value f.kind key >>= λ v. ok (f.col, v, k.dir)

  -- The first loop; the lists have the same length.
  unfoldable pub cursor_values :
      FieldMap → List Str → List OrderKey → BuildResult (List CursorValue)
  cursor_values m [] order = ok []
  cursor_values m (key ∷ keys) [] = err keys_count_mismatch
  cursor_values m (key ∷ keys) (k ∷ order) =
      let rest = cursor_values m keys order in
      cursor_value m key k >>= λ v. rest >>= λ vs. ok (v ∷ vs)

  unfoldable pub comparison : Bool → CursorValue → Cond
  comparison backward (c, v, asc) = if backward then lt c v else gt c v
  comparison backward (c, v, desc) = if backward then gt c v else lt c v

  unfoldable pub equality : CursorValue → Cond
  equality (c, v, d) = eq c v

  -- The second loop: the fields before the current one, and those from it on.
  unfoldable pub main_condition : Bool → Cond → List CursorValue → List CursorValue → Cond
  main_condition backward main done [] = main
  main_condition backward main done (v ∷ vs) =
      let prefix = add (foldl add all (map equality done)) (comparison backward v) in
      main_condition backward (add main prefix) (done ++ v ∷ []) vs

  unfoldable pub build_cursor_predicate : CursorV1 → List OrderKey → FieldMap → BuildResult Cond
  build_cursor_predicate cursor order m =
      if not (nat_beq (length cursor.k) (length order))
      then err keys_count_mismatch
      else cursor_values m cursor.k order >>= λ vs. ok (main_condition (cursor.d == bwd) any [] vs)

  -- The loop of `build_cursor_for_model`.
  unfoldable pub model_keys : FieldMap → Row → List OrderKey → Odata.Result (List Str)
  model_keys m model [] = Odata.ok []
  model_keys m model (k ∷ order) =
      let rest = model_keys m model order in
      Odata.◌>>=◌ (Odata.ok_or (encode_model_key m model k.field) (invalid_order_by_field k.field))
        (λ s. Odata.◌>>=◌ rest (λ ks. Odata.ok (s ∷ ks)))

  unfoldable pub build_cursor_for_model :
      Row → List OrderKey → FieldMap → SortDir → Option Str → Str → Odata.Result CursorV1
  build_cursor_for_model model order m primary_dir filter_hash direction =
      Odata.◌>>=◌ (model_keys m model order) (λ k. Odata.ok (record {
        k = k;
        o = primary_dir;
        s = to_signed_tokens order;
        f = filter_hash;
        d = direction;
      }))
