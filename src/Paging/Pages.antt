-- ===== src/Paging/Pages.antt =====
-- The cursor that is built from a row selects the rows that sort after it, or before it.
use mathlib.Core.Option
use hyperspot.Common.{
  suc, ◌≡◌, refl, ap, ap₂, sym, subst, ◌∙◌, Bool, true, false, Option, none, some, List, [], ◌∷◌,
  length, Str, text_key, ◌==◌, if◌then◌else◌, nat_beq_iff,
}
use hyperspot.Sql.Defs.{Sql, Truth, and3, or3}
use hyperspot.Odata.{
  SortDir, asc, desc, OrderKey, CursorV1, bwd, to_signed_tokens, keep, invalid_order_by_field,
}
use hyperspot.Odata
use hyperspot.Common.Results.{ok-inj, bind-ok}
use hyperspot.Odata.Cursors.{map-some}
use hyperspot.Paging.{
  encode_field, FieldKind, Field, FieldMap, ok, CursorValue, get, encode_model_key, comparison,
  equality, main_condition, cursor_value, cursor_values, build_cursor_predicate, parse_cursor_value,
  model_keys, build_cursor_for_model,
}
use hyperspot.Paging.Lexicographic.{lexicographic, past, level, main_condition-lexicographic}

module _ (db : Sql) where
  open db use {Col, Val, Row, same, less}

  -- Two values of a column, `x` strictly after `y` in the direction; UNKNOWN next to a NULL.
  abbrev pub strictly_after : SortDir → Val → Val → Bool
  strictly_after asc x y = less y x
  strictly_after desc x y = less x y

  abbrev pub compare_values : (Val → Val → Bool) → Option Val → Option Val → Truth
  compare_values test x none = none
  compare_values test x (some v) = Option.map (λ w. test w v) x

  -- Row `r` sorts after row `m` (before it, going backward) in the order of the columns.
  abbrev pub beyond : Bool → Row → Row → List (Col × SortDir) → Truth
  beyond backward r m [] = some false
  beyond backward r m ((c, dir) ∷ rest) =
      or3
        (compare_values (strictly_after (if backward then Odata.reverse dir else dir)) (db.get r c)
          (db.get m c))
        (and3 (compare_values same (db.get r c) (db.get m c)) (beyond backward r m rest))

module _ (db : Sql) (lower : Str → Str) (parse : FieldKind → Str → Option db.Val) where
  open db use {Cond, Col, Val, Row, any, same, less, eval, eval-eq, eval-gt, eval-lt}

  abbrev pub columns : FieldMap db lower parse → List OrderKey → List (Col × SortDir)
  columns fmap [] = []
  columns fmap (k ∷ order) =
      keep (Option.map (λ f. (f.col, k.dir)) (get db lower parse fmap k.field)) (columns fmap order)

  -- What each extractor prints of the row is read back as the value of its column, not NULL.
  abbrev pub IsPrinted : FieldMap db lower parse → Row → Type 0
  IsPrinted fmap m =
      (name : Str) (f : Field Col Row) (to_string : Row → Str)
      → get db lower parse fmap name ≡ some f
      → f.to_string_for_cursor ≡ some to_string
      → (v : Val) × (db.get m f.col ≡ some v) × (parse f.kind (to_string m) ≡ some v)

  ok_or-some :
      {A : Type 0} (o : Option A) (e : Odata.Error) {a : A}
      → Odata.ok_or o e ≡ Odata.ok a
      → o ≡ some a
  ok_or-some none e h = cc
  ok_or-some (some a) e h = cc

  encode_field-some :
      (o : Option (Field Col Row)) (m : Row) (s : Str)
      → encode_field db lower parse o m ≡ some s
      → (f : Field Col Row) × (to_string : Row → Str) × (o ≡ some f)
        × (f.to_string_for_cursor ≡ some to_string)
        × (to_string m ≡ s)
  encode_field-some none m s h = cc
  encode_field-some (some f) m s h =
      let (t, e, q) = map-some f.to_string_for_cursor (λ t. t m) h in (f, t, refl, e, q)

  past-compare :
      (backward : Bool) (r : Row) (c : Col) (v : Val) (dir : SortDir)
      → past db lower parse backward r (c, v, dir)
        ≡ Option.map
            (λ x. strictly_after db (if backward then Odata.reverse dir else dir) x v)
            (db.get r c)
  unfolding comparison Odata.reverse
  past-compare true r c v asc = eval-lt r c v
  past-compare false r c v asc = eval-gt r c v
  past-compare true r c v desc = eval-gt r c v
  past-compare false r c v desc = eval-lt r c v

  level-compare :
      (r : Row) (c : Col) (v : Val) (dir : SortDir)
      → level db lower parse r (c, v, dir) ≡ Option.map (λ x. same x v) (db.get r c)
  unfolding equality
  level-compare r c v dir = eval-eq r c v

  -- A key of the cursor is read back as the value of its column.
  cursor_value-model :
      (fmap : FieldMap db lower parse) (m : Row) (k : OrderKey) (s : Str)
      → IsPrinted fmap m
      → encode_model_key db lower parse fmap m k.field ≡ some s
      → (f : Field Col Row) × (v : Val) × (get db lower parse fmap k.field ≡ some f)
        × (db.get m f.col ≡ some v)
        × (cursor_value db lower parse fmap s k ≡ ok (f.col, v, k.dir))
  unfolding encode_model_key cursor_value parse_cursor_value
  cursor_value-model fmap m k s printed h =
      let (f, t, there, extractor, text) =
        encode_field-some (get db lower parse fmap k.field) m s h in
      let (v, value, read) = printed k.field f t there extractor in
      (f, v, there, value, rw (there, subst (λ u. parse f.kind u ≡ some v) text read) refl)

  -- What the loops over the order give, field by field.
  record Reads (fmap : FieldMap db lower parse) (m : Row) (order : List OrderKey) (ks : List Str)
      : Type 0 where
    vs : List (CursorValue db lower parse)
    values : cursor_values db lower parse fmap ks order ≡ ok vs
    lengths : length ks ≡ length order
    compares :
        (backward : Bool) (r : Row)
        → lexicographic db lower parse backward r vs ≡ beyond db backward r m (columns fmap order)

  cursor_values-cons :
      (fmap : FieldMap db lower parse) (k : OrderKey) (order : List OrderKey) (s : Str)
      (ks : List Str) (v : CursorValue db lower parse) (vs : List (CursorValue db lower parse))
      → cursor_value db lower parse fmap s k ≡ ok v
      → cursor_values db lower parse fmap ks order ≡ ok vs
      → cursor_values db lower parse fmap (s ∷ ks) (k ∷ order) ≡ ok (v ∷ vs)
  unfolding cursor_values
  cursor_values-cons fmap k order s ks v vs here rest = rw (here, rest) refl

  lexicographic-cons :
      (backward : Bool) (r m : Row) (c : Col) (dir : SortDir) (v : Val)
      (vs : List (CursorValue db lower parse)) (cols : List (Col × SortDir))
      → db.get m c ≡ some v
      → lexicographic db lower parse backward r vs ≡ beyond db backward r m cols
      → lexicographic db lower parse backward r ((c, v, dir) ∷ vs)
        ≡ beyond db backward r m ((c, dir) ∷ cols)
  lexicographic-cons backward r m c dir v vs cols value ih =
      subst
        (λ o.
          lexicographic db lower parse backward r ((c, v, dir) ∷ vs)
          ≡ or3
              (compare_values db (strictly_after db (if backward then Odata.reverse dir else dir))
                (db.get r c) o)
              (and3 (compare_values db same (db.get r c) o) (beyond db backward r m cols)))
        (sym value)
        (ap₂ or3 (past-compare backward r c v dir) (ap₂ and3 (level-compare r c v dir) ih))

  Reads-cons :
      (fmap : FieldMap db lower parse) (m : Row) (k : OrderKey) (order : List OrderKey) (s : Str)
      (ks : List Str)
      → IsPrinted fmap m
      → encode_model_key db lower parse fmap m k.field ≡ some s
      → Reads fmap m order ks
      → Reads fmap m (k ∷ order) (s ∷ ks)
  Reads-cons fmap m k order s ks printed h rest =
      let (f, v, there, value, read) = cursor_value-model fmap m k s printed h in
      record {
        vs = (f.col, v, k.dir) ∷ rest.vs;
        values = cursor_values-cons fmap k order s ks (f.col, v, k.dir) rest.vs read rest.values;
        lengths = ap suc rest.lengths;
        compares = λ backward r.
            lexicographic-cons backward r m f.col k.dir v rest.vs (columns fmap order) value
              (rest.compares backward r)
            ∙ ap
                (λ o.
                  beyond db backward r m
                    (keep (Option.map (λ g. (g.col, k.dir)) o) (columns fmap order)))
                (sym there);
      }

  model_keys-Reads :
      (fmap : FieldMap db lower parse) (m : Row) (order : List OrderKey) (ks : List Str)
      → IsPrinted fmap m
      → model_keys db lower parse fmap m order ≡ Odata.ok ks
      → Reads fmap m order ks
  unfolding model_keys
  model_keys-Reads fmap m [] ks printed h = subst (Reads fmap m []) (ok-inj h) (record {
    vs = [];
    values = unfold cursor_values in refl;
    lengths = refl;
    compares = λ backward r. refl;
  })
  model_keys-Reads fmap m (k ∷ order) ks printed h =
      let (s, here, rest) =
        bind-ok
          (Odata.ok_or (encode_model_key db lower parse fmap m k.field)
            (invalid_order_by_field k.field))
          _ h in
      let (ks', there, same) = bind-ok (model_keys db lower parse fmap m order) _ rest in
      subst (Reads fmap m (k ∷ order)) (ok-inj same) (
        Reads-cons fmap m k order s ks' printed
          (ok_or-some (encode_model_key db lower parse fmap m k.field)
            (invalid_order_by_field k.field) here)
          (model_keys-Reads fmap m order ks' printed there))

  build_cursor_predicate-Reads :
      (fmap : FieldMap db lower parse) (m : Row) (order : List OrderKey) (cursor : CursorV1)
      → (reads : Reads fmap m order cursor.k)
      → build_cursor_predicate db lower parse cursor order fmap
        ≡ ok (main_condition db lower parse (cursor.d == bwd) any [] reads.vs)
  unfolding build_cursor_predicate
  build_cursor_predicate-Reads fmap m order cursor reads =
      rw ((nat_beq_iff (length cursor.k) (length order)).1 reads.lengths, reads.values) refl

  pub built_keys :
      (fmap : FieldMap db lower parse) (m : Row) (order : List OrderKey) (pd : SortDir)
      (hash : Option Str) (direction : Str) (cursor : CursorV1)
      → build_cursor_for_model db lower parse m order fmap pd hash direction ≡ Odata.ok cursor
      → (ks : List Str) × (model_keys db lower parse fmap m order ≡ Odata.ok ks)
        × (record { k = ks; o = pd; s = to_signed_tokens order; f = hash; d = direction } ≡ cursor)
  unfolding build_cursor_for_model
  built_keys fmap m order pd hash direction cursor built =
      let (ks, keys, same) = bind-ok (model_keys db lower parse fmap m order) _ built in
      (ks, keys, ok-inj same)

  -- The predicate of the cursor that is built from a row: it is built, and on any row it is TRUE, FALSE
  -- or UNKNOWN as that row sorts strictly after the cursor's row (strictly before it, for a cursor
  -- with direction "bwd") in the lexicographic order of the order's columns and directions. The
  -- conditions: the cursor was built, and what an extractor prints of the row parses back to the
  -- value of its column, which is not NULL.
  pub build_cursor_predicate-beyond :
      (fmap : FieldMap db lower parse) (m : Row) (order : List OrderKey) (primary_dir : SortDir)
      (filter_hash : Option Str) (direction : Str) (cursor : CursorV1)
      → IsPrinted fmap m
      → build_cursor_for_model db lower parse m order fmap primary_dir filter_hash direction
        ≡ Odata.ok cursor
      → (cond : Cond) × (build_cursor_predicate db lower parse cursor order fmap ≡ ok cond)
        × ((r : Row) → eval r cond ≡ beyond db (direction == bwd) r m (columns fmap order))
  build_cursor_predicate-beyond fmap m order pd hash direction cursor printed built =
      let (ks, keys, same) = built_keys fmap m order pd hash direction cursor built in
      let reads = model_keys-Reads fmap m order ks printed keys in
      subst
        (λ c.
          (cond : Cond) × (build_cursor_predicate db lower parse c order fmap ≡ ok cond)
          × ((r : Row) → eval r cond ≡ beyond db (direction == bwd) r m (columns fmap order)))
        same
        (
          main_condition db lower parse (direction == bwd) any [] reads.vs,
          build_cursor_predicate-Reads fmap m order
              (record { k = ks; o = pd; s = to_signed_tokens order; f = hash; d = direction })
              reads,
          λ r.
              main_condition-lexicographic db lower parse (direction == bwd) r reads.vs
              ∙ reads.compares (direction == bwd) r,
        )
