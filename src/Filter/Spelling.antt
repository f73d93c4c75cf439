-- ===== src/Filter/Spelling.antt =====
-- Filters that spell their fields in other letters: the hash and the meaning are the same.
use mathlib.Core.List.{append_assoc}
use mathlib.Core.Option
use std.Path.{fun_ext}
use hyperspot.Common.{
  ◌≡◌, refl, sym, ap, ap₂, ◌∙◌, Bool, ◌&&◌, Option, none, some, if◌then◌else◌, [], ◌∷◌, ◌++◌, Str,
  text_key,
}
use hyperspot.Common.Map
use hyperspot.Common.Results.{ok, is_ok, ◌>>=◌}
use hyperspot.Sql.{Sql, and3, or3, not3}
use hyperspot.Odata.Ast.{
  Literals, Value, Expr, Exprs, none_left, more, and_expr, or_expr, not_expr, compare_expr, in_expr,
  function_expr, identifier, value,
}
use hyperspot.Paging.{FieldKind, FieldMap, get}
use hyperspot.Filter.Coerce.{FilterSql, coerce, coerce_item, coerce_many}
use hyperspot.Filter.Compile.{string_args, is_null_literal}
use hyperspot.Filter.Meaning.{
  holds, supported, call_holds, call_supported, text_function, with_kind, at_field, text_test,
  compare_test, list_test, is_equality,
}
use hyperspot.Filter.Typed.{is_string_kind}
use hyperspot.Filter.Hash.{
  LiteralTexts, enclosed, comma, and_str, or_str, not_str, cmp_str, in_str, fn_str, id_str, op_str,
  normalize_expr, normalize_list, normalize_after, normalize_filter_for_hash, short_filter_hash,
  normalize_value,
}

-- The filter with each field name written as `f` says.
unfoldable mutual
  pub rename : {l : Literals} → (Str → Str) → Expr l → Expr l
  rename f (and_expr a b) = and_expr (rename f a) (rename f b)
  rename f (or_expr a b) = or_expr (rename f a) (rename f b)
  rename f (not_expr e) = not_expr (rename f e)
  rename f (compare_expr a op b) = compare_expr (rename f a) op (rename f b)
  rename f (in_expr e list) = in_expr (rename f e) (rename_list f list)
  rename f (function_expr name args) = function_expr name (rename_list f args)
  rename f (identifier name) = identifier (f name)
  rename f (value v) = value v

  pub rename_list : {l : Literals} → (Str → Str) → Exprs l → Exprs l
  rename_list f none_left = none_left
  rename_list f (more e list) = more (rename f e) (rename_list f list)

abbrev str_str : Str
str_str = b'S' ∷ b'T' ∷ b'R' ∷ b'(' ∷ []

-- `),STR(`
abbrev next_string : Str
next_string = b')' ∷ b',' ∷ b'S' ∷ b'T' ∷ b'R' ∷ b'(' ∷ []

-- A string stands in the normal form as it is, so one literal reads as two.
two_literals :
    (l : Literals) (texts : LiteralTexts l) (lower : Str → Str) (e : Expr l) (a b : Str)
    → let one : Exprs l = more (value (Value.string (a ++ (next_string ++ b)))) none_left in
      let two : Exprs l = more (value (Value.string a)) (more (value (Value.string b)) none_left) in
      normalize_expr l texts lower (in_expr e one) ≡ normalize_expr l texts lower (in_expr e two)
unfolding normalize_expr normalize_value
two_literals l texts lower e a b =
    ap (λ t. enclosed in_str (comma (normalize_expr l texts lower e) (str_str ++ t)))
      (append_assoc a (next_string ++ b) (b')' ∷ []) ∙ sym (append_assoc a (b')' ∷ []) _))

module _ (db : Sql) (lower : Str → Str) (parse : FieldKind → Str → Option db.Val) (l : Literals)
    (fs : FilterSql db l) (texts : LiteralTexts l) (f : Str → Str)
    (same_letters : (name : Str) → lower (f name) ≡ lower name) where
  mutual
    unfolding rename normalize_expr

    normalize_expr-rename :
        (e : Expr l) → normalize_expr l texts lower (rename f e) ≡ normalize_expr l texts lower e
    normalize_expr-rename (and_expr a b) =
        ap₂ (λ x y. enclosed and_str (comma x y)) (normalize_expr-rename a)
          (normalize_expr-rename b)
    normalize_expr-rename (or_expr a b) =
        ap₂ (λ x y. enclosed or_str (comma x y)) (normalize_expr-rename a) (normalize_expr-rename b)
    normalize_expr-rename (not_expr e) = ap (λ x. enclosed not_str x) (normalize_expr-rename e)
    normalize_expr-rename (compare_expr a op b) =
        ap₂ (λ x y. enclosed cmp_str (comma x (comma (op_str op) y))) (normalize_expr-rename a)
          (normalize_expr-rename b)
    normalize_expr-rename (in_expr e list) =
        ap₂ (λ x y. enclosed in_str (comma x y)) (normalize_expr-rename e)
          (normalize_list-rename list)
    normalize_expr-rename (function_expr name args) =
        ap (λ x. enclosed fn_str (comma (lower name) x)) (normalize_list-rename args)
    normalize_expr-rename (identifier name) = ap (λ x. enclosed id_str x) (same_letters name)
    normalize_expr-rename (value v) = refl

    normalize_list-rename :
        (list : Exprs l)
        → normalize_list l texts lower (rename_list f list) ≡ normalize_list l texts lower list
    normalize_list-rename none_left = refl
    normalize_list-rename (more e list) = normalize_after-rename _ _ (normalize_expr-rename e) list

    normalize_after-rename :
        (s s' : Str)
        → s ≡ s'
        → (list : Exprs l)
        → normalize_after l texts lower s (rename_list f list)
          ≡ normalize_after l texts lower s' list
    normalize_after-rename s s' h none_left = h
    normalize_after-rename s s' h (more e list) =
        ap₂ comma h (normalize_after-rename _ _ (normalize_expr-rename e) list)

  -- One field, by either spelling.
  get-rename :
      (m : FieldMap db lower parse) (name : Str)
      → get db lower parse m (f name) ≡ get db lower parse m name
  unfolding get
  get-rename m name = ap (λ key. Map.lookup key m) (same_letters name)

  coerce_item-rename :
      (kind : FieldKind) (e : Expr l)
      → coerce_item db l fs kind (rename f e) ≡ coerce_item db l fs kind e
  unfolding rename
  coerce_item-rename kind (value v) = refl
  coerce_item-rename kind e = refl

  coerce_many-rename :
      (kind : FieldKind) (list : Exprs l)
      → coerce_many db l fs kind (rename_list f list) ≡ coerce_many db l fs kind list
  unfolding rename coerce_many
  coerce_many-rename kind none_left = refl
  coerce_many-rename kind (more e list) =
      ap₂ (λ x y. x >>= λ v. y >>= λ vs. ok (v ∷ vs)) (coerce_item-rename kind e)
        (coerce_many-rename kind list)

  string_args-rename :
      (args : Exprs l)
      → string_args (rename_list f args)
        ≡ Option.map {B = Str × Str} (λ (name, s). (f name, s)) (string_args args)
  unfolding rename
  string_args-rename (more (identifier name) (more (value (Value.string s)) none_left)) = refl
  string_args-rename args = refl

  -- The filter says the same of every row, or is not supported, by either spelling.
  abbrev SaysSame : FieldMap db lower parse → Expr l → Type 0
  SaysSame m e =
      (supported db lower parse l fs m (rename f e) ≡ supported db lower parse l fs m e)
      × ((r : db.Row)
          → holds db lower parse l fs m (rename f e) r ≡ holds db lower parse l fs m e r)

  call-SaysSame :
      (m : FieldMap db lower parse) (test : Option (Str → Str → Bool)) (o : Option (Str × Str))
      → let o' : Option (Str × Str) = Option.map {B = Str × Str} (λ (name, s). (f name, s)) o in
        (call_supported db lower parse l fs m test o' ≡ call_supported db lower parse l fs m test o)
        × ((r : db.Row)
            → call_holds db lower parse l fs m test o' r
              ≡ call_holds db lower parse l fs m test o r)
  call-SaysSame m none none = (refl, λ r. refl)
  call-SaysSame m none (some x) = (refl, λ r. refl)
  call-SaysSame m (some test) none = (refl, λ r. refl)
  call-SaysSame m (some test) (some (name, s)) = (
    ap (λ o. with_kind db lower parse l fs o is_string_kind) (get-rename m name),
    λ r.
        ap (λ o. at_field db lower parse l fs o (λ kind. text_test db l fs (test s)) r)
          (get-rename m name),
  )

  rename-SaysSame : (m : FieldMap db lower parse) (e : Expr l) → SaysSame m e
  unfolding rename holds supported
  rename-SaysSame m (and_expr a b) =
      let (sa, ha) = rename-SaysSame m a in
      let (sb, hb) = rename-SaysSame m b in (ap₂ ◌&&◌ sa sb, λ r. ap₂ and3 (ha r) (hb r))
  rename-SaysSame m (or_expr a b) =
      let (sa, ha) = rename-SaysSame m a in
      let (sb, hb) = rename-SaysSame m b in (ap₂ ◌&&◌ sa sb, λ r. ap₂ or3 (ha r) (hb r))
  rename-SaysSame m (not_expr e) = let (s, h) = rename-SaysSame m e in (s, λ r. ap not3 (h r))
  rename-SaysSame m (compare_expr (identifier name) op (value v)) = (
    ap
        (λ o.
          with_kind db lower parse l fs o
            (λ kind. if is_null_literal v then is_equality op else is_ok (coerce db l fs kind v)))
        (get-rename m name),
    λ r.
        ap
          (λ o.
            at_field db lower parse l fs o (λ kind. compare_test db lower parse l fs op kind v) r)
          (get-rename m name),
  )
  rename-SaysSame m (compare_expr a op b) = (refl, λ r. refl)
  rename-SaysSame m (in_expr (identifier name) list) = (
    ap₂ (λ o c. with_kind db lower parse l fs o (λ kind. is_ok (c kind))) (get-rename m name)
        (fun_ext λ kind. coerce_many-rename kind list),
    λ r.
        ap₂ (λ o c. at_field db lower parse l fs o (λ kind. list_test db (c kind)) r)
          (get-rename m name) (fun_ext λ kind. coerce_many-rename kind list),
  )
  rename-SaysSame m (in_expr a list) = (refl, λ r. refl)
  rename-SaysSame m (function_expr name args) =
      let (s, h) = call-SaysSame m (text_function name) (string_args args) in
      (
        ap (call_supported db lower parse l fs m (text_function name)) (string_args-rename args)
            ∙ s,
        λ r.
            ap (λ o. call_holds db lower parse l fs m (text_function name) o r)
              (string_args-rename args)
            ∙ h r,
      )
  rename-SaysSame m (identifier name) = (refl, λ r. refl)
  rename-SaysSame m (value v) = (refl, λ r. refl)

  -- Where `f` changes the letters of field names in a way that the lowering of letters undoes:
  -- with any digest, the filter with its fields renamed by `f` has the hash of the filter itself;
  -- over any field map, the compiler's support for both is the same, and both say the same of
  -- every row.
  pub short_filter_hash-rename :
      (digest : Str → Str) (m : FieldMap db lower parse) (e : Expr l)
      → (short_filter_hash l texts lower digest (some (rename f e))
          ≡ short_filter_hash l texts lower digest (some e))
        × (supported db lower parse l fs m (rename f e) ≡ supported db lower parse l fs m e)
        × ((r : db.Row)
            → holds db lower parse l fs m (rename f e) r ≡ holds db lower parse l fs m e r)
  unfolding short_filter_hash normalize_filter_for_hash
  short_filter_hash-rename digest m e =
      let (s, h) = rename-SaysSame m e in
      (ap (λ t. some (digest t)) (normalize_expr-rename e), s, h)
