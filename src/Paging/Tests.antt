-- ===== src/Paging/Tests.antt =====
-- A table whose column 0 is exposed as "n", and the page after the row 7.
use hyperspot.Common.{
  ℕ, ◌≡◌, ◌≤◌, refl, sym, subst, Bool, true, false, Option, none, some, List, [], ◌∷◌, Str,
  text_key, ◌==◌, length, nat_beq, if◌then◌else◌, arith, get_elem?, map, and-true,
}
use hyperspot.Common.Map
use hyperspot.Sql.Toy.{toy, Row, cell}
use hyperspot.Odata.{
  SortDir, asc, desc, OrderKey, CursorV1, fwd, bwd, signed_token, to_signed_tokens,
}
use hyperspot.Odata
use hyperspot.Paging.{
  FieldKind, i64, Field, FieldMap, ok, get, build_cursor_for_model, build_cursor_predicate,
  model_keys, encode_model_key,
}
use hyperspot.Paging.Pages.{IsPrinted, beyond, columns, build_cursor_predicate-beyond}

abbrev lower : Str → Str
lower s = s

abbrev parse : FieldKind → Str → Option ℕ
parse kind [] = none
parse kind (n ∷ s) = some n

abbrev print : Row → Str
print [] = 0 ∷ []
print (none ∷ r) = 0 ∷ []
print (some n ∷ r) = n ∷ []

abbrev field : Field ℕ Row
field = record { col = 0; kind = i64; to_string_for_cursor = some print }

abbrev fields : FieldMap toy lower parse
fields = (110 ∷ [], field) ∷ []

abbrev seven : Row
seven = some 7 ∷ []

printed : IsPrinted toy lower parse fields seven
unfolding get
printed name f to_string there extractor =
    let same : f ≡ field = Map.lookup-All (λ p. p.1 ≡ field) name fields (refl, tt) there in
    subst
      (λ g.
        (t : Row → Str)
        → g.to_string_for_cursor ≡ some t
        → (v : ℕ) × (cell seven g.col ≡ some v) × (parse g.kind (t seven) ≡ some v))
      (sym same)
      (λ t e.
        let which : print ≡ t = cc in
        (7, refl, subst (λ u. parse i64 (u seven) ≡ some 7) which refl))
      to_string extractor

abbrev order : List OrderKey
order = record { field = 110 ∷ []; dir = desc } ∷ []

abbrev cursor : CursorV1
cursor = record { k = (7 ∷ []) ∷ []; o = desc; s = 45 ∷ 110 ∷ []; f = none; d = fwd }

built : build_cursor_for_model toy lower parse seven order fields desc none fwd ≡ Odata.ok cursor
unfolding build_cursor_for_model model_keys encode_model_key get Map.lookup to_signed_tokens
    signed_token hyperspot.Common.join
built = refl

build_cursor_predicate-beyond_example :
    (cond : toy.Cond) × (build_cursor_predicate toy lower parse cursor order fields ≡ ok cond)
    × ((r : Row)
        → toy.eval r cond ≡ beyond toy false r seven (columns toy lower parse fields order))
build_cursor_predicate-beyond_example =
    build_cursor_predicate-beyond toy lower parse fields seven order desc none fwd cursor printed
      built
