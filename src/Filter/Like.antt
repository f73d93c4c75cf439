-- ===== src/Filter/Like.antt =====
-- LIKE patterns: like_escape and its callers in core.rs, escape_like in sea_orm_filter.rs, and how
-- SQL reads a pattern whose escape character is the backslash, as PostgreSQL and MySQL do.
use hyperspot.Common.{ℕ, Bool, true, false, ◌||◌, List, [], ◌∷◌, ◌++◌, Str, nat_beq, if◌then◌else◌}

unfoldable pub is_special : ℕ → Bool
is_special c = nat_beq c b'%' || nat_beq c b'_' || nat_beq c b'\\'

unfoldable pub like_escape : Str → Str
like_escape [] = []
like_escape (c ∷ s) =
    let rest = like_escape s in if is_special c then b'\\' ∷ c ∷ rest else c ∷ rest

-- sea_orm_filter.rs writes the same loop again.
unfoldable pub escape_like : Str → Str
escape_like [] = []
escape_like (c ∷ s) =
    let rest = escape_like s in if is_special c then b'\\' ∷ c ∷ rest else c ∷ rest

unfoldable pub like_contains : Str → Str
like_contains s = b'%' ∷ (like_escape s ++ b'%' ∷ [])

unfoldable pub like_starts : Str → Str
like_starts s = like_escape s ++ b'%' ∷ []

unfoldable pub like_ends : Str → Str
like_ends s = b'%' ∷ like_escape s

-- What a pattern asks of a text: any run of characters, any one, or a certain one.
pub data Part : Type 0 where
  any_run any_one : Part
  exactly : ℕ → Part

-- The Boolean says that the character before was the escape.
unfoldable pub parts : Bool → Str → List Part
parts escaped [] = []
parts true (c ∷ p) = exactly c ∷ parts false p
parts false (c ∷ p) =
    let escape = parts true p in
    let rest = parts false p in
    if nat_beq c b'%'
    then any_run ∷ rest
    else if nat_beq c b'_'
    then any_one ∷ rest
    else if nat_beq c b'\\'
    then escape
    else exactly c ∷ rest

-- Some end of the text, itself and the empty one included, passes the test.
unfoldable pub some_end : (Str → Bool) → Str → Bool
some_end test [] = test []
some_end test (c ∷ t) = let later = some_end test t in if test (c ∷ t) then true else later

unfoldable pub fits : List Part → Str → Bool
fits [] [] = true
fits [] (c ∷ t) = false
fits (any_run ∷ ps) t = some_end (fits ps) t
fits (any_one ∷ ps) [] = false
fits (any_one ∷ ps) (c ∷ t) = fits ps t
fits (exactly d ∷ ps) [] = false
fits (exactly d ∷ ps) (c ∷ t) = let rest = fits ps t in if nat_beq d c then rest else false

unfoldable pub like : Str → Str → Bool
like pattern text = fits (parts false pattern) text
