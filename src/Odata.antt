-- ===== src/Odata.antt =====
-- libs/modkit-odata/src/lib.rs and limits.rs: sort orders, their signed tokens, cursors and the
-- input limits. The wire formats (serde_json, base64) are parameters, with the record `Wire` between.
pub mod Ast
pub mod Orders
pub mod Cursors
mod Tests
use mathlib.Core.Option
use hyperspot.Common.Results
pub use hyperspot.Common.Results.{ok, err, ok_or, ◌>>=◌}
use hyperspot.Common.{
  ℕ, Bool, true, false, not, ◌&&◌, ◌||◌, Option, none, some, List, [], ◌∷◌, ◌++◌, map, any, length,
  is_empty, Str, text_key, nat_key, ◌==◌, trim, split, join, if◌then◌else◌, ltb, nat_beq,
}

pub data SortDir : Type 0 where
  asc desc : SortDir

unfoldable pub reverse : SortDir → SortDir
reverse asc = desc
reverse desc = asc

abbrev pub dir_beq : SortDir → SortDir → Bool
dir_beq asc asc = true
dir_beq desc desc = true
dir_beq asc desc = false
dir_beq desc asc = false

pub record OrderKey : Type 0 where
  pub field : Str
  pub dir : SortDir

-- `Db` without its text.
pub data Error : Type 0 where
  invalid_filter invalid_order_by_field : Str → Error
  order_mismatch filter_mismatch invalid_cursor invalid_limit order_with_cursor db : Error
  cursor_invalid_base64 cursor_invalid_json cursor_invalid_version : Error
  cursor_invalid_keys cursor_invalid_fields cursor_invalid_direction : Error

abbrev pub Result : Type 0 → Type 0
Result A = Results.Result Error A

-- `ODataOrderBy` is its list of keys. '+' is 43, ',' is 44 and '-' is 45.
unfoldable pub signed_token : OrderKey → Str
signed_token k = elim (k.dir) [ asc ↦ 43 ∷ k.field | desc ↦ 45 ∷ k.field ]

unfoldable pub to_signed_tokens : List OrderKey → Str
to_signed_tokens order = join 44 (map signed_token order)

-- The direction and the name of a trimmed segment that is not empty.
unfoldable pub read_sign : ℕ → Str → SortDir × Str
read_sign c s = if nat_beq c 43 then (asc, s) else if nat_beq c 45 then (desc, s) else (asc, c ∷ s)

abbrev pub key_of : Str → SortDir × Str → Result OrderKey
key_of seg (dir, []) = err (invalid_order_by_field seg)
key_of seg (dir, c ∷ name) = ok (record { field = c ∷ name; dir = dir })

-- The loop over the segments; a segment that is blank is passed over.
unfoldable pub read_trimmed : Str → Result (List OrderKey) → Result (List OrderKey)
read_trimmed [] rest = rest
read_trimmed (c ∷ s) rest = key_of (c ∷ s) (read_sign c s) >>= λ k. rest >>= λ ks. ok (k ∷ ks)

unfoldable pub read_segments : List Str → Result (List OrderKey)
read_segments [] = ok []
read_segments (seg ∷ segs) = read_trimmed (trim seg) (read_segments segs)

-- "empty order"
abbrev pub empty_order : Str
empty_order = 101 ∷ 109 ∷ 112 ∷ 116 ∷ 121 ∷ 32 ∷ 111 ∷ 114 ∷ 100 ∷ 101 ∷ 114 ∷ []

abbrev pub not_empty : List OrderKey → Result (List OrderKey)
not_empty [] = err (invalid_order_by_field empty_order)
not_empty (k ∷ ks) = ok (k ∷ ks)

unfoldable pub from_signed_tokens : Str → Result (List OrderKey)
from_signed_tokens signed = read_segments (split 44 signed) >>= not_empty

-- `parse` of `equals_signed_tokens`, which passes over what is not a token.
abbrev pub named : SortDir × Str → Option (Str × SortDir)
named (dir, []) = none
named (dir, c ∷ name) = some (c ∷ name, dir)

unfoldable pub parse_trimmed : Str → Option (Str × SortDir)
parse_trimmed [] = none
parse_trimmed (c ∷ s) = named (read_sign c s)

unfoldable pub parse_token : Str → Option (Str × SortDir)
parse_token t = parse_trimmed (trim t)

abbrev pub keep {ℓ} : {A : Type ℓ} → Option A → List A → List A
keep none xs = xs
keep (some x) xs = x ∷ xs

unfoldable pub filter_map_tokens : List Str → List (Str × SortDir)
filter_map_tokens [] = []
filter_map_tokens (t ∷ ts) = keep (parse_token t) (filter_map_tokens ts)

-- The lengths differ, or all pairs agree.
unfoldable pub same_keys : List OrderKey → List (Str × SortDir) → Bool
same_keys [] [] = true
same_keys [] (p ∷ ps) = false
same_keys (k ∷ ks) [] = false
same_keys (k ∷ ks) ((name, dir) ∷ ps) = (k.field == name && dir_beq k.dir dir) && same_keys ks ps

unfoldable pub equals_signed_tokens : List OrderKey → Str → Bool
equals_signed_tokens order signed = same_keys order (filter_map_tokens (split 44 signed))

unfoldable pub ensure_tiebreaker : List OrderKey → Str → SortDir → List OrderKey
ensure_tiebreaker order tiebreaker dir =
    if not (any (λ k. k.field == tiebreaker) order)
    then order ++ record { field = tiebreaker; dir = dir } ∷ []
    else order

unfoldable pub reverse_key : OrderKey → OrderKey
reverse_key k = record k { dir = reverse k.dir }

unfoldable pub reverse_directions : List OrderKey → List OrderKey
reverse_directions order = map reverse_key order

pub record CursorV1 : Type 0 where
  pub k : List Str
  pub o : SortDir
  pub s : Str
  pub f : Option Str
  pub d : Str

-- "asc", "desc", "fwd" and "bwd".
abbrev pub asc_str : Str
asc_str = 97 ∷ 115 ∷ 99 ∷ []

abbrev pub desc_str : Str
desc_str = 100 ∷ 101 ∷ 115 ∷ 99 ∷ []

abbrev pub fwd : Str
fwd = 102 ∷ 119 ∷ 100 ∷ []

abbrev pub bwd : Str
bwd = 98 ∷ 119 ∷ 100 ∷ []

-- The two local structs of that name; `d` is there once serde has put in the default "fwd".
pub record Wire : Type 0 where
  pub v : ℕ
  pub k : List Str
  pub o : Str
  pub s : Str
  pub f : Option Str
  pub d : Str

abbrev pub dir_str : SortDir → Str
dir_str asc = asc_str
dir_str desc = desc_str

unfoldable pub wire_of : CursorV1 → Wire
wire_of c = record { v = 1; k = c.k; o = dir_str c.o; s = c.s; f = c.f; d = c.d }

unfoldable pub dir_of : Str → Result SortDir
dir_of o =
    if o == asc_str then ok asc else if o == desc_str then ok desc else err cursor_invalid_direction

-- The checks of `decode`, in its order.
unfoldable pub checked_fields : Wire → SortDir → Result CursorV1
checked_fields w o =
    if is_empty w.k
    then err cursor_invalid_keys
    else if is_empty (trim w.s)
    then err cursor_invalid_fields
    else if not (w.d == fwd) && not (w.d == bwd)
    then err cursor_invalid_direction
    else ok (record { k = w.k; o = o; s = w.s; f = w.f; d = w.d })

unfoldable pub checked : Wire → Result CursorV1
checked w =
    if not (nat_beq w.v 1) then err cursor_invalid_version else dir_of w.o >>= checked_fields w

-- `none` is a serialization error of serde_json.
unfoldable pub encode :
    {Bytes : Type 0} → (Wire → Option Bytes) → (Bytes → Str) → CursorV1 → Option Str
encode to_vec base64_encode c = Option.map base64_encode (to_vec (wire_of c))

unfoldable pub decode :
    {Bytes : Type 0} → (Bytes → Option Wire) → (Str → Option Bytes) → Str → Result CursorV1
decode from_slice base64_decode token =
    ok_or (base64_decode token) cursor_invalid_base64 >>= λ bytes.
    ok_or (from_slice bytes) cursor_invalid_json >>= checked

-- The two hashes agree, or one of them is missing.
unfoldable pub hashes_agree : Option Str → Option Str → Bool
hashes_agree none f = true
hashes_agree (some h) none = true
hashes_agree (some h) (some f) = h == f

unfoldable pub validate_cursor_against : CursorV1 → List OrderKey → Option Str → Result (Unit {0})
validate_cursor_against cursor order hash =
    if not (equals_signed_tokens order cursor.s)
    then err order_mismatch
    else if not (hashes_agree hash cursor.f)
    then err filter_mismatch
    else ok tt
