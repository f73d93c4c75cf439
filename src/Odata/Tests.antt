-- ===== src/Odata/Tests.antt =====
-- The order "+name,-id", and a cursor over it on a wire that is the record itself.
use hyperspot.Common.{
  ℕ, zero, suc, trim, trim_start, trim_end, All, grow, ap, ◌∙◌, subst, ◌≡◌, refl, Option, none,
  some, List, [], ◌∷◌, Str,
}
use hyperspot.Odata.{
  SortDir, asc, desc, OrderKey, CursorV1, Wire, Result, ok, to_signed_tokens, from_signed_tokens,
  equals_signed_tokens, encode, decode, wire_of, checked, reverse_directions, fwd,
}
use hyperspot.Odata.Orders.{
  IsFieldName, from_signed_tokens-to_signed_tokens, reverse_directions_twice,
}
use hyperspot.Odata.Cursors.{IsCursor, decode-encode}

-- "name" upwards, then "id" downwards.
abbrev name_key : OrderKey
name_key = record { field = 110 ∷ 97 ∷ 109 ∷ 101 ∷ []; dir = asc }

abbrev id_key : OrderKey
id_key = record { field = 105 ∷ 100 ∷ []; dir = desc }

abbrev tokens : Str
tokens = 43 ∷ 110 ∷ 97 ∷ 109 ∷ 101 ∷ 44 ∷ 45 ∷ 105 ∷ 100 ∷ []

name_key-id_key : All IsFieldName (name_key ∷ id_key ∷ [])
name_key-id_key = ((refl, (refl, (refl, (refl, (refl, tt))))), ((refl, (refl, (refl, tt))), tt))

from_signed_tokens-to_signed_tokens_example :
    from_signed_tokens (to_signed_tokens (name_key ∷ id_key ∷ [])) ≡ ok (name_key ∷ id_key ∷ [])
from_signed_tokens-to_signed_tokens_example =
    from_signed_tokens-to_signed_tokens name_key (id_key ∷ []) name_key-id_key

abbrev cursor : CursorV1
cursor = record { k = (97 ∷ []) ∷ (49 ∷ []) ∷ []; o = asc; s = tokens; f = none; d = fwd }

-- A wire format: the fields as a list of texts, each with its characters moved up by one and a
-- zero at its end. The bytes are the text itself.
abbrev pack : Wire → List Str
pack w = (w.v ∷ []) ∷ w.o ∷ w.s ∷ w.d ∷ elim (w.f) [ none ↦ [] | some h ↦ 1 ∷ h ] ∷ w.k

abbrev unpack : List Str → Option Wire
unpack ((v ∷ []) ∷ o ∷ s ∷ d ∷ [] ∷ k) =
    some (record { v = v; k = k; o = o; s = s; f = none; d = d })
unpack ((v ∷ []) ∷ o ∷ s ∷ d ∷ (n ∷ h) ∷ k) =
    some (record { v = v; k = k; o = o; s = s; f = some h; d = d })
unpack l = none

abbrev put : Str → Str → Str
put [] t = 0 ∷ t
put (c ∷ s) t = suc c ∷ put s t

abbrev put_all : List Str → Str
put_all [] = []
put_all (x ∷ xs) = put x (put_all xs)

abbrev take_all : Str → List Str
take_all [] = []
take_all (zero ∷ t) = [] ∷ take_all t
take_all (suc c ∷ t) = grow c (take_all t)

take_all-put : (s t : Str) → take_all (put s t) ≡ s ∷ take_all t
take_all-put [] t = refl
take_all-put (c ∷ s) t = ap (grow c) (take_all-put s t)

take_all-put_all : (l : List Str) → take_all (put_all l) ≡ l
take_all-put_all [] = refl
take_all-put_all (x ∷ xs) = take_all-put x (put_all xs) ∙ ap (λ l. x ∷ l) (take_all-put_all xs)

abbrev to_vec : Wire → Option Str
to_vec w = some (put_all (pack w))

abbrev from_slice : Str → Option Wire
from_slice b = unpack (take_all b)

unpack-pack :
    (f : Option Str) (v : ℕ) (k : List Str) (o s d : Str)
    → unpack (pack (record { v = v; k = k; o = o; s = s; f = f; d = d }))
      ≡ some (record { v = v; k = k; o = o; s = s; f = f; d = d })
unpack-pack none v k o s d = refl
unpack-pack (some h) v k o s d = refl

from_slice-to_vec : (w : Wire) (b : Str) → to_vec w ≡ some b → from_slice b ≡ some w
from_slice-to_vec w b e =
    let same : put_all (pack w) ≡ b = cc in
    subst (λ c. from_slice c ≡ some w) same
      (ap unpack (take_all-put_all (pack w)) ∙ unpack-pack w.f w.v w.k w.o w.s w.d)

decode-encode_example :
    (decode from_slice some (put_all (pack (wire_of cursor))) ≡ ok cursor → IsCursor cursor)
    × (IsCursor cursor
        → encode to_vec (λ b. b) cursor ≡ some (put_all (pack (wire_of cursor)))
        → decode from_slice some (put_all (pack (wire_of cursor))) ≡ ok cursor)
decode-encode_example =
    decode-encode to_vec from_slice (λ b. b) some from_slice-to_vec (λ b. refl) cursor
      (put_all (pack (wire_of cursor)))

there_and_back : decode from_slice some (put_all (pack (wire_of cursor))) ≡ ok cursor
unfolding encode trim_end trim_start
there_and_back = decode-encode_example.1 (refl, unfold trim in refl, refl) refl

reversed_twice :
    reverse_directions (reverse_directions (name_key ∷ id_key ∷ [])) ≡ name_key ∷ id_key ∷ []
reversed_twice = reverse_directions_twice (name_key ∷ id_key ∷ [])
