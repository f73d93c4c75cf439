-- ===== src/Odata/Orders.antt =====
-- Sort orders against their signed tokens.
use hyperspot.Common.{
  and-true, ==→≡, ◌==◌, ℕ, ◌≡◌, refl, ap, ap₂, subst, ◌∙◌, true, ◌&&◌, List, [], ◌∷◌, map, All, Str,
  ends_clean, trim-clean, split, split-join, Without, ==_refl, text_key, ◌↔◌,
}
use hyperspot.Odata.{
  read_trimmed, parse_trimmed, keep, reverse_key, SortDir, asc, desc, OrderKey, ok, ◌>>=◌,
  signed_token, to_signed_tokens, read_segments, read_sign, from_signed_tokens, filter_map_tokens,
  parse_token, same_keys, equals_signed_tokens, dir_beq, reverse_directions, reverse,
}

-- A field name that a token carries: not empty, with no comma, and white at the end it is not.
abbrev pub IsFieldName : OrderKey → Type 0
IsFieldName k = (ends_clean k.field ≡ true) × Without 44 k.field

clean_cons : (c : ℕ) (s : Str) → ends_clean s ≡ true → ends_clean (c ∷ s) ≡ true
clean_cons c [] h = cc
clean_cons c (d ∷ s) h = h

token-Without :
    (field : Str) (dir : SortDir)
    → Without 44 field
    → Without 44 (signed_token (record { field = field; dir = dir }))
unfolding signed_token
token-Without field asc h = (refl, h)
token-Without field desc h = (refl, h)

tokens-Without : (ks : List OrderKey) → All IsFieldName ks → All (Without 44) (map signed_token ks)
tokens-Without [] h = tt
tokens-Without (k ∷ ks) h = (token-Without k.field k.dir h.0.1, tokens-Without ks h.1)

split-tokens :
    (k : OrderKey) (ks : List OrderKey)
    → All IsFieldName (k ∷ ks)
    → split 44 (to_signed_tokens (k ∷ ks)) ≡ map signed_token (k ∷ ks)
unfolding to_signed_tokens
split-tokens k ks h =
    split-join 44 (signed_token k) (map signed_token ks) (tokens-Without (k ∷ ks) h)

read_segments-token :
    (field : Str) (dir : SortDir) (segs : List Str)
    → ends_clean field ≡ true
    → read_segments (signed_token (record { field = field; dir = dir }) ∷ segs)
      ≡ (read_segments segs >>= λ ks. ok (record { field = field; dir = dir } ∷ ks))
unfolding read_segments read_trimmed signed_token read_sign
read_segments-token [] dir segs h = cc
read_segments-token (c ∷ s) asc segs h =
    ap (λ t. read_trimmed t (read_segments segs)) (trim-clean 43 (c ∷ s) refl h)
read_segments-token (c ∷ s) desc segs h =
    ap (λ t. read_trimmed t (read_segments segs)) (trim-clean 45 (c ∷ s) refl h)

read_segments-tokens :
    (ks : List OrderKey) → All IsFieldName ks → read_segments (map signed_token ks) ≡ ok ks
read_segments-tokens [] h = unfold read_segments in refl
read_segments-tokens (k ∷ ks) h =
    read_segments-token k.field k.dir (map signed_token ks) h.0.0
    ∙ ap (λ r. r >>= λ l. ok (k ∷ l)) (read_segments-tokens ks h.1)

-- Reading back what was written: `from_signed_tokens` of `to_signed_tokens` is the order itself,
-- for an order that is not empty and whose field names are not empty, hold no comma and do not end
-- in whitespace.
pub from_signed_tokens-to_signed_tokens :
    (k : OrderKey) (ks : List OrderKey)
    → All IsFieldName (k ∷ ks)
    → from_signed_tokens (to_signed_tokens (k ∷ ks)) ≡ ok (k ∷ ks)
unfolding from_signed_tokens
from_signed_tokens-to_signed_tokens k ks h =
    rw (split-tokens k ks h, read_segments-tokens (k ∷ ks) h) refl

filter_map-token :
    (field : Str) (dir : SortDir) (segs : List Str)
    → ends_clean field ≡ true
    → filter_map_tokens (signed_token (record { field = field; dir = dir }) ∷ segs)
      ≡ (field, dir) ∷ filter_map_tokens segs
unfolding filter_map_tokens parse_token parse_trimmed signed_token read_sign
filter_map-token [] dir segs h = cc
filter_map-token (c ∷ s) asc segs h =
    ap (λ t. keep (parse_trimmed t) (filter_map_tokens segs)) (trim-clean 43 (c ∷ s) refl h)
filter_map-token (c ∷ s) desc segs h =
    ap (λ t. keep (parse_trimmed t) (filter_map_tokens segs)) (trim-clean 45 (c ∷ s) refl h)

filter_map-tokens :
    (ks : List OrderKey)
    → All IsFieldName ks
    → filter_map_tokens (map signed_token ks) ≡ map (λ k. (k.field, k.dir)) ks
filter_map-tokens [] h = unfold filter_map_tokens in refl
filter_map-tokens (k ∷ ks) h =
    filter_map-token k.field k.dir (map signed_token ks) h.0.0
    ∙ ap (λ l. (k.field, k.dir) ∷ l) (filter_map-tokens ks h.1)

reverse_twice : (d : SortDir) → reverse (reverse d) ≡ d
unfolding reverse
reverse_twice asc = refl
reverse_twice desc = refl

dir_beq_refl : (a : SortDir) → dir_beq a a ≡ true
dir_beq_refl asc = refl
dir_beq_refl desc = refl

dir_beq→≡ : (a b : SortDir) → dir_beq a b ≡ true → a ≡ b
dir_beq→≡ asc asc h = refl
dir_beq→≡ asc desc h = cc
dir_beq→≡ desc asc h = cc
dir_beq→≡ desc desc h = refl

pairs_of : List OrderKey → List (Str × SortDir)
pairs_of ks = map (λ k. (k.field, k.dir)) ks

-- The test of two orders that `equals_signed_tokens` makes, on keys.
same_keys_refl : (ks : List OrderKey) → same_keys ks (pairs_of ks) ≡ true
unfolding same_keys pairs_of
same_keys_refl [] = refl
same_keys_refl (k ∷ ks) = rw (==_refl k.field, dir_beq_refl k.dir) (same_keys_refl ks)

same_keys→≡ : (ks js : List OrderKey) → same_keys ks (pairs_of js) ≡ true → ks ≡ js
unfolding same_keys pairs_of
same_keys→≡ [] [] h = refl
same_keys→≡ [] (j ∷ js) h = cc
same_keys→≡ (k ∷ ks) [] h = cc
same_keys→≡ (k ∷ ks) (j ∷ js) h =
    let all = and-true (k.field == j.field && dir_beq k.dir j.dir) (same_keys ks (pairs_of js)) h in
    let here = and-true (k.field == j.field) (dir_beq k.dir j.dir) all.0 in
    ap₂ (◌∷◌)
      (ap₂ (λ f d. record { field = f; dir = d }) (==→≡ k.field j.field here.0)
        (dir_beq→≡ k.dir j.dir here.1))
      (same_keys→≡ ks js all.1)

-- `equals_signed_tokens` of one order's keys and the tokens of another says whether the two
-- orders are the same, for a second order that is not empty and whose field names are not empty,
-- hold no comma and do not end in whitespace.
pub equals_signed_tokens-to_signed_tokens :
    (ks : List OrderKey) (j : OrderKey) (js : List OrderKey)
    → All IsFieldName (j ∷ js)
    → (equals_signed_tokens ks (to_signed_tokens (j ∷ js)) ≡ true) ↔ (ks ≡ j ∷ js)
unfolding equals_signed_tokens pairs_of
equals_signed_tokens-to_signed_tokens ks j js h =
    rw (split-tokens j js h, filter_map-tokens (j ∷ js) h)
      (
        same_keys→≡ ks (j ∷ js),
        λ e. subst (λ l. same_keys ks (pairs_of l) ≡ true) e (same_keys_refl ks),
      )

-- `reverse_directions` twice is the identity.
pub reverse_directions_twice :
    (ks : List OrderKey) → reverse_directions (reverse_directions ks) ≡ ks
unfolding reverse_directions reverse_key reverse
reverse_directions_twice [] = refl
reverse_directions_twice (k ∷ ks) =
    ap₂ (◌∷◌) (ap (λ d. record k { dir = d }) (reverse_twice k.dir)) (reverse_directions_twice ks)
