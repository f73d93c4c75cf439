-- ===== src/Odata/Cursors.antt =====
-- Cursors: the checks of `decode`, the round trip with `encode`, and `validate_cursor_against`.
use mathlib.Core.Option
use hyperspot.Common.{
  ◌≡◌, refl, ap, subst, ap₂, sym, ◌∙◌, ◌↔◌, false, not, ◌&&◌, Option, none, some, Str, trim,
  is_empty, nat_beq, nat_beq_iff, ◌==◌, ==→≡, text_key, Bool-cases, inl, inr,
}
use hyperspot.Common.Results.{ok-inj, bind-ok}
use hyperspot.Odata.{
  ok_or, SortDir, asc, desc, ok, err, CursorV1, Wire, wire_of, dir_of, checked, encode, decode,
  asc_str, desc_str, fwd, bwd, cursor_invalid_direction, cursor_invalid_keys, cursor_invalid_fields,
  cursor_invalid_version, cursor_invalid_base64, cursor_invalid_json, dir_str, checked_fields,
}

-- What a cursor has to be: some keys, some tokens, and one of the two directions.
abbrev pub IsCursor : CursorV1 → Type 0
IsCursor c =
    (is_empty c.k ≡ false)
    × (is_empty (trim c.s) ≡ false)
    × (not (c.d == fwd) && not (c.d == bwd) ≡ false)

dir_of-dir_str : (o : SortDir) → dir_of (dir_str o) ≡ ok o
unfolding dir_of
dir_of-dir_str asc = refl
dir_of-dir_str desc = refl

dir_of-ok : (s : Str) (o : SortDir) → dir_of s ≡ ok o → dir_str o ≡ s
unfolding dir_of
dir_of-ok s o h = elim (Bool-cases (s == asc_str)) [
  | inl e ↦
      let q : ok asc ≡ ok o = rw e at h in ap dir_str (ok-inj (sym q)) ∙ sym (==→≡ s asc_str e)
  | inr e ↦ elim (Bool-cases (s == desc_str)) [
    | inl d ↦
        let q : ok desc ≡ ok o = rw (e, d) at h in
        ap dir_str (ok-inj (sym q)) ∙ sym (==→≡ s desc_str d)
    | inr d ↦ let q : err cursor_invalid_direction ≡ ok o = rw (e, d) at h in cc
  ]
]

checked-wire_of : (c : CursorV1) → IsCursor c → checked (wire_of c) ≡ ok c
unfolding checked checked_fields wire_of
checked-wire_of c h = rw (dir_of-dir_str c.o, h.0, h.1, h.2) refl

checked_fields-ok :
    (w : Wire) (o : SortDir) (c : CursorV1)
    → checked_fields w o ≡ ok c
    → IsCursor c × (record w { v = 1; o = dir_str o } ≡ wire_of c)
unfolding checked_fields wire_of
checked_fields-ok w o c h = elim (Bool-cases (is_empty w.k)) [
  | inl e ↦ let q : err cursor_invalid_keys ≡ ok c = rw e at h in cc
  | inr e ↦ elim (Bool-cases (is_empty (trim w.s))) [
    | inl e' ↦ let q : err cursor_invalid_fields ≡ ok c = rw (e, e') at h in cc
    | inr e' ↦ elim (Bool-cases (not (w.d == fwd) && not (w.d == bwd))) [
      | inl e'' ↦ let q : err cursor_invalid_direction ≡ ok c = rw (e, e', e'') at h in cc
      | inr e'' ↦
          let q = ok-inj (rw (e, e', e'') at h) in
          subst (λ x. IsCursor x × (record w { v = 1; o = dir_str o } ≡ wire_of x)) q
            ((e, e', e''), refl)
    ]
  ]
]

checked-ok : (w : Wire) (c : CursorV1) → checked w ≡ ok c → IsCursor c × (w ≡ wire_of c)
unfolding checked
checked-ok w c h = elim (Bool-cases (nat_beq w.v 1)) [
  | inr e ↦ let q : err cursor_invalid_version ≡ ok c = rw e at h in cc
  | inl e ↦
      let (o, read, rest) = bind-ok (dir_of w.o) (checked_fields w) (rw e at h) in
      let fields = checked_fields-ok w o c rest in
      let same : record w { v = 1; o = dir_str o } ≡ w =
        ap₂ (λ v o'. record w { v = v; o = o' }) (sym ((nat_beq_iff w.v 1).0 e))
          (dir_of-ok w.o o read) in
      (fields.0, sym same ∙ fields.1)
]

decode-IsCursor :
    {Bytes : Type 0} (from_slice : Bytes → Option Wire) (base64_decode : Str → Option Bytes)
    (c : CursorV1) (token : Str)
    → decode from_slice base64_decode token ≡ ok c
    → IsCursor c
unfolding decode
decode-IsCursor from_slice base64_decode c token h =
    let (bytes, e, rest) = bind-ok (ok_or (base64_decode token) cursor_invalid_base64) _ h in
    let (w, d, checks) = bind-ok (ok_or (from_slice bytes) cursor_invalid_json) checked rest in
    (checked-ok w c checks).0

pub map-some :
    {A B : Type 0} (o : Option A) (f : A → B) {b : B}
    → Option.map f o ≡ some b
    → (a : A) × (o ≡ some a) × (f a ≡ b)
map-some none f h = cc
map-some (some a) f h = (a, refl, cc)

-- The checks of `decode` pass a wire record exactly when it is the record of a cursor that has keys,
-- tokens that are not blank and one of the directions "fwd" and "bwd", and then they give that cursor.
pub checked_iff : (w : Wire) (c : CursorV1) → (checked w ≡ ok c) ↔ (IsCursor c × (w ≡ wire_of c))
checked_iff w c = (checked-ok w c, λ h. ap checked h.1 ∙ checked-wire_of c h.0)

encode-some :
    {Bytes : Type 0} (to_vec : Wire → Option Bytes) (base64_encode : Bytes → Str) (c : CursorV1)
    {token : Str}
    → encode to_vec base64_encode c ≡ some token
    → (bytes : Bytes) × (to_vec (wire_of c) ≡ some bytes) × (base64_encode bytes ≡ token)
unfolding encode
encode-some to_vec base64_encode c e = map-some (to_vec (wire_of c)) base64_encode e

decode-bytes :
    {Bytes : Type 0} (from_slice : Bytes → Option Wire) (base64_encode : Bytes → Str)
    (base64_decode : Str → Option Bytes) {bytes : Bytes} {w : Wire} {c : CursorV1}
    → base64_decode (base64_encode bytes) ≡ some bytes
    → from_slice bytes ≡ some w
    → checked w ≡ ok c
    → decode from_slice base64_decode (base64_encode bytes) ≡ ok c
unfolding decode
decode-bytes from_slice base64_encode base64_decode base64 json checks = rw (base64, json) checks

-- A decoded cursor has keys, tokens that are not blank and one of the two directions, whatever
-- the token was, and decoding the token that `encode` gives such a cursor returns the cursor.
-- The conditions are that base64 decodes what it encoded and that serde_json reads what it wrote.
pub decode-encode :
    {Bytes : Type 0} (to_vec : Wire → Option Bytes) (from_slice : Bytes → Option Wire)
    (base64_encode : Bytes → Str) (base64_decode : Str → Option Bytes)
    → ((w : Wire) (b : Bytes) → to_vec w ≡ some b → from_slice b ≡ some w)
    → ((b : Bytes) → base64_decode (base64_encode b) ≡ some b)
    → (c : CursorV1) (token : Str)
    → (decode from_slice base64_decode token ≡ ok c → IsCursor c)
      × (IsCursor c
          → encode to_vec base64_encode c ≡ some token
          → decode from_slice base64_decode token ≡ ok c)
decode-encode to_vec from_slice base64_encode base64_decode json base64 c token = (
  decode-IsCursor from_slice base64_decode c token,
  λ h e.
      let (bytes, written, coded) = encode-some to_vec base64_encode c e in
      subst (λ t. decode from_slice base64_decode t ≡ ok c) coded
        (decode-bytes from_slice base64_encode base64_decode (base64 bytes)
          (json (wire_of c) bytes written) (checked-wire_of c h)),
)
