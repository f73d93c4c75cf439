-- ===== src/Common/Texts.antt =====
-- Rust's `str` as the list of its code points, with the operations that the models use.
use mathlib.Core.Path.{◌≡◌, refl, ap, ap₂, subst, ◌∙◌}
use mathlib.Core.Logic.{inl, inr}
use mathlib.Core.Bool.{Bool, true, false, not, ◌||◌, ◌&&◌}
use mathlib.Core.Option.{Option, none, some}
use mathlib.Core.List.{List, [], ◌∷◌, ◌++◌}
use Prim.Native.Nat.{ℕ}
use hyperspot.Common.Tests.{if◌then◌else◌, leb, Bool-cases, nat_beq, nat_beq_iff}
use hyperspot.Common.PartialEq.{PartialEq, nat_key}
use hyperspot.Common.Lists.{All}

abbrev pub Str : Type 0
Str = List ℕ

abbrev pub str_beq : Str → Str → Bool
str_beq [] [] = true
str_beq [] (d ∷ t) = false
str_beq (c ∷ s) [] = false
str_beq (c ∷ s) (d ∷ t) = if nat_beq c d then str_beq s t else false

pub str_beq_refl : (s : Str) → str_beq s s ≡ true
str_beq_refl [] = refl
str_beq_refl (c ∷ s) = rw ((nat_beq_iff c c).1 refl) (str_beq_refl s)

pub str_beq→≡ : (s t : Str) → str_beq s t ≡ true → s ≡ t
str_beq→≡ [] [] h = refl
str_beq→≡ [] (d ∷ t) h = cc
str_beq→≡ (c ∷ s) [] h = cc
str_beq→≡ (c ∷ s) (d ∷ t) h = elim (Bool-cases (nat_beq c d)) [
  | inl e ↦ ap₂ (◌∷◌) ((nat_beq_iff c d).0 e) (str_beq→≡ s t (rw e at h))
  | inr e ↦ let no : false ≡ true = rw e at h in cc
]

instance abbrev pub text_key : PartialEq Str
text_key = record {
  agrees = str_beq;
  agrees_iff = λ s t. (str_beq→≡ s t, λ e. subst (λ u. str_beq s u ≡ true) e (str_beq_refl s));
}

-- `char::is_whitespace`: the code points with Unicode's White_Space property.
abbrev pub is_whitespace : ℕ → Bool
is_whitespace c =
    (leb 9 c && leb c 13)
    || nat_beq c 32
    || nat_beq c 133
    || nat_beq c 160
    || nat_beq c 5760
    || (leb 8192 c && leb c 8202)
    || nat_beq c 8232
    || nat_beq c 8233
    || nat_beq c 8239
    || nat_beq c 8287
    || nat_beq c 12288

unfoldable pub trim_start : Str → Str
trim_start [] = []
trim_start (c ∷ s) = if is_whitespace c then trim_start s else c ∷ s

abbrev pub trim_end_cons : ℕ → Str → Str
trim_end_cons c [] = if is_whitespace c then [] else c ∷ []
trim_end_cons c (d ∷ t) = c ∷ d ∷ t

unfoldable pub trim_end : Str → Str
trim_end [] = []
trim_end (c ∷ s) = trim_end_cons c (trim_end s)

unfoldable pub trim : Str → Str
trim s = trim_end (trim_start s)

-- `s.split(c)`: never empty.
abbrev pub grow : ℕ → List Str → List Str
grow c [] = (c ∷ []) ∷ []
grow c (x ∷ xs) = (c ∷ x) ∷ xs

unfoldable pub split : ℕ → Str → List Str
split sep [] = [] ∷ []
split sep (c ∷ s) = if nat_beq c sep then [] ∷ split sep s else grow c (split sep s)

unfoldable pub join : ℕ → List Str → Str
join sep [] = []
join sep (x ∷ []) = x
join sep (x ∷ y ∷ xs) = x ++ sep ∷ join sep (y ∷ xs)

unfoldable pub strip_prefix : Str → Str → Option Str
strip_prefix [] s = some s
strip_prefix (p ∷ ps) [] = none
strip_prefix (p ∷ ps) (c ∷ s) = if nat_beq c p then strip_prefix ps s else none

-- `s` without the suffix, when it ends with it.
abbrev pub under : ℕ → Option Str → Option Str
under c none = none
under c (some t) = some (c ∷ t)

unfoldable pub strip_suffix : Str → Str → Option Str
strip_suffix p [] = if str_beq [] p then some [] else none
strip_suffix p (c ∷ s) =
    let rest = under c (strip_suffix p s) in if str_beq (c ∷ s) p then some [] else rest

abbrev pub is_blank : Str → Bool
is_blank [] = true
is_blank (c ∷ s) = if is_whitespace c then is_blank s else false

-- The last character is there, and is not white.
abbrev pub ends_clean : Str → Bool
ends_clean [] = false
ends_clean (c ∷ []) = not (is_whitespace c)
ends_clean (c ∷ d ∷ s) = ends_clean (d ∷ s)

pub trim_end-clean : (s : Str) → ends_clean s ≡ true → trim_end s ≡ s
unfolding trim_end
trim_end-clean [] h = refl
trim_end-clean (c ∷ []) h = elim (Bool-cases (is_whitespace c)) [
  | inl e ↦ let no : false ≡ true = rw e at h in cc
  | inr e ↦ rw e refl
]
trim_end-clean (c ∷ d ∷ s) h = ap (trim_end_cons c) (trim_end-clean (d ∷ s) h)

-- A text that starts and ends with characters that are not white.
pub trim-clean :
    (c : ℕ) (s : Str) → is_whitespace c ≡ false → ends_clean (c ∷ s) ≡ true → trim (c ∷ s) ≡ c ∷ s
unfolding trim trim_start
trim-clean c s first last = rw first (trim_end-clean (c ∷ s) last)

module _ (sep : ℕ) where
  abbrev pub Without : Str → Type 0
  Without s = All (λ c. nat_beq c sep ≡ false) s

  split-Without : (s : Str) → Without s → split sep s ≡ s ∷ []
  unfolding split
  split-Without [] h = refl
  split-Without (c ∷ s) h = rw (h.0, split-Without s h.1) refl

  split-append : (s t : Str) → Without s → split sep (s ++ sep ∷ t) ≡ s ∷ split sep t
  unfolding split
  split-append [] t h = rw ((nat_beq_iff sep sep).1 refl) refl
  split-append (c ∷ s) t h = rw (h.0, split-append s t h.1) refl

  -- Splitting undoes joining, if no part has the separator.
  pub split-join :
      (x : Str) (xs : List Str) → All Without (x ∷ xs) → split sep (join sep (x ∷ xs)) ≡ x ∷ xs
  unfolding join
  split-join x [] h = split-Without x h.0
  split-join x (y ∷ xs) h =
      split-append x (join sep (y ∷ xs)) h.0 ∙ ap (λ l. x ∷ l) (split-join y xs h.1)
