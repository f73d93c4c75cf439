-- ===== src/Filter/Patterns.antt =====
-- The patterns that are built match exactly the texts that contain, start with or end in the string,
-- whatever wildcards it holds.
use hyperspot.Common.{
  ◌≡◌, refl, sym, ap, subst, ◌∙◌, inl, inr, ◌↔◌, Bool, true, false, List, [], ◌∷◌, ◌++◌, map, Str,
  str_beq, nat_beq, nat_beq_iff, if◌then◌else◌, Bool-cases, arith,
}
use mathlib.Core.List.{append-nil}
use mathlib.Core.Path.{fun_ext}
use hyperspot.Filter.Like.{
  is_special, like_escape, like_contains, like_starts, like_ends, Part, any_run, exactly, parts,
  some_end, fits, like,
}

-- Escaped text asks for its own characters.
parts-like_escape : (s q : Str) → parts false (like_escape s ++ q) ≡ map exactly s ++ parts false q
unfolding parts like_escape is_special
parts-like_escape [] q = refl
parts-like_escape (c ∷ s) q = ground (arith, parts-like_escape s q)

EndsIn : (Str → Bool) → Str → Type 0
EndsIn test t = (before after : Str) × (t ≡ before ++ after) × (test after ≡ true)

some_end-EndsIn : (test : Str → Bool) (t : Str) → some_end test t ≡ true → EndsIn test t
unfolding some_end EndsIn
some_end-EndsIn test [] h = ([], [], refl, h)
some_end-EndsIn test (c ∷ t) h = elim (Bool-cases (test (c ∷ t))) [
  | inl e ↦ ([], c ∷ t, refl, e)
  | inr e ↦
      let (before, after, split, good) = some_end-EndsIn test t (rw e at h) in
      (c ∷ before, after, ap (λ u. c ∷ u) split, good)
]

EndsIn-some_end :
    (test : Str → Bool) (t before after : Str)
    → t ≡ before ++ after
    → test after ≡ true
    → some_end test t ≡ true
unfolding some_end
EndsIn-some_end test [] [] after e h = subst (λ u. test u ≡ true) (sym e) h
EndsIn-some_end test [] (b ∷ before) after e h = cc
EndsIn-some_end test (c ∷ t) [] after e h =
    let here : test (c ∷ t) ≡ true = subst (λ u. test u ≡ true) (sym e) h in rw here refl
EndsIn-some_end test (c ∷ t) (b ∷ before) after e h =
    let rest : t ≡ before ++ after = cc in
    let later = EndsIn-some_end test t before after rest h in
    elim (Bool-cases (test (c ∷ t))) [ inl q ↦ rw q refl | inr q ↦ rw q later ]

fits-exactly :
    (s : Str) (ps : List Part) (t : Str)
    → fits (map exactly s ++ ps) t ≡ true
    → (after : Str) × (t ≡ s ++ after) × (fits ps after ≡ true)
unfolding fits
fits-exactly [] ps t h = (t, refl, h)
fits-exactly (d ∷ s) ps [] h = cc
fits-exactly (d ∷ s) ps (c ∷ t) h = elim (Bool-cases (nat_beq d c)) [
  | inl e ↦
      let same : d ≡ c = (nat_beq_iff d c).0 e in
      let (after, split, good) = fits-exactly s ps t (rw e at h) in
      (after, subst (λ x. c ∷ t ≡ x ∷ (s ++ after)) (sym same) (ap (λ u. c ∷ u) split), good)
  | inr e ↦ let gone : false ≡ true = rw e at h in cc
]

exactly-fits :
    (s : Str) (ps : List Part) (after : Str)
    → fits ps after ≡ true
    → fits (map exactly s ++ ps) (s ++ after) ≡ true
unfolding fits
exactly-fits [] ps after h = h
exactly-fits (d ∷ s) ps after h = rw ((nat_beq_iff d d).1 refl) (exactly-fits s ps after h)

run-fits : (t : Str) → fits (any_run ∷ []) t ≡ true
unfolding fits some_end
run-fits [] = refl
run-fits (c ∷ t) = run-fits t

empty-fits : (t : Str) → fits [] t ≡ true → t ≡ []
unfolding fits
empty-fits [] h = refl
empty-fits (c ∷ t) h = cc

parts-starts : (s : Str) → parts false (like_starts s) ≡ map exactly s ++ any_run ∷ []
unfolding like_starts parts
parts-starts s = parts-like_escape s (b'%' ∷ [])

parts-run : (p : Str) → parts false (b'%' ∷ p) ≡ any_run ∷ parts false p
unfolding parts
parts-run p = refl

parts-escaped : (s : Str) → parts false (like_escape s) ≡ map exactly s
unfolding parts
parts-escaped s =
    ap (parts false) (sym (append-nil (like_escape s)))
    ∙ parts-like_escape s []
    ∙ append-nil (map exactly s)

starts_iff : (s t : Str) → (like (like_starts s) t ≡ true) ↔ ((after : Str) × (t ≡ s ++ after))
unfolding like
starts_iff s t = (
  λ h.
      let (after, e, good) =
        fits-exactly s (any_run ∷ []) t (subst (λ p. fits p t ≡ true) (parts-starts s) h) in
      (after, e),
  λ (after, e).
      subst (λ u. fits (parts false (like_starts s)) u ≡ true) (sym e)
        (subst (λ p. fits p (s ++ after) ≡ true) (sym (parts-starts s))
          (exactly-fits s (any_run ∷ []) after (run-fits after))),
)

parts-ends : (s : Str) → parts false (like_ends s) ≡ any_run ∷ map exactly s
unfolding like_ends
parts-ends s = parts-run (like_escape s) ∙ ap (λ ps. any_run ∷ ps) (parts-escaped s)

parts-contains :
    (s : Str) → parts false (like_contains s) ≡ any_run ∷ (map exactly s ++ any_run ∷ [])
unfolding like_contains like_starts
parts-contains s = parts-run (like_escape s ++ b'%' ∷ []) ∙ ap (λ ps. any_run ∷ ps) (parts-starts s)

after_run : (ps : List Part) (t : Str) → fits (any_run ∷ ps) t ≡ true → EndsIn (fits ps) t
unfolding fits
after_run ps t h = some_end-EndsIn (fits ps) t h

before_run :
    (ps : List Part) (before after : Str)
    → fits ps after ≡ true
    → fits (any_run ∷ ps) (before ++ after) ≡ true
unfolding fits
before_run ps before after h = EndsIn-some_end (fits ps) (before ++ after) before after refl h

ends_iff : (s t : Str) → (like (like_ends s) t ≡ true) ↔ ((before : Str) × (t ≡ before ++ s))
unfolding like EndsIn
ends_iff s t = (
  λ h.
      let (before, after, split, good) =
        after_run (map exactly s) t (subst (λ p. fits p t ≡ true) (parts-ends s) h) in
      let (end, e, nothing) =
        fits-exactly s [] after
          (subst (λ p. fits p after ≡ true) (sym (append-nil (map exactly s))) good) in
      let whole : after ≡ s = e ∙ ap (λ u. s ++ u) (empty-fits end nothing) ∙ append-nil s in
      (before, split ∙ ap (λ u. before ++ u) whole),
  λ (before, e).
      let good =
        subst (λ p. fits p s ≡ true) (append-nil (map exactly s))
          (subst (λ u. fits (map exactly s ++ []) u ≡ true) (append-nil s)
            (exactly-fits s [] [] (unfold fits in refl))) in
      subst (λ u. fits (parts false (like_ends s)) u ≡ true) (sym e)
        (subst (λ p. fits p (before ++ s) ≡ true) (sym (parts-ends s))
          (before_run (map exactly s) before s good)),
)

contains_iff :
    (s t : Str)
    → (like (like_contains s) t ≡ true) ↔ ((before after : Str) × (t ≡ before ++ (s ++ after)))
unfolding like EndsIn
contains_iff s t = (
  λ h.
      let (before, rest, split, good) =
        after_run (map exactly s ++ any_run ∷ []) t
          (subst (λ p. fits p t ≡ true) (parts-contains s) h) in
      let (after, e, any) = fits-exactly s (any_run ∷ []) rest good in
      (before, after, split ∙ ap (λ u. before ++ u) e),
  λ (before, after, e).
      subst (λ u. fits (parts false (like_contains s)) u ≡ true) (sym e)
        (subst (λ p. fits p (before ++ (s ++ after)) ≡ true) (sym (parts-contains s))
          (before_run (map exactly s ++ any_run ∷ []) before (s ++ after)
            (exactly-fits s (any_run ∷ []) after (run-fits after)))),
)

-- startsWith(field, s) finds the texts that start with s, endsWith those that end in s, and contains
-- those that hold s somewhere; the wildcards and backslashes of s stand for themselves.
pub like_patterns_iff :
    (s t : Str)
    → ((like (like_starts s) t ≡ true) ↔ ((after : Str) × (t ≡ s ++ after)))
      × ((like (like_ends s) t ≡ true) ↔ ((before : Str) × (t ≡ before ++ s)))
      × ((like (like_contains s) t ≡ true) ↔ ((before after : Str) × (t ≡ before ++ (s ++ after))))
like_patterns_iff s t = (starts_iff s t, ends_iff s t, contains_iff s t)

-- The same tests as functions of the text.
unfoldable pub starts_with : Str → Str → Bool
starts_with [] t = true
starts_with (c ∷ s) [] = false
starts_with (c ∷ s) (d ∷ t) = let rest = starts_with s t in if nat_beq c d then rest else false

unfoldable pub ends_with : Str → Str → Bool
ends_with s t = some_end (str_beq s) t

unfoldable pub contains_text : Str → Str → Bool
contains_text s t = some_end (starts_with s) t

fits-starts_with : (s t : Str) → fits (map exactly s ++ any_run ∷ []) t ≡ starts_with s t
unfolding fits starts_with
fits-starts_with [] t = run-fits t
fits-starts_with (c ∷ s) [] = refl
fits-starts_with (c ∷ s) (d ∷ t) = rw (fits-starts_with s t) refl

fits-str_beq : (s t : Str) → fits (map exactly s) t ≡ str_beq s t
unfolding fits
fits-str_beq [] [] = refl
fits-str_beq [] (d ∷ t) = refl
fits-str_beq (c ∷ s) [] = refl
fits-str_beq (c ∷ s) (d ∷ t) = rw (fits-str_beq s t) refl

pub like-starts_with : (s t : Str) → like (like_starts s) t ≡ starts_with s t
unfolding like
like-starts_with s t = ap (λ p. fits p t) (parts-starts s) ∙ fits-starts_with s t

pub like-ends_with : (s t : Str) → like (like_ends s) t ≡ ends_with s t
unfolding like ends_with fits
like-ends_with s t =
    ap (λ p. fits p t) (parts-ends s) ∙ ap (λ test. some_end test t) (fun_ext (fits-str_beq s))

pub like-contains_text : (s t : Str) → like (like_contains s) t ≡ contains_text s t
unfolding like contains_text fits
like-contains_text s t =
    ap (λ p. fits p t) (parts-contains s)
    ∙ ap (λ test. some_end test t) (fun_ext (fits-starts_with s))
