-- ===== src/Retry/Bounds.antt =====
-- How often `call_with_retry` calls, how long it sleeps, and what it answers.
use Prim.Native.Nat.{min}
use mathlib.Core.List.{append_assoc, append-nil}
use native.Mathlib.Nat.{mod-eq_of_lt}
use hyperspot.Common.{
  ℕ, zero, suc, ◌+◌, ◌*◌, ◌%◌, ◌^◌, ◌≤◌, ◌<◌, ◌≡◌, refl, sym, ap, ap₂, ◌∙◌, ◌⊎◌, inl, inr, Bool,
  true, false, ◌||◌, not, Option, some, List, [], ◌∷◌, ◌++◌, ltb, if◌then◌else◌, arith, Bool-cases,
  subst,
}
use hyperspot.Retry.{
  RpcRetryConfig, Outcome, ok, err, retryable, backoff, retry_loop, call_with_retry,
}

-- An attempt that the helper does not answer with at once.
abbrev pub is_transient : {A : Type 0} → Outcome A → Bool
is_transient (ok a) = false
is_transient (err code) = retryable code

-- The sleeps before attempt `k + 1`, counted from `a`: linear in the attempt, cut off at the maximum.
abbrev pub sleeps_from : RpcRetryConfig → ℕ → ℕ → List ℕ
sleeps_from c a zero = []
sleeps_from c a (suc k) = min (c.base_backoff * (a + 1)) c.max_backoff ∷ sleeps_from c (a + 1) k

backoff-min : (c : RpcRetryConfig) (n : ℕ) → backoff c n ≡ min (c.base_backoff * n) c.max_backoff
unfolding backoff
backoff-min c n = ground arith

-- What the loop answers after `k` more transient attempts.
record Answers {A : Type 0} (c : RpcRetryConfig) (call : ℕ → Outcome A) (a : ℕ) (sleeps : List ℕ)
    (r : Option (Outcome A × List ℕ)) : Type 0 where
  k : ℕ
  answer : r ≡ some (call (a + suc k), sleeps ++ sleeps_from c a k)
  within : a + k ≤ c.max_retries
  transient : (j : ℕ) → j < k → is_transient (call (a + suc j)) ≡ true
  final : (is_transient (call (a + suc k)) ≡ false) ⊎ (a + k ≡ c.max_retries)

-- One turn of the loop, once `attempt + 1` is known not to wrap.
retry_loop-turn :
    {A : Type 0} (fuel : ℕ) (c : RpcRetryConfig) (call : ℕ → Outcome A) (a : ℕ) (sleeps : List ℕ)
    → a + 1 < 2 ^ 32
    → retry_loop (suc fuel) c call a sleeps ≡ (
        if not (is_transient (call (a + 1))) || ltb c.max_retries (a + 1)
        then some (call (a + 1), sleeps)
        else retry_loop fuel c call (a + 1) (sleeps ++ backoff c (a + 1) ∷ []))
unfolding retry_loop
retry_loop-turn fuel c call a sleeps small =
    let m = (a + 1) % 2 ^ 32 in
    let turn : retry_loop (suc fuel) c call a sleeps ≡ (
        if not (is_transient (call m)) || ltb c.max_retries m
        then some (call m, sleeps)
        else retry_loop fuel c call m (sleeps ++ backoff c m ∷ [])) =
      elim (call m)
        as (λ o.
          (elim o [
            | ok v ↦ some (ok v, sleeps)
            | err code ↦
                if not (retryable code) || ltb c.max_retries m
                then some (err code, sleeps)
                else retry_loop fuel c call m (sleeps ++ backoff c m ∷ [])
          ])
          ≡ (if not (is_transient o) || ltb c.max_retries m
              then some (o, sleeps)
              else retry_loop fuel c call m (sleeps ++ backoff c m ∷ []))) [
                | ok v ↦ refl
                | err code ↦ refl
              ] in
    subst
      (λ n. retry_loop (suc fuel) c call a sleeps ≡ (
        if not (is_transient (call n)) || ltb c.max_retries n
        then some (call n, sleeps)
        else retry_loop fuel c call n (sleeps ++ backoff c n ∷ [])))
      (mod-eq_of_lt small) turn

transient_cons :
    {A : Type 0} (call : ℕ → Outcome A) (a k : ℕ)
    → is_transient (call (a + 1)) ≡ true
    → ((j : ℕ) → j < k → is_transient (call (a + 1 + suc j)) ≡ true)
    → (j : ℕ) → j < suc k
    → is_transient (call (a + suc j)) ≡ true
transient_cons call a k first others zero lt = first
transient_cons call a k first others (suc j) lt =
    subst (λ n. is_transient (call n) ≡ true) (omega arith) (others j (omega arith))

-- A turn that goes on, before the turns after it.
later :
    {A : Type 0} (c : RpcRetryConfig) (call : ℕ → Outcome A) (a : ℕ) (sleeps : List ℕ)
    {r r' : Option (Outcome A × List ℕ)}
    → r ≡ r'
    → is_transient (call (a + 1)) ≡ true
    → Answers c call (a + 1) (sleeps ++ backoff c (a + 1) ∷ []) r'
    → Answers c call a sleeps r
later c call a sleeps same transient rest = record {
  k = suc rest.k;
  answer =
      same
      ∙ rest.answer
      ∙ ap₂ (λ n l. some (call n, l)) (omega arith)
          (append_assoc sleeps (backoff c (a + 1) ∷ []) (sleeps_from c (a + 1) rest.k)
            ∙ ap (λ b. sleeps ++ b ∷ sleeps_from c (a + 1) rest.k) (backoff-min c (a + 1)));
  within = omega (arith, rest.within);
  transient = transient_cons call a rest.k transient rest.transient;
  final =
      subst (λ n. (is_transient (call n) ≡ false) ⊎ (a + suc rest.k ≡ c.max_retries)) (omega arith)
        (elim (rest.final) [ inl e ↦ inl e | inr e ↦ inr (omega (arith, e)) ]);
}

loop-Answers :
    {A : Type 0} (fuel : ℕ) (c : RpcRetryConfig) (call : ℕ → Outcome A) (a : ℕ) (sleeps : List ℕ)
    → c.max_retries + 1 < 2 ^ 32
    → a ≤ c.max_retries
    → c.max_retries < a + fuel
    → Answers c call a sleeps (retry_loop fuel c call a sleeps)
loop-Answers zero c call a sleeps small le enough = absurd (omega arith)
loop-Answers (suc fuel) c call a sleeps small le enough =
    let turn = retry_loop-turn fuel c call a sleeps (omega arith) in
    elim (Bool-cases (not (is_transient (call (a + 1))) || ltb c.max_retries (a + 1))) [
      | inl stops ↦ record {
        k = 0;
        answer = turn ∙ rw stops (ap (λ l. some (call (a + 1), l)) (sym (append-nil sleeps)));
        within = omega arith;
        transient = λ j lt. absurd (omega arith);
        final = ground arith;
      }
      | inr on ↦
          let rest =
            loop-Answers fuel c call (a + 1) (sleeps ++ backoff c (a + 1) ∷ []) small (ground arith)
              (omega arith) in
          later c call a sleeps (turn ∙ rw on refl) (ground arith) rest
    ]

-- A call answers, with enough fuel, with the outcome of its attempt `k + 1`, where k ≤ max_retries;
-- all attempts before it failed with a transient code; its own outcome is not transient or
-- k = max_retries; and before attempt j + 1 it slept min (base_backoff * j) max_backoff, no more
-- and no less. The conditions: max_retries + 1 does not overflow a u32, and the fuel exceeds
-- max_retries.
pub call_with_retry_result :
    {A : Type 0} (fuel : ℕ) (c : RpcRetryConfig) (call : ℕ → Outcome A)
    → c.max_retries + 1 < 2 ^ 32
    → c.max_retries < fuel
    → (k : ℕ) × (call_with_retry fuel c call ≡ some (call (suc k), sleeps_from c 0 k))
      × (k ≤ c.max_retries)
      × ((j : ℕ) → j < k → is_transient (call (suc j)) ≡ true)
      × ((is_transient (call (suc k)) ≡ false) ⊎ (k ≡ c.max_retries))
unfolding call_with_retry
call_with_retry_result fuel c call small enough =
    let r = loop-Answers fuel c call 0 [] small (omega arith) (omega arith) in
    let zero_add : (n : ℕ) → 0 + n ≡ n = λ n. omega arith in
    (
      r.k,
      r.answer ∙ ap (λ n. some (call n, sleeps_from c 0 r.k)) (zero_add (suc r.k)),
      omega (arith, r.within),
      λ j lt. subst (λ n. is_transient (call n) ≡ true) (zero_add (suc j)) (r.transient j lt),
      elim (r.final) [
        | inl e ↦ inl (subst (λ n. is_transient (call n) ≡ false) (zero_add (suc r.k)) e)
        | inr e ↦ inr (omega (arith, e))
      ],
    )
