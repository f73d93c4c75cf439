-- ===== src/Retry.antt =====
-- libs/modkit-transport-grpc/src/rpc_retry.rs: `call_with_retry`. Durations are numbers of one unit;
-- the calls of the environment are a function from the attempt's number to its outcome.
pub mod Bounds
mod Tests
use hyperspot.Common.{
  ℕ, zero, suc, ◌+◌, ◌*◌, ◌%◌, ◌^◌, Bool, true, false, ◌||◌, not, Option, none, some, List, [], ◌∷◌,
  ◌++◌, ltb, if◌then◌else◌,
}

-- tonic's codes, as far as the helper tells them apart.
pub data Code : Type 0 where
  unavailable deadline_exceeded : Code
  other : ℕ → Code

pub record RpcRetryConfig : Type 0 where
  pub max_retries : ℕ  -- u32
  pub base_backoff : ℕ
  pub max_backoff : ℕ

-- Milliseconds.
unfoldable pub default : RpcRetryConfig
default = record { max_retries = 3; base_backoff = 100; max_backoff = 5000 }

unfoldable pub new : ℕ → RpcRetryConfig
unfolding default
new retries = record default { max_retries = retries }

unfoldable pub with_base_backoff : RpcRetryConfig → ℕ → RpcRetryConfig
with_base_backoff c d = record c { base_backoff = d }

unfoldable pub with_max_backoff : RpcRetryConfig → ℕ → RpcRetryConfig
with_max_backoff c d = record c { max_backoff = d }

abbrev pub retryable : Code → Bool
retryable unavailable = true
retryable deadline_exceeded = true
retryable (other n) = false

pub data Outcome (A : Type 0) : Type 0 where
  ok : A → Outcome A
  err : Code → Outcome A

-- The sleep before the attempt that follows `attempt`.
unfoldable pub backoff : RpcRetryConfig → ℕ → ℕ
backoff c attempt =
    let d = c.base_backoff * attempt in if ltb c.max_backoff d then c.max_backoff else d

-- The loop, with the sleeps so far; `none` is out of fuel. `attempt` is a u32.
unfoldable pub retry_loop :
    {A : Type 0} → ℕ → RpcRetryConfig → (ℕ → Outcome A) → ℕ → List ℕ → Option (Outcome A × List ℕ)
retry_loop zero c call attempt sleeps = none
retry_loop (suc fuel) c call attempt sleeps =
    let n = (attempt + 1) % 2 ^ 32 in
    elim (call n) [
      | ok a ↦ some (ok a, sleeps)
      | err code ↦
          let again = retry_loop fuel c call n (sleeps ++ backoff c n ∷ []) in
          if not (retryable code) || ltb c.max_retries n then some (err code, sleeps) else again
    ]

unfoldable pub call_with_retry :
    {A : Type 0} → ℕ → RpcRetryConfig → (ℕ → Outcome A) → Option (Outcome A × List ℕ)
call_with_retry fuel c call = retry_loop fuel c call 0 []
