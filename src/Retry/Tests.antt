-- ===== src/Retry/Tests.antt =====
-- A server that is unavailable twice, and one that never answers.
use hyperspot.Common.{ℕ, zero, suc, ◌≡◌, refl, true, some, [], ◌∷◌, ◌⊎◌, ◌<◌, ◌≤◌, false, arith}
use hyperspot.Retry.{
  Outcome, ok, err, unavailable, call_with_retry, new, with_base_backoff, RpcRetryConfig,
}
use hyperspot.Retry.Bounds.{call_with_retry_result, is_transient, sleeps_from}

abbrev calls : ℕ → Outcome ℕ
calls zero = err unavailable
calls (suc zero) = err unavailable
calls (suc (suc zero)) = err unavailable
calls (suc (suc (suc n))) = ok 7

abbrev config : RpcRetryConfig
config = record { max_retries = 3; base_backoff = 100; max_backoff = 150 }

third_attempt : call_with_retry 4 config calls ≡ some (ok 7, 100 ∷ 150 ∷ [])
unfolding call_with_retry hyperspot.Retry.retry_loop hyperspot.Retry.backoff
third_attempt = refl

call_with_retry_result_example :
    (k : ℕ) × (call_with_retry 4 config calls ≡ some (calls (suc k), sleeps_from config 0 k))
    × (k ≤ 3)
    × ((j : ℕ) → j < k → is_transient (calls (suc j)) ≡ true)
    × ((is_transient (calls (suc k)) ≡ false) ⊎ (k ≡ 3))
call_with_retry_result_example = call_with_retry_result 4 config calls (omega arith) (omega arith)
