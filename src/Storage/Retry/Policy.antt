-- ===== src/Storage/Retry/Policy.antt =====
-- packages/storage/src/retry/policy.ts. The numbers are naturals: those below zero, fractions and
-- the infinities are refused by the code.
pub mod Backoff
use hookx.Prelude.{ℕ, ◌*◌, ◌^◌, ◌-◌, Bool, ◌||◌, ltb, leb, if◌then◌else◌}
use hookx.Domain.{Result, ok, err, ◌>>=◌}

pub record RetryPolicy : Type 0 where
  pub max_attempts : ℕ
  pub base_delay_ms : ℕ
  pub max_delay_ms : ℕ

abbrev pub default_retry_policy : RetryPolicy
default_retry_policy = record { max_attempts = 5; base_delay_ms = 1000; max_delay_ms = 60000 }

unfoldable pub assert_retry_policy : RetryPolicy → Result RetryPolicy
assert_retry_policy policy =
    if ltb policy.max_attempts 1 || ltb policy.max_delay_ms policy.base_delay_ms
    then err "Retry policy is invalid"
    else ok policy

delay_of : ℕ → RetryPolicy → Result ℕ
delay_of attempt policy =
    if ltb attempt 1
    then err "Retry attempt must be a positive integer"
    else (if ltb 30 attempt
        then ok policy.max_delay_ms
        else (if leb policy.max_delay_ms (policy.base_delay_ms * 2 ^ (attempt - 1))
            then ok policy.max_delay_ms
            else ok (policy.base_delay_ms * 2 ^ (attempt - 1))))

unfoldable pub calculate_retry_delay : ℕ → RetryPolicy → Result ℕ
unfolding assert_retry_policy delay_of
calculate_retry_delay attempt policy = assert_retry_policy policy >>= delay_of attempt
