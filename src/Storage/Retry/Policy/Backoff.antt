-- ===== src/Storage/Retry/Policy/Backoff.antt =====
-- The delay grows to its bound, and follows the formula up to thirty failures.
use Prim.Native.Nat.{min}
use hookx.Prelude.{
  ℕ, zero, suc, ◌+◌, ◌*◌, ◌^◌, ◌-◌, ◌≤◌, ◌≡◌, sym, ap, ◌∙◌, arith, ltb, if◌then◌else◌,
}
use hookx.Domain.{ok_eq, ok}
use hookx.Storage.Retry.Policy.{RetryPolicy, assert_retry_policy, delay_of, calculate_retry_delay}

pow_pos : (n : ℕ) → 1 ≤ 2 ^ n
pow_pos zero = omega arith
pow_pos (suc n) = omega (arith, pow_pos n)

pow_suc : (n : ℕ) → 2 ^ suc n ≡ 2 ^ n + 2 ^ n
pow_suc n = omega arith

double : (b p : ℕ) → b * (p + p) ≡ b * p + b * p
double b p = grind arith

scaled_suc : (b n : ℕ) → b * 2 ^ suc n ≡ b * 2 ^ n + b * 2 ^ n
scaled_suc b n = ap (b *◌) (pow_suc n) ∙ double b (2 ^ n)

plus_zero : (m : ℕ) → 0 + m ≡ m
plus_zero m = omega arith

plus_suc : (k m : ℕ) → suc k + m ≡ suc (k + m)
plus_suc k m = omega arith

scaled_mono : (b m k : ℕ) → b * 2 ^ m ≤ b * 2 ^ (k + m)
scaled_mono b m zero = rw (plus_zero m) (omega arith)
scaled_mono b m (suc k) = rw (plus_suc k m) (omega (arith, scaled_mono b m k, scaled_suc b (k + m)))

scaled_one : (b : ℕ) → b * 2 ^ 0 ≡ b
scaled_one b = omega arith

suc_pred : (n : ℕ) → suc n - 1 ≡ n
suc_pred n = omega arith

times_pos : (b p : ℕ) → 1 ≤ p → b ≤ b * p
times_pos b p h = grind arith

scaled_base : (b n : ℕ) → b ≤ b * 2 ^ n
scaled_base b n = times_pos b (2 ^ n) (pow_pos n)

-- The policies that the code accepts.
abbrev pub IsValid : RetryPolicy → Type 0
IsValid policy = (1 ≤ policy.max_attempts) × (policy.base_delay_ms ≤ policy.max_delay_ms)

-- The delay of a valid policy after a failure.
abbrev pub delay_for : ℕ → RetryPolicy → ℕ
delay_for attempt policy =
    if ltb 30 attempt
    then policy.max_delay_ms
    else min policy.max_delay_ms (policy.base_delay_ms * 2 ^ (attempt - 1))

accepted_policy : (policy : RetryPolicy) → IsValid policy → assert_retry_policy policy ≡ ok policy
unfolding assert_retry_policy
accepted_policy policy (m, b) = ground arith

delay_of_lem :
    (attempt : ℕ) (policy : RetryPolicy)
    → 1 ≤ attempt
    → delay_of attempt policy ≡ ok (delay_for attempt policy)
unfolding delay_of
delay_of_lem attempt policy a = ground arith

-- Under a valid policy the delay after a positive number of failures is computed without an error:
-- by the formula of the comment up to thirty failures, and the bound itself after that.
pub calculate_retry_delay_lem :
    (attempt : ℕ) (policy : RetryPolicy)
    → IsValid policy
    → 1 ≤ attempt
    → calculate_retry_delay attempt policy ≡ ok (delay_for attempt policy)
unfolding calculate_retry_delay
calculate_retry_delay_lem attempt policy v a =
    rw (accepted_policy policy v) (delay_of_lem attempt policy a)

bounded_mono :
    (m k base most : ℕ)
    → base ≤ most
    → (base ≤ (if ltb 30 (suc m) then most else min most (base * 2 ^ m)))
      × ((if ltb 30 (suc m) then most else min most (base * 2 ^ m))
          ≤ (if ltb 30 (suc (k + m)) then most else min most (base * 2 ^ (k + m))))
      × ((if ltb 30 (suc (k + m)) then most else min most (base * 2 ^ (k + m))) ≤ most)
bounded_mono m k base most v =
    let a = scaled_mono base m k in
    let b : base ≤ base * 2 ^ m = scaled_base base m in (ground arith, ground arith, ground arith)

-- Under a valid policy, of two delays after a positive number of failures and after as many or
-- more, the first is not below the base, the second not below the first, and not above the bound.
pub calculate_retry_delay_mono :
    (m k d e : ℕ) (policy : RetryPolicy)
    → IsValid policy
    → calculate_retry_delay (suc m) policy ≡ ok d
    → calculate_retry_delay (suc (k + m)) policy ≡ ok e
    → (policy.base_delay_ms ≤ d) × (d ≤ e) × (e ≤ policy.max_delay_ms)
calculate_retry_delay_mono m k d e policy v p q =
    let first = calculate_retry_delay_lem (suc m) policy v (omega arith) in
    let second = calculate_retry_delay_lem (suc (k + m)) policy v (omega arith) in
    let x : d ≡ delay_for (suc m) policy = ok_eq (sym p ∙ first) in
    let y : e ≡ delay_for (suc (k + m)) policy = ok_eq (sym q ∙ second) in
    rw (x, y)
      (rw (suc_pred m, suc_pred (k + m))
        (bounded_mono m k policy.base_delay_ms policy.max_delay_ms v.1))
