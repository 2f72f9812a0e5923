-- ===== src/Retry/Tests.antt =====
-- An operation that times out once and then returns 5.
use velotradex.Base.{ℕ, zero, suc, ◌≡◌, refl, false, none, some}
use velotradex.Text.{includes, starts_with}
use velotradex.Retry.{
  NormalizedError, Attempt, is_retryable_error, is_stale_price_error, attempts_from, with_retry,
}
use velotradex.Retry.Attempts.{IsLastOf, with_retry-IsLastOf}

retrying : Unit {0}
unfolding includes starts_with is_retryable_error is_stale_price_error attempts_from with_retry
retrying = tt

abbrev timeout_error : NormalizedError
timeout_error = record { message = none; code = some "ETIMEDOUT"; label = none; status = none }

abbrev fn : ℕ → Attempt ℕ
fn zero = Attempt.failed timeout_error
fn (suc n) = Attempt.returned 5

unrecognised :
    is_retryable_error (record timeout_error { code = none; message = some "odd" }) ≡ false
unfolding retrying
unrecognised = refl

second_returns : with_retry fn is_retryable_error 3 ≡ (Attempt.returned 5, 2)
unfolding retrying
second_returns = refl

with_retry-IsLastOf_example :
    let r = with_retry fn is_retryable_error 3 in IsLastOf fn is_retryable_error 0 4 r.0 r.1
with_retry-IsLastOf_example = with_retry-IsLastOf fn is_retryable_error 3
