-- ===== src/Retry.antt =====
-- utils/retryUtils.ts: which errors are worth another attempt, and the loop of attempts. An error is
-- given by the fields that `normalizeError`, `extractStatus` and `extractLabel` read off it; the
-- outcome of each attempt is a parameter. The delay between attempts is not modelled.
pub mod Attempts
pub mod Tests
use velotradex.Base.{
  ℕ, zero, suc, ◌+◌, String, Bool, true, false, not, ◌&&◌, ◌||◌, Option, none, some, List, [], ◌∷◌,
  str_eq, if◌then◌else◌, ltb, leb, ◌==◌,
}
use velotradex.Text.{includes}

pub record NormalizedError : Type 0 where
  pub message : Option String
  pub code : Option String
  pub label : Option String
  pub status : Option ℕ

abbrev pub retryable_codes : List String
retryable_codes =
    "ECONNRESET" ∷ "ECONNREFUSED" ∷ "ETIMEDOUT" ∷ "ENOTFOUND" ∷ "EAI_AGAIN" ∷ "EPIPE"
    ∷ "EHOSTUNREACH" ∷ "EADDRINFO" ∷ "ENETUNREACH" ∷ []

abbrev pub retryable_messages : List String
retryable_messages =
    "socket hang up" ∷ "connect ETIMEDOUT" ∷ "connect ECONNREFUSED" ∷ "connect ECONNRESET"
    ∷ "not connected" ∷ []

abbrev is_in : String → List String → Bool
is_in s [] = false
is_in s (t ∷ ts) = str_eq s t || is_in s ts

abbrev includes_any : String → List String → Bool
includes_any s [] = false
includes_any s (t ∷ ts) = includes s t || includes_any s ts

abbrev has_code : Option String → Bool
has_code none = false
has_code (some c) = is_in c retryable_codes

abbrev has_message : Option String → Bool
has_message none = false
has_message (some m) = includes_any m retryable_messages

-- what the HTTP status decides, if it does
abbrev by_status : Option ℕ → Option Bool
by_status none = none
by_status (some s) =
    if s == 429 || (leb 500 s && ltb s 600)
    then some true
    else if leb 400 s && ltb s 500
    then some false
    else none

-- the labels that are known, and the default, both not worth another attempt
abbrev by_label : Option String → Bool
by_label none = false
by_label (some l) =
    if includes l "AUTO_ORDER_NOT_FOUND"
    then false
    else if includes l "INVALID_PARAM_VALUE"
    then false
    else false

unfoldable pub is_retryable_error : NormalizedError → Bool
is_retryable_error e =
    if has_code e.code || has_message e.message
    then true
    else elim (by_status e.status) [ some verdict ↦ verdict | none ↦ by_label e.label ]

unfoldable pub is_stale_price_error : NormalizedError → Bool
is_stale_price_error e = elim e.label [ none ↦ false | some l ↦ includes l "INVALID_PARAM_VALUE" ]

pub data Attempt {ℓ} (A : Type ℓ) : Type ℓ where
  returned : A → Attempt A
  failed : NormalizedError → Attempt A

module _ {ℓ} {A : Type ℓ} (fn : ℕ → Attempt A) (retryable_check : NormalizedError → Bool) where
  abbrev pub gives_up : NormalizedError → Bool
  gives_up e = is_stale_price_error e || not (retryable_check e)

  abbrev pub after : ℕ → Attempt A × ℕ → Attempt A → Attempt A × ℕ
  after attempt rest (returned a) = (returned a, attempt + 1)
  after attempt rest (failed e) = if gives_up e then (failed e, attempt + 1) else rest

  -- the loop, by the retries that are left; the result comes with the number of calls of `fn`
  unfoldable pub attempts_from : ℕ → ℕ → Attempt A × ℕ
  attempts_from zero attempt = (fn attempt, attempt + 1)
  attempts_from (suc left) attempt =
      let rest = attempts_from left (attempt + 1) in after attempt rest (fn attempt)

  unfoldable pub with_retry : ℕ → Attempt A × ℕ
  with_retry max_retries = attempts_from max_retries 0
