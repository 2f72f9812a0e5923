-- ===== src/RateLimiter.antt =====
-- utils/rateLimiter.ts: at most `max_hits` requests of a key in each sliding window of `window_ms`
-- milliseconds. The times of the requests that were let through are kept by key. `t > now - window`
-- is written without the difference, which may be negative in the source.
pub mod Window
pub mod Tests
use velotradex.Base.{
  ℕ, ◌+◌, String, Bool, true, false, Option, none, some, List, [], ◌∷◌, ◌++◌, if◌then◌else◌, ltb,
  leb, keep, length,
}
use velotradex.Dict.{Dict, get, put}

pub record RateLimiter : Type 0 where
  pub hits : Dict (List ℕ)
  pub max_hits : ℕ
  pub window_ms : ℕ

abbrev pub is_recent : ℕ → ℕ → ℕ → Bool
is_recent window_ms now t = ltb now (t + window_ms)

abbrev or_empty : Option (List ℕ) → List ℕ
or_empty none = []
or_empty (some ts) = ts

abbrev pub hits_of : String → Dict (List ℕ) → List ℕ
hits_of key hits = or_empty (get key hits)

abbrev pub recorded : ℕ → String → List ℕ → RateLimiter → Bool × RateLimiter
recorded now key timestamps l =
    if leb l.max_hits (length timestamps)
    then (true, record l { hits = put key timestamps l.hits })
    else (false, record l { hits = put key (timestamps ++ (now ∷ [])) l.hits })

unfoldable pub is_limited : ℕ → String → RateLimiter → Bool × RateLimiter
is_limited now key l = recorded now key (keep (is_recent l.window_ms now) (hits_of key l.hits)) l
