-- ===== src/RateLimiter/Tests.antt =====
-- Two requests in each second: the third is limited, and one that comes later is let through.
use velotradex.Base.{ℕ, ◌≡◌, refl, ◌≤◌, String, true, false, List, [], ◌∷◌, arith, length, keep}
use velotradex.Dict.{get, put}
use velotradex.RateLimiter.{RateLimiter, is_recent, is_limited}
use velotradex.RateLimiter.Window.{times_of, Reach, Reach-IsBounded}

limiter : Unit {0}
unfolding get put is_limited
limiter = tt

abbrev fresh : RateLimiter
fresh = record { hits = []; max_hits = 2; window_ms = 1000 }

abbrev after_two : RateLimiter
after_two = (is_limited 300 "ip" (is_limited 100 "ip" fresh).1).1

abbrev two : List (String × ℕ)
two = ("ip", 100) ∷ ("ip", 300) ∷ []

third_limited : (is_limited 900 "ip" after_two).0 ≡ true
unfolding limiter
third_limited = refl

later_let_through : (is_limited 1100 "ip" after_two).0 ≡ false
unfolding limiter
later_let_through = refl

two-Reach : Reach 300 two after_two
unfolding limiter
two-Reach =
    Reach.called "ip" 300 (Reach.called "ip" 100 (Reach.start 2 1000) (omega arith)) (omega arith)

Reach-IsBounded_example :
    length (keep (is_recent after_two.window_ms 900) (times_of "ip" two)) ≤ after_two.max_hits
Reach-IsBounded_example = Reach-IsBounded 300 two after_two "ip" 900 two-Reach (omega arith)
