-- ===== src/RateLimiter/Tests.antt =====
-- Two clients and a collection.
use tclaw.Base.{ℕ, ◌+◌, ◌*◌, ◌≤◌, ◌≡◌, refl, none, List, [], ◌∷◌, arith, inl, lookup}
use tclaw.RateLimiter.{rate_limit_requests, new_rate_limiter}
use tclaw.RateLimiter.Window.{answers_to_one, count_allowed, left_of}
use tclaw.RateLimiter.Sweep.{Call, asks, collects, answers, times_of, answers-times_of}
use tclaw.RateLimiter.Minute.{minute-bound}

abbrev calls : List (ℕ × Call)
calls = (10, asks "a") ∷ (11, asks "b") ∷ (20, collects) ∷ (30, asks "a") ∷ []

answers-times_of_example :
    answers "a" new_rate_limiter calls ≡ answers_to_one none (times_of "a" calls)
unfolding new_rate_limiter lookup
answers-times_of_example =
    answers-times_of "a" 10 new_rate_limiter none calls
      (omega arith, (omega arith, (omega arith, (omega arith, tt)))) (inl refl)

minute-bound_example :
    (count_allowed (answers "a" new_rate_limiter calls)
      ≤ left_of 10 (lookup "a" new_rate_limiter.entries) + rate_limit_requests)
    × (count_allowed (answers "a" new_rate_limiter calls) ≤ 2 * rate_limit_requests)
minute-bound_example =
    minute-bound "a" 10 new_rate_limiter calls
      (omega arith, (omega arith, (omega arith, (omega arith, tt))))
      (omega arith, (omega arith, (omega arith, (omega arith, tt))))
