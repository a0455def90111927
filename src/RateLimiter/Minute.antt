-- ===== src/RateLimiter/Minute.antt =====
-- internal/oauth/ratelimit.go: what a client can get through in a minute.
use tclaw.Base.{
  ℕ, ◌+◌, ◌*◌, ◌≤◌, refl, String, Option, none, some, List, [], ◌∷◌, arith, Bool-cases, inl, inr,
  ◌==◌, lookup, subst, sym,
}
use tclaw.RateLimiter.{rate_limit_requests, rate_limit_window, RateLimitEntry, RateLimiter}
use tclaw.RateLimiter.Window.{count_allowed, Between, left_of, within_minute}
use tclaw.RateLimiter.Sweep.{Call, asks, collects, answers, times_of, Orderly, answers-times_of}

-- Every call comes within a minute of the start.
abbrev pub WithinMinute : ℕ → List (ℕ × Call) → Type 0
WithinMinute start [] = Unit
WithinMinute start ((now, c) ∷ cs) = (now ≤ start + rate_limit_window) × WithinMinute start cs

Between-clock : (c d end : ℕ) (times : List ℕ) → c ≤ d → Between d end times → Between c end times
Between-clock c d end [] h b = tt
Between-clock c d end (now ∷ later) h b = (omega (arith, b.0), b.1, b.2)

times_of-Between :
    (ip : String) (start clock : ℕ) (cs : List (ℕ × Call))
    → Orderly clock cs
    → WithinMinute start cs
    → Between clock (start + rate_limit_window) (times_of ip cs)
unfolding times_of
times_of-Between ip start clock [] o w = tt
times_of-Between ip start clock ((now, collects) ∷ cs) o w =
    Between-clock clock now (start + rate_limit_window) (times_of ip cs) o.0
      (times_of-Between ip start now cs o.1 w.1)
times_of-Between ip start clock ((now, asks other) ∷ cs) o w =
    let ih = times_of-Between ip start now cs o.1 w.1 in
    elim (Bool-cases (other == ip)) [
      | inl hit ↦ rw hit (o.0, w.0, ih)
      | inr differs ↦
          rw differs (Between-clock clock now (start + rate_limit_window) (times_of ip cs) o.0 ih)
    ]

-- The bound in force: in a minute, whatever state the limiter starts from, whatever other clients
-- ask and whenever entries are collected, a client gets at most as many requests through as its
-- window has left and 20 more, where nothing is left if at the start it has no entry or the window
-- of its entry is over; and at most 40 in any case.
pub minute-bound :
    (ip : String) (start : ℕ) (rl : RateLimiter) (cs : List (ℕ × Call))
    → Orderly start cs
    → WithinMinute start cs
    → (count_allowed (answers ip rl cs)
        ≤ left_of start (lookup ip rl.entries) + rate_limit_requests)
      × (count_allowed (answers ip rl cs) ≤ 2 * rate_limit_requests)
minute-bound ip start rl cs o w =
    let entry = lookup ip rl.entries in
    let same = answers-times_of ip start rl entry cs o (inl refl) in
    let bound =
      within_minute entry start start (times_of ip cs) (omega arith)
        (times_of-Between ip start start cs o w) in
    let bound' : count_allowed (answers ip rl cs) ≤ left_of start entry + rate_limit_requests =
      subst (λ l. count_allowed l ≤ left_of start entry + rate_limit_requests) (sym same) bound in
    (bound', at_most entry bound')
  where
    at_most :
        (entry : Option RateLimitEntry)
        → count_allowed (answers ip rl cs) ≤ left_of start entry + rate_limit_requests
        → count_allowed (answers ip rl cs) ≤ 2 * rate_limit_requests
    at_most none h = omega arith
    at_most (some e) h = ground (arith, h)
