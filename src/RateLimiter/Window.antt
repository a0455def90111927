-- ===== src/RateLimiter/Window.antt =====
-- internal/oauth/ratelimit.go, for one client alone: how many requests a window lets through.
use tclaw.Base.{
  ℕ, suc, ◌+◌, ◌-◌, ◌≤◌, ◌≡◌, Bool, true, false, Option, none, some, List, [], ◌∷◌, arith,
  Bool-cases, inl, inr, if◌then◌else◌,
}
use tclaw.RateLimiter.{rate_limit_requests, rate_limit_window, RateLimitEntry, is_expired, admit}

-- The answers to one client's requests at these times.
unfoldable pub answers_to_one : Option RateLimitEntry → List ℕ → List Bool
answers_to_one entry [] = []
answers_to_one entry (now ∷ later) =
    let (e, allowed) = admit now entry in allowed ∷ answers_to_one (some e) later

abbrev pub one : Bool → ℕ
one true = 1
one false = 0

abbrev pub count_allowed : List Bool → ℕ
count_allowed [] = 0
count_allowed (b ∷ bs) = one b + count_allowed bs

-- Times in order, from `clock` on and up to `end`.
abbrev pub Between : ℕ → ℕ → List ℕ → Type 0
Between clock end [] = Unit
Between clock end (now ∷ later) = (clock ≤ now) × (now ≤ end) × Between now end later

-- Of the requests that come before the window of an entry ends, as many pass as are left in it.
within_window :
    (e : RateLimitEntry) (clock : ℕ) (times : List ℕ)
    → Between clock (e.window_start + rate_limit_window) times
    → count_allowed (answers_to_one (some e) times) ≤ rate_limit_requests - e.count
unfolding answers_to_one admit
within_window e clock [] h = omega arith
within_window e clock (now ∷ later) h =
    let open_still : is_expired now e ≡ false = ground arith in
    let ih = within_window (record e { count = suc e.count }) now later h.2 in
    rw open_still (ground (arith, ih))

-- What is left at a time of the window of an entry: nothing, if it is over.
abbrev pub left_of : ℕ → Option RateLimitEntry → ℕ
left_of now none = 0
left_of now (some e) = if is_expired now e then 0 else rate_limit_requests - e.count

Between-weaken :
    (clock end end' : ℕ) (times : List ℕ)
    → end ≤ end'
    → Between clock end times
    → Between clock end' times
Between-weaken clock end end' [] h b = tt
Between-weaken clock end end' (now ∷ later) h b =
    (b.0, omega (arith, b.1), Between-weaken now end end' later h b.2)

-- A window that opens now.
opened :
    (clock now : ℕ) (later : List ℕ)
    → Between clock (clock + rate_limit_window) (now ∷ later)
    → 1 + count_allowed (answers_to_one (some (record { count = 1; window_start = now })) later)
      ≤ rate_limit_requests
opened clock now later h =
    let inside =
      Between-weaken now (clock + rate_limit_window) (now + rate_limit_window) later
        (omega (arith, h.0)) h.2 in
    omega (arith, within_window (record { count = 1; window_start = now }) now later inside)

-- A minute sees what is left of the window that is open, and one more window.
pub within_minute :
    (entry : Option RateLimitEntry) (start clock : ℕ) (times : List ℕ)
    → start ≤ clock
    → Between clock (start + rate_limit_window) times
    → count_allowed (answers_to_one entry times) ≤ left_of start entry + rate_limit_requests
unfolding answers_to_one admit
within_minute entry start clock [] s h = omega arith
within_minute none start clock (now ∷ later) s h =
    let x = opened clock now later (
      Between-weaken clock (start + rate_limit_window) (clock + rate_limit_window) (now ∷ later)
        (omega arith) h) in
    omega arith
within_minute (some e) start clock (now ∷ later) s h = elim (Bool-cases (is_expired now e)) [
  | inl expired ↦ rw expired (
      let x = opened clock now later (
        Between-weaken clock (start + rate_limit_window) (clock + rate_limit_window) (now ∷ later)
          (omega arith) h) in
      omega arith)
  | inr still ↦
      let ih =
        within_minute (some (record e { count = suc e.count })) start now later (omega (arith, h.0))
          h.2 in
      let open_still : is_expired start e ≡ false = ground arith in
      rw still (rw open_still (ground (arith, ih, open_still)))
]
