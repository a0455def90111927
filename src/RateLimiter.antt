-- ===== src/RateLimiter.antt =====
-- internal/oauth/ratelimit.go: the fixed-window limiter of the public HTTP server. Times are
-- nanoseconds on one clock; an entry of the Go map behind a pointer is a value that is put back.
pub mod Window
pub mod Sweep
pub mod Minute
mod Tests
use tclaw.Base.{
  ℕ, suc, ◌-◌, String, Bool, true, false, Option, none, some, List, [], ◌∷◌, ltb, leb,
  if◌then◌else◌, Dict, lookup, insert, remove, map, ◌==◌,
}

abbrev pub rate_limit_requests : ℕ
rate_limit_requests = 20

-- One minute.
abbrev pub rate_limit_window : ℕ
rate_limit_window = 60_000_000_000

-- 1 MiB.
abbrev pub max_request_body_bytes : ℕ
max_request_body_bytes = 1_048_576

pub record RateLimitEntry : Type 0 where
  pub count : ℕ
  pub window_start : ℕ

pub record RateLimiter : Type 0 where
  pub entries : Dict RateLimitEntry

unfoldable pub new_rate_limiter : RateLimiter
new_rate_limiter = record { entries = [] }

-- `now.Sub(entry.windowStart) > rateLimitWindow`
abbrev pub is_expired : ℕ → RateLimitEntry → Bool
is_expired now e = ltb rate_limit_window (now - e.window_start)

-- The entry after a request at this time, and whether the request is allowed.
unfoldable pub admit : ℕ → Option RateLimitEntry → RateLimitEntry × Bool
admit now none = (record { count = 1; window_start = now }, true)
admit now (some e) =
    if is_expired now e
    then (record { count = 1; window_start = now }, true)
    else (record e { count = suc e.count }, leb (suc e.count) rate_limit_requests)

unfoldable pub allow : RateLimiter → String → ℕ → RateLimiter × Bool
allow rl ip now =
    let (e, allowed) = admit now (lookup ip rl.entries) in
    (record rl { entries = insert ip e rl.entries }, allowed)

abbrev pub is_gone : ℕ → Option RateLimitEntry → Bool
is_gone now none = false
is_gone now (some e) = is_expired now e

-- The loop of `gc` over the map's keys.
unfoldable pub sweep : ℕ → List String → Dict RateLimitEntry → Dict RateLimitEntry
sweep now [] entries = entries
sweep now (ip ∷ ips) entries =
    sweep now ips (if is_gone now (lookup ip entries) then remove ip entries else entries)

unfoldable pub gc : RateLimiter → ℕ → RateLimiter
gc rl now = record rl {
  entries = sweep now (map (λ (p : String × RateLimitEntry). p.0) rl.entries) rl.entries;
}

-- The address that counts: Fly's header if it is there.
abbrev pub client_ip : String → String → String
client_ip fly_ip remote = if fly_ip == "" then remote else fly_ip

pub data Answer : Type 0 where
  too_many_requests : Answer
  -- The handler behind it serves the request, of whose body it reads at most so many bytes.
  served : (max_body : ℕ) → Answer

-- `Middleware`: the answer to a request with these headers.
unfoldable pub middleware : RateLimiter → String → String → ℕ → RateLimiter × Answer
middleware rl fly_ip remote now =
    let (rl', allowed) = allow rl (client_ip fly_ip remote) now in
    (rl', if allowed then served max_request_body_bytes else too_many_requests)
