-- ===== src/RateLimiter/Sweep.antt =====
-- internal/oauth/ratelimit.go: a history of requests from many clients, with collections between
-- them, as each client sees it.
use tclaw.Base.{
  ℕ, ◌≤◌, ◌≡◌, refl, ap, ◌∙◌, sym, subst, Bool, true, Option, none, some, List, [], ◌∷◌,
  if◌then◌else◌, arith, Bool-cases, inl, inr, ◌⊎◌, String, ◌==◌, eq_iff, Dict, lookup, remove,
  lookup-insert, lookup-remove, map,
}
use tclaw.RateLimiter.{RateLimitEntry, RateLimiter, is_gone, admit, allow, sweep, gc}
use tclaw.RateLimiter.Window.{answers_to_one}

pub data Call : Type 0 where
  asks : String → Call
  collects : Call

-- The answers to one client, each call at its time.
unfoldable pub answers : String → RateLimiter → List (ℕ × Call) → List Bool
answers ip rl [] = []
answers ip rl ((now, collects) ∷ cs) = answers ip (gc rl now) cs
answers ip rl ((now, asks other) ∷ cs) =
    let (rl', allowed) = allow rl other now in
    let rest = answers ip rl' cs in if other == ip then allowed ∷ rest else rest

-- The times of one client's requests.
unfoldable pub times_of : String → List (ℕ × Call) → List ℕ
times_of ip [] = []
times_of ip ((now, collects) ∷ cs) = times_of ip cs
times_of ip ((now, asks other) ∷ cs) =
    let rest = times_of ip cs in if other == ip then now ∷ rest else rest

-- No call is earlier than the one before it.
abbrev pub Orderly : ℕ → List (ℕ × Call) → Type 0
Orderly clock [] = Unit
Orderly clock ((now, c) ∷ cs) = (clock ≤ now) × Orderly now cs

-- What the limiter has for a client, against what it would have if it never collected.
abbrev pub Agrees : ℕ → Option RateLimitEntry → Option RateLimitEntry → Type 0
Agrees now found kept = (found ≡ kept) ⊎ ((found ≡ none) × (is_gone now kept ≡ true))

Agrees-later :
    (clock now : ℕ) (found kept : Option RateLimitEntry)
    → clock ≤ now
    → Agrees clock found kept
    → Agrees now found kept
Agrees-later clock now found kept h (inl e) = inl e
Agrees-later clock now found none h (inr g) = ground (arith, g)
Agrees-later clock now found (some e) h (inr g) = inr (g.0, ground (arith, g.1))

admit-Agrees :
    (now : ℕ) (found kept : Option RateLimitEntry)
    → Agrees now found kept
    → admit now found ≡ admit now kept
unfolding admit
admit-Agrees now found kept (inl e) = ap (admit now) e
admit-Agrees now found none (inr g) = ground (arith, g)
admit-Agrees now found (some e) (inr g) = ap (admit now) g.0 ∙ rw g.1 refl

sweep-Agrees :
    (now : ℕ) (ips : List String) (entries : Dict RateLimitEntry) (ip : String)
    → (lookup ip (sweep now ips entries) ≡ lookup ip entries)
      ⊎ ((lookup ip (sweep now ips entries) ≡ none) × (is_gone now (lookup ip entries) ≡ true))
unfolding sweep
sweep-Agrees now [] entries ip = inl refl
sweep-Agrees now (k ∷ ips) entries ip = elim (Bool-cases (is_gone now (lookup k entries))) [
  | inr stays ↦ rw stays (sweep-Agrees now ips entries ip)
  | inl gone ↦ rw gone (
      let removed = lookup-remove k ip entries in
      let same = eq_iff k ip in
      let ih = sweep-Agrees now ips (remove k entries) ip in
      elim (Bool-cases (k == ip)) [
        | inr differs ↦ ground (arith, removed, ih, differs)
        | inl hit ↦
            let e = same.0 hit in
            inr (
              ground (arith, removed, ih, hit),
              ap (λ x. is_gone now (lookup x entries)) (sym e) ∙ gone,
            )
      ])
]

gc-Agrees :
    (now : ℕ) (rl : RateLimiter) (ip : String) (kept : Option RateLimitEntry)
    → Agrees now (lookup ip rl.entries) kept
    → Agrees now (lookup ip (gc rl now).entries) kept
unfolding gc
gc-Agrees now rl ip kept a =
    let swept =
      sweep-Agrees now (map (λ (p : String × RateLimitEntry). p.0) rl.entries) rl.entries ip in
    ground (arith, a, swept)

lookup_of_allow :
    (now : ℕ) (rl : RateLimiter) (other ip : String)
    → lookup ip (allow rl other now).0.entries
      ≡ (if other == ip then some (admit now (lookup other rl.entries)).0 else lookup ip rl.entries)
unfolding allow
lookup_of_allow now rl other ip =
    lookup-insert other ip (admit now (lookup other rl.entries)).0 rl.entries

allowed_of_allow :
    (now : ℕ) (rl : RateLimiter) (other : String)
    → (allow rl other now).1 ≡ (admit now (lookup other rl.entries)).1
unfolding allow
allowed_of_allow now rl other = refl

asked-Agrees :
    (now : ℕ) (rl : RateLimiter) (other ip : String) (kept : Option RateLimitEntry)
    → Agrees now (lookup ip rl.entries) kept
    → (other == ip) ≡ true
    → (lookup ip (allow rl other now).0.entries ≡ some (admit now kept).0)
      × ((allow rl other now).1 ≡ (admit now kept).1)
asked-Agrees now rl other ip kept a hit =
    let same = (eq_iff other ip).0 hit in
    let e =
      ap (λ x. admit now (lookup x rl.entries)) same
      ∙ admit-Agrees now (lookup ip rl.entries) kept a in
    (
      lookup_of_allow now rl other ip ∙ rw hit (ap (λ x. some x.0) e),
      allowed_of_allow now rl other ∙ ap (λ x. x.1) e,
    )

-- A client is limited by its own requests alone: whatever other clients ask and whenever entries
-- are collected, as long as the clock does not run backwards, the answers that a client gets
-- are those that the times of its own requests get on their own.
pub answers-times_of :
    (ip : String) (clock : ℕ) (rl : RateLimiter) (kept : Option RateLimitEntry)
    (cs : List (ℕ × Call))
    → Orderly clock cs
    → Agrees clock (lookup ip rl.entries) kept
    → answers ip rl cs ≡ answers_to_one kept (times_of ip cs)
unfolding answers times_of answers_to_one
answers-times_of ip clock rl kept [] o a = refl
answers-times_of ip clock rl kept ((now, collects) ∷ cs) o a =
    answers-times_of ip now (gc rl now) kept cs o.1
      (gc-Agrees now rl ip kept (Agrees-later clock now _ kept o.0 a))
answers-times_of ip clock rl kept ((now, asks other) ∷ cs) o a =
    let a' = Agrees-later clock now _ kept o.0 a in
    elim (Bool-cases (other == ip)) [
      | inl hit ↦
          let (found, same) = asked-Agrees now rl other ip kept a' hit in
          let ih =
            answers-times_of ip now (allow rl other now).0 (some (admit now kept).0) cs o.1
              (inl found) in
          rw hit (rw same (ap (◌∷◌ (admit now kept).1) ih))
      | inr differs ↦
          let found : lookup ip (allow rl other now).0.entries ≡ lookup ip rl.entries =
            lookup_of_allow now rl other ip ∙ rw differs refl in
          let ih =
            answers-times_of ip now (allow rl other now).0 kept cs o.1
              (subst (λ f. Agrees now f kept) (sym found) a') in
          rw differs ih
    ]
