-- ===== src/Repo/Tier.antt =====
-- internal/repo/repo.go: the tier in force, who sees a repository, and the order of the tiers.
use tclaw.Base.{
  ℕ, ◌≡◌, String, Bool, true, false, Option, none, some, List, [], ◌∷◌, ltb, if◌then◌else◌, any,
  ◌==◌, arith, ◌⊎◌, ◌≢◌,
}
use tclaw.Repo.{Access, unset, read_only, pull_requests_only, full_write, TrackedRepo}

-- `now.After(at)` for a time that is set.
abbrev pub is_after : ℕ → Option ℕ → Bool
is_after now none = false
is_after now (some at) = ltb at now

abbrev is_unset : Access → Bool
is_unset unset = true
is_unset _ = false

unfoldable pub effective_access : TrackedRepo → ℕ → Access
effective_access r now =
    if is_unset r.access
    then read_only
    else if is_after now r.drop_to_read_only_at
    then read_only
    else r.access

abbrev is_listed : String → List String → Bool
is_listed name [] = true
is_listed name (c ∷ cs) = any (λ x. x == name) (c ∷ cs)

unfoldable pub visible_to : TrackedRepo → String → Bool
visible_to r name = is_listed name r.channels

abbrev pub access_rank : Access → ℕ
access_rank pull_requests_only = 1
access_rank full_write = 2
access_rank _ = 0

unfoldable pub exceeds : Access → Access → Bool
exceeds a other = ltb (access_rank other) (access_rank a)

unfoldable pub allows_push : Access → Bool
allows_push pull_requests_only = true
allows_push full_write = true
allows_push _ = false

-- A grant that lapses takes the right to push away: at any time after the moment at which a
-- repository drops to read-only, and for a repository without a tier always, the tier in force
-- allows no push and exceeds no other; before that moment it is the tier that was set.
pub effective_access-lapses :
    (r : TrackedRepo) (now : ℕ)
    → (((is_after now r.drop_to_read_only_at ≡ true) ⊎ (r.access ≡ unset))
        → (allows_push (effective_access r now) ≡ false)
          × ((other : Access) → exceeds (effective_access r now) other ≡ false))
      × (is_after now r.drop_to_read_only_at ≡ false
          → r.access ≢ unset
          → effective_access r now ≡ r.access)
unfolding effective_access allows_push exceeds
effective_access-lapses r now = (λ h. ground arith, λ h k. ground arith)
