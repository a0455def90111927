-- ===== src/GitProxy/Pushes.antt =====
-- internal/gitproxy: what reaches the hosting service. An independent account of the requests that
-- the access tiers permit, and of the request that is sent on.
use tclaw.Base.{
  ◌≡◌, ◌≢◌, refl, ap, ◌∙◌, sym, subst, true, false, none, List, [], ◌∷◌, ◌++◌, Result, ok, err,
  length, Bytes, arith, Option-cases, Bool-cases, inl, inr, All, same_bytes, same_bytes_refl,
  has_prefix, strip_prefix, strip_prefix-splits, ◌==◌,
}
use tclaw.Repo.{Access, unset, read_only, pull_requests_only, full_write, unknown}
use tclaw.GitProxy.Commands.{
  RefCommand, ParseError, heads, check_refs, check_pull_requests_only, parse_ref_commands,
}
use tclaw.GitProxy.Requests.{
  Repo, Request, Operation, operation_fetch, operation_push, unread, judged, inspected,
  check_by_tier, check_push,
}
use tclaw.GitProxy.Lines.{Section}
use tclaw.GitProxy.Acceptance.{parse_ref_commands-Section}

-- A command that writes a branch other than the default one.
abbrev pub WritesOtherBranch : Bytes → RefCommand → Type 0
WritesOtherBranch branch c = (name : Bytes) × (c.ref ≡ heads ++ name) × (name ≢ branch)

-- What the tier of a repository permits.
pub data Permitted (r : Request) (repo : Repo) : Operation → Type 0 where
  fetches : Permitted r repo operation_fetch
  writes_anything : repo.access ≡ full_write → Permitted r repo operation_push
  only_asks :
      repo.access ≡ pull_requests_only
      → (r.method == "POST") ≡ false
      → Permitted r repo operation_push
  writes_branches :
      (commands : List RefCommand) (section packfile : Bytes)
      → repo.access ≡ pull_requests_only
      → r.body ≡ section ++ packfile
      → Section commands section
      → commands ≢ []
      → All (WritesOtherBranch repo.default_branch) commands
      → Permitted r repo operation_push

check_refs-All :
    (branch : Bytes) (cs : List RefCommand)
    → check_refs (heads ++ branch) cs ≡ none
    → All (WritesOtherBranch branch) cs
unfolding check_refs has_prefix
check_refs-All branch [] e = tt
check_refs-All branch (c ∷ cs) e = elim (Bool-cases (same_bytes c.ref (heads ++ branch))) [
  | inl same ↦ absurd (ground arith)
  | inr differs ↦ elim (Option-cases (strip_prefix heads c.ref)) [
    | inl x ↦ absurd (ground arith)
    | inr (name, x) ↦
        let ref = strip_prefix-splits heads c.ref name x in
        (
          (
            name,
            ref,
            λ same.
                let again : same_bytes c.ref (heads ++ branch) ≡ true =
                  subst (λ s. same_bytes s (heads ++ branch) ≡ true)
                    (sym (ref ∙ ap (◌++◌ heads) same)) (same_bytes_refl (heads ++ branch)) in
                ground arith,
          ),
          check_refs-All branch cs (ground arith),
        )
  ]
]

allowed-All :
    (branch : Bytes) (cs : List RefCommand)
    → check_pull_requests_only cs branch ≡ none
    → (cs ≢ []) × All (WritesOtherBranch branch) cs
unfolding check_pull_requests_only
allowed-All branch [] e = cc
allowed-All branch (c ∷ cs) e = (λ x. cc, check_refs-All branch (c ∷ cs) e)

-- Reading a body's beginning and sending it on before the rest sends on the body.
pub unread-append : (seen rest : Bytes) → unread (length seen) (seen ++ rest) ≡ rest
unfolding unread
unread-append [] rest = refl
unread-append (b ∷ seen) rest = unread-append seen rest

-- A push that passes the check is permitted, and its body is unchanged.
abbrev pub Passes : Request → Repo → Bytes → Type 0
Passes r repo body = Permitted r repo operation_push × (body ≡ r.body)

module _ (r : Request) (repo : Repo) (body : Bytes) where
  judged-Passes :
      (cs : List RefCommand) (seen : Bytes)
      → repo.access ≡ pull_requests_only
      → parse_ref_commands r.body ≡ ok (cs, seen)
      → judged
          (seen ++ unread (length seen) r.body)
          (check_pull_requests_only cs repo.default_branch)
        ≡ ok body
      → Passes r repo body
  judged-Passes cs seen tier reads e =
      elim (Option-cases (check_pull_requests_only cs repo.default_branch)) [
        | inl passes ↦
            let (section, small, (rest, split)) =
              (parse_ref_commands-Section r.body cs seen).0 reads in
            let (some_command, all) = allowed-All repo.default_branch cs passes in
            let kept : seen ++ unread (length seen) r.body ≡ body = ground (arith, e) in
            (
              writes_branches cs seen rest tier split section some_command all,
              sym kept
                  ∙ ap (λ b. seen ++ unread (length seen) b) split
                  ∙ ap (◌++◌ seen) (unread-append seen rest)
                  ∙ sym split,
            )
        | inr (x, refused) ↦ absurd (ground arith)
      ]

  inspected-Passes :
      (o : Result ParseError (List RefCommand × Bytes))
      → repo.access ≡ pull_requests_only
      → parse_ref_commands r.body ≡ o
      → inspected r.body repo.default_branch o ≡ ok body
      → Passes r repo body
  inspected-Passes (err x) tier reads e = cc
  inspected-Passes (ok (cs, seen)) tier reads e = judged-Passes cs seen tier reads e

  tier-Passes :
      (a : Access)
      → repo.access ≡ a
      → check_by_tier r repo.default_branch a ≡ ok body
      → Passes r repo body
  tier-Passes unset tier e = cc
  tier-Passes read_only tier e = cc
  tier-Passes (unknown s) tier e = cc
  tier-Passes full_write tier e = (writes_anything tier, ground arith)
  tier-Passes pull_requests_only tier e = elim (Bool-cases (r.method == "POST")) [
    | inr asks ↦ (only_asks tier asks, ground arith)
    | inl posts ↦ inspected-Passes (parse_ref_commands r.body) tier refl (ground (arith, posts, e))
  ]

  pub check_push-Passes : check_push r repo ≡ ok body → Passes r repo body
  unfolding check_push
  check_push-Passes e = tier-Passes repo.access refl e
