-- ===== src/GitProxy/Allowing.antt =====
-- internal/gitproxy: the pushes that the proxy does let through; the tiers are no stricter than they
-- say.
use mathlib.Core.List.{append_cancel_left}
use tclaw.Base.{
  ◌≤◌, ◌≡◌, ◌≢◌, refl, ap, ◌∙◌, sym, true, false, none, some, List, [], ◌∷◌, ◌++◌, ok, length,
  Bytes, arith, Bool-cases, inl, inr, All, same_bytes, same_bytes→≡, has_prefix, strip_prefix, ◌==◌,
}
use tclaw.Repo.{pull_requests_only}
use tclaw.GitProxy.Commands.{
  RefCommand, command_section_limit, heads, check_refs, check_pull_requests_only,
  parse_ref_commands,
}
use tclaw.GitProxy.Requests.{
  Repo, Request, operation_push, LookupResult, serves, forwarded, split_proxy_path, classify,
  upstream_path, unread, judged, inspected, check_by_tier, check_push, push_response, respond,
  route, handle,
}
use tclaw.GitProxy.Lines.{Section}
use tclaw.GitProxy.Acceptance.{parse_ref_commands-Section}
use tclaw.GitProxy.Pushes.{WritesOtherBranch, unread-append}

strip_prefix-append : (prefix s : Bytes) → strip_prefix prefix (prefix ++ s) ≡ some s
unfolding strip_prefix
strip_prefix-append [] s = refl
strip_prefix-append (p ∷ prefix) s = ground (arith, strip_prefix-append prefix s)

has_prefix-append : (prefix s : Bytes) → has_prefix prefix (prefix ++ s) ≡ true
unfolding has_prefix
has_prefix-append prefix s = rw (strip_prefix-append prefix s, has_prefix) refl

other_branch_differs :
    (branch name : Bytes) → name ≢ branch → same_bytes (heads ++ name) (heads ++ branch) ≡ false
other_branch_differs branch name differ =
    elim (Bool-cases (same_bytes (heads ++ name) (heads ++ branch))) [
      | inr e ↦ e
      | inl e ↦ absurd (
          differ (
            append_cancel_left heads name branch
              (same_bytes→≡ (heads ++ name) (heads ++ branch) e)))
    ]

check_refs_of_All :
    (branch : Bytes) (cs : List RefCommand)
    → All (WritesOtherBranch branch) cs
    → check_refs (heads ++ branch) cs ≡ none
unfolding check_refs
check_refs_of_All branch [] h = refl
check_refs_of_All branch (c ∷ cs) h =
    let (name, ref, differs) = h.0 in
    rw ref (
      rw (other_branch_differs branch name differs)
        (rw (has_prefix-append heads name) (check_refs_of_All branch cs h.1)))

allowed_of_All :
    (branch : Bytes) (cs : List RefCommand)
    → cs ≢ []
    → All (WritesOtherBranch branch) cs
    → check_pull_requests_only cs branch ≡ none
unfolding check_pull_requests_only
allowed_of_All branch [] some_command h = absurd (some_command refl)
allowed_of_All branch (c ∷ cs) some_command h = check_refs_of_All branch (c ∷ cs) h

-- A push under pull requests only whose body begins with a section of commands on other branches.
pub record BranchPush (repos : Bytes → LookupResult) (r : Request) (name endpoint : Bytes)
    (repo : Repo) : Type 0 where
  pub splits : split_proxy_path r.path ≡ some (name, endpoint)
  pub is_push : classify endpoint r.service ≡ some operation_push
  pub found : repos name ≡ serves repo
  pub tier : repo.access ≡ pull_requests_only
  pub plain : (r.content_encoding == "") ≡ true
  pub commands : List RefCommand
  pub section : Bytes
  pub packfile : Bytes
  pub body : r.body ≡ section ++ packfile
  pub is_section : Section commands section
  pub small : length section ≤ command_section_limit
  pub some_command : commands ≢ []
  pub other_branches : All (WritesOtherBranch repo.default_branch) commands

module _ (repos : Bytes → LookupResult) (r : Request) (name endpoint : Bytes) (repo : Repo) where
  inspected_of_BranchPush :
      (p : BranchPush repos r name endpoint repo)
      → inspected r.body repo.default_branch (parse_ref_commands r.body) ≡ ok r.body
  inspected_of_BranchPush p =
      let reads =
        (parse_ref_commands-Section r.body p.commands p.section).1
          (p.is_section, p.small, (p.packfile, p.body)) in
      let passes = allowed_of_All repo.default_branch p.commands p.some_command p.other_branches in
      ap (inspected r.body repo.default_branch) reads
      ∙ ap (judged (p.section ++ unread (length p.section) r.body)) passes
      ∙ ap (λ b. ok b)
          (ap (λ b. p.section ++ unread (length p.section) b) p.body
            ∙ ap (◌++◌ p.section) (unread-append p.section p.packfile)
            ∙ sym p.body)

  check_push_of_BranchPush : BranchPush repos r name endpoint repo → check_push r repo ≡ ok r.body
  unfolding check_push
  check_push_of_BranchPush p =
      ap (check_by_tier r repo.default_branch) p.tier ∙ (elim (Bool-cases (r.method == "POST")) [
        | inr asks ↦ rw asks refl
        | inl posts ↦ rw posts (rw p.plain (inspected_of_BranchPush p))
      ])

-- The proxy does not stand in the way of a pull request: under pull requests only, a push without
-- a content encoding whose body begins with a section of at most 64 KiB, with at least one command
-- and all of them on branches other than the default one, is sent on, body and all, to the
-- repository's upstream path.
pub handle_of_BranchPush :
    (repos : Bytes → LookupResult) (r : Request) (name endpoint : Bytes) (repo : Repo)
    → BranchPush repos r name endpoint repo
    → handle repos r ≡ forwarded (upstream_path repo r.path) repo.token r.body
unfolding handle
handle_of_BranchPush repos r name endpoint repo p =
    ap (route repos r) p.splits
    ∙ (rw (p.is_push, route)
        (ap (respond r operation_push) p.found
          ∙ ap (push_response r repo) (check_push_of_BranchPush repos r name endpoint repo p)))
