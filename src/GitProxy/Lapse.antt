-- ===== src/GitProxy/Lapse.antt =====
-- internal/router/repos.go: the lookup that the proxy is given serves a tracked repository under the
-- tier in force at the time of the request.
use tclaw.Base.{ℕ, ◌≡◌, ◌⊎◌, refl, ap, ◌∙◌, true, false, some, Bytes, String, err}
use tclaw.Repo.{Access, unset, read_only, pull_requests_only, full_write, unknown, TrackedRepo}
use tclaw.Repo.Tier.{is_after, effective_access, allows_push, effective_access-lapses}
use tclaw.GitProxy.Requests.{
  Repo, Request, operation_push, repo_is_read_only, LookupResult, serves, push_refused,
  split_proxy_path, classify, check_by_tier, check_push, push_response, respond, route, handle,
}

-- What the lookup returns for a repository, its upstream path and its token being known.
unfoldable pub repo_of : TrackedRepo → ℕ → Bytes → String → Repo
repo_of tracked now path token = record {
  path = path;
  access = effective_access tracked now;
  default_branch = tracked.branch;
  token = token;
}

refused_by_tier :
    (r : Request) (branch : Bytes) (a : Access)
    → allows_push a ≡ false
    → check_by_tier r branch a ≡ err repo_is_read_only
unfolding allows_push
refused_by_tier r branch unset h = refl
refused_by_tier r branch read_only h = refl
refused_by_tier r branch (unknown s) h = refl
refused_by_tier r branch pull_requests_only h = cc
refused_by_tier r branch full_write h = cc

-- No push gets through on a grant that has lapsed: once the time at which a repository drops to
-- read-only is past, or if it has no tier at all, the proxy refuses every push request to it,
-- whatever its method, its headers and its body.
pub handle_of_lapsed :
    (repos : Bytes → LookupResult) (r : Request) (name endpoint : Bytes) (tracked : TrackedRepo)
    (now : ℕ) (path : Bytes) (token : String)
    → split_proxy_path r.path ≡ some (name, endpoint)
    → classify endpoint r.service ≡ some operation_push
    → repos name ≡ serves (repo_of tracked now path token)
    → ((is_after now tracked.drop_to_read_only_at ≡ true) ⊎ (tracked.access ≡ unset))
    → handle repos r ≡ push_refused repo_is_read_only
unfolding handle check_push repo_of
handle_of_lapsed repos r name endpoint tracked now path token splits is_push found lapsed =
    let repo = repo_of tracked now path token in
    let no_push = ((effective_access-lapses tracked now).0 lapsed).0 in
    ap (route repos r) splits
    ∙ (rw (is_push, route)
        (ap (respond r operation_push) found
          ∙ ap (push_response r repo)
              (refused_by_tier r tracked.branch (effective_access tracked now) no_push)))
