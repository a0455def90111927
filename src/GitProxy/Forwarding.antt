-- ===== src/GitProxy/Forwarding.antt =====
-- internal/gitproxy/gitproxy.go: the requests that `handle` sends on, and what it sends.
use tclaw.Base.{
  ◌≡◌, ◌≢◌, refl, ap, ◌∙◌, sym, subst, false, Option, none, some, [], ◌∷◌, ◌++◌, Result, ok, err,
  Bytes, arith, Option-cases, inl, inr, cut, cut-splits, String,
}
use tclaw.GitProxy.Requests.{
  Repo, Request, Operation, operation_fetch, operation_push, PushError, LookupResult, lookup_failed,
  no_such_repo, serves, forwarded, trim_slash, dot_git, has_slash, is_nil, split_proxy_path,
  classify, upstream_path, rewritten, check_push, push_response, respond, route, handle,
}
use tclaw.GitProxy.Pushes.{Permitted, fetches, check_push-Passes}

-- A path that the proxy serves: a name without a slash, the suffix, and an endpoint.
pub record ServedPath (path name endpoint : Bytes) : Type 0 where
  pub shape : trim_slash path ≡ name ++ (dot_git ++ endpoint)
  pub no_slash : has_slash name ≡ false
  pub named : name ≢ []

split_proxy_path-ServedPath :
    (path name endpoint : Bytes)
    → split_proxy_path path ≡ some (name, endpoint)
    → ServedPath path name endpoint
unfolding split_proxy_path
split_proxy_path-ServedPath path name endpoint e =
    elim (Option-cases (cut dot_git (trim_slash path))) [
      | inl x ↦ absurd (ground arith)
      | inr (r, x) ↦
          let same : (r.0 ≡ name)
              × (r.1 ≡ endpoint)
              × (has_slash r.0 ≡ false)
              × (is_nil r.0 ≡ false) =
            ground arith in
          record {
            shape =
                cut-splits dot_git (trim_slash path) r.0 r.1 x
                ∙ ap (λ l. l ++ (dot_git ++ r.1)) same.0
                ∙ ap (λ l. name ++ (dot_git ++ l)) same.1;
            no_slash = subst (λ l. has_slash l ≡ false) same.0 same.2;
            named = λ z. ground arith;
          }
    ]

-- What is sent on, and for which request.
pub record Forwards (repos : Bytes → LookupResult) (r : Request) (path : Bytes) (token : String)
    (body : Bytes) : Type 0 where
  pub name : Bytes
  pub endpoint : Bytes
  pub repo : Repo
  pub operation : Operation
  pub served : ServedPath r.path name endpoint
  pub found : repos name ≡ serves repo
  pub is_git : classify endpoint r.service ≡ some operation
  pub permitted : Permitted r repo operation
  pub to : path ≡ 47 ∷ (repo.path ++ dot_git ++ endpoint)
  pub with_token : token ≡ repo.token
  pub unchanged : body ≡ r.body

module _ (repos : Bytes → LookupResult) (r : Request) (path : Bytes) (token : String)
    (body : Bytes) where
  upstream_path_of :
      (repo : Repo) (name endpoint : Bytes)
      → split_proxy_path r.path ≡ some (name, endpoint)
      → upstream_path repo r.path ≡ 47 ∷ (repo.path ++ dot_git ++ endpoint)
  unfolding upstream_path
  upstream_path_of repo name endpoint e = ap (rewritten repo.path r.path) e

  sent_on :
      (repo : Repo) (name endpoint body' : Bytes) (operation : Operation)
      → split_proxy_path r.path ≡ some (name, endpoint)
      → classify endpoint r.service ≡ some operation
      → repos name ≡ serves repo
      → Permitted r repo operation
      → body' ≡ r.body
      → forwarded (upstream_path repo r.path) repo.token body' ≡ forwarded path token body
      → Forwards repos r path token body
  sent_on repo name endpoint body' operation splits git found permitted same e = record {
    name = name;
    endpoint = endpoint;
    repo = repo;
    operation = operation;
    served = split_proxy_path-ServedPath r.path name endpoint splits;
    found = found;
    is_git = git;
    permitted = permitted;
    to =
        let to : upstream_path repo r.path ≡ path = ground arith in
        sym to ∙ upstream_path_of repo name endpoint splits;
    with_token = ground arith;
    unchanged = let kept : body' ≡ body = ground arith in sym kept ∙ same;
  }

  module _ (name endpoint : Bytes) (splits : split_proxy_path r.path ≡ some (name, endpoint)) where
    pushed-Forwards :
        (repo : Repo) (o : Result PushError Bytes)
        → classify endpoint r.service ≡ some operation_push
        → repos name ≡ serves repo
        → check_push r repo ≡ o
        → push_response r repo o ≡ forwarded path token body
        → Forwards repos r path token body
    pushed-Forwards repo (err x) git found checked e = cc
    pushed-Forwards repo (ok body') git found checked e =
        let (permitted, same) = check_push-Passes r repo body' checked in
        sent_on repo name endpoint body' operation_push splits git found permitted same e

    respond-Forwards :
        (operation : Operation) (l : LookupResult)
        → classify endpoint r.service ≡ some operation
        → repos name ≡ l
        → respond r operation l ≡ forwarded path token body
        → Forwards repos r path token body
    respond-Forwards operation lookup_failed git found e = cc
    respond-Forwards operation no_such_repo git found e = cc
    respond-Forwards operation_push (serves repo) git found e =
        pushed-Forwards repo (check_push r repo) git found refl e
    respond-Forwards operation_fetch (serves repo) git found e =
        sent_on repo name endpoint r.body operation_fetch splits git found fetches refl e

  route-Forwards :
      (o : Option (Bytes × Bytes))
      → split_proxy_path r.path ≡ o
      → route repos r o ≡ forwarded path token body
      → Forwards repos r path token body
  route-Forwards none splits e = cc
  route-Forwards (some (name, endpoint)) splits e =
      elim (Option-cases (classify endpoint r.service)) [
        | inl x ↦ absurd (ground arith)
        | inr (operation, x) ↦
            let shape : route repos r (some (name, endpoint)) ≡ respond r operation (repos name) =
              rw (x, route) refl in
            respond-Forwards name endpoint splits operation (repos name) x refl (sym shape ∙ e)
      ]

-- Nothing reaches the hosting service but git requests that the access tier permits, and they
-- reach it unchanged. If `handle` sends a request on, its path named a repository that the
-- lookup serves, without a slash in the name, and one of git's endpoints; it goes to that
-- endpoint of the repository's own upstream path, with that repository's token and with the body
-- byte for byte; and it is a fetch, or a push under full write access, or under pull requests
-- only a request that is no POST, or one whose body begins with a command section of at least
-- one command, each of them on a branch other than the default one.
pub handle-Forwards :
    (repos : Bytes → LookupResult) (r : Request) (path : Bytes) (token : String) (body : Bytes)
    → handle repos r ≡ forwarded path token body
    → Forwards repos r path token body
unfolding handle
handle-Forwards repos r path token body e =
    route-Forwards repos r path token body (split_proxy_path r.path) refl e
