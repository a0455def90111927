-- ===== src/GitProxy/Requests.antt =====
-- internal/gitproxy/gitproxy.go: the request handler. A request's path and body are byte strings;
-- the lookup of a name and the forwarding are arguments and results. Of the URL's query the handler
-- reads `service`, of the headers `Content-Encoding`.
use tclaw.Base.{
  ℕ, zero, suc, String, Bool, true, false, ◌||◌, not, Option, none, some, List, [], ◌∷◌, ◌++◌, eqb,
  if◌then◌else◌, Result, ok, err, length, Bytes, bytes, same_bytes, cut, ◌==◌, any,
}
use tclaw.Repo.{Access, pull_requests_only, full_write}
use tclaw.GitProxy.Commands.{
  RefCommand, ParseError, PolicyError, parse_ref_commands, check_pull_requests_only,
}

-- What the proxy knows of a repository it serves.
pub record Repo : Type 0 where
  pub path : Bytes
  pub access : Access
  pub default_branch : Bytes
  pub token : String

pub record Request : Type 0 where
  pub path : Bytes
  pub service : String
  pub method : String
  pub content_encoding : String
  pub body : Bytes

pub data Operation : Type 0 where
  operation_fetch : Operation
  operation_push : Operation

-- Why a push is refused.
pub data PushError : Type 0 where
  repo_is_read_only : PushError
  unsupported_encoding : PushError
  unreadable : ParseError → PushError
  not_allowed : PolicyError → PushError

pub data LookupResult : Type 0 where
  lookup_failed : LookupResult
  no_such_repo : LookupResult
  serves : Repo → LookupResult

pub data Response : Type 0 where
  not_found : Response
  forbidden : Response
  bad_gateway : Response
  push_refused : PushError → Response
  -- The upstream path, the token of the repository and the body that is sent on.
  forwarded : Bytes → String → Bytes → Response

-- `strings.TrimPrefix(path, "/")`
unfoldable pub trim_slash : Bytes → Bytes
trim_slash [] = []
trim_slash (b ∷ s) = if eqb b 47 then s else b ∷ s

unfoldable pub dot_git : Bytes
dot_git = bytes ".git/"

abbrev pub has_slash : Bytes → Bool
has_slash s = any (λ b. eqb b 47) s

abbrev pub is_nil : Bytes → Bool
is_nil [] = true
is_nil (b ∷ s) = false

-- The name before the suffix and the endpoint behind it.
abbrev pub parts : Option (Bytes × Bytes) → Option (Bytes × Bytes)
parts none = none
parts (some (name, endpoint)) =
    if is_nil name || is_nil endpoint || has_slash name then none else some (name, endpoint)

unfoldable pub split_proxy_path : Bytes → Option (Bytes × Bytes)
split_proxy_path path = parts (cut dot_git (trim_slash path))

unfoldable pub upload_pack : Bytes
upload_pack = bytes "git-upload-pack"

unfoldable pub receive_pack : Bytes
receive_pack = bytes "git-receive-pack"

unfoldable pub info_refs : Bytes
info_refs = bytes "info/refs"

unfoldable pub classify : Bytes → String → Option Operation
classify endpoint service =
    if same_bytes endpoint info_refs
    then (if service == "git-upload-pack"
        then some operation_fetch
        else if service == "git-receive-pack"
        then some operation_push
        else none)
    else if same_bytes endpoint upload_pack
    then some operation_fetch
    else if same_bytes endpoint receive_pack
    then some operation_push
    else none

abbrev pub rewritten : Bytes → Bytes → Option (Bytes × Bytes) → Bytes
rewritten repo_path path none = path
rewritten repo_path path (some (name, endpoint)) = 47 ∷ repo_path ++ dot_git ++ endpoint

unfoldable pub upstream_path : Repo → Bytes → Bytes
upstream_path r path = rewritten r.path path (split_proxy_path path)

-- What is left of a body when so many bytes are read.
unfoldable pub unread : ℕ → Bytes → Bytes
unread zero body = body
unread (suc n) [] = []
unread (suc n) (b ∷ body) = unread n body

abbrev pub judged : Bytes → Option PolicyError → Result PushError Bytes
judged body none = ok body
judged body (some e) = err (not_allowed e)

-- The body that is sent on is what was read for the check and then what was not.
abbrev pub inspected :
    Bytes → Bytes → Result ParseError (List RefCommand × Bytes) → Result PushError Bytes
inspected body branch (err e) = err (unreadable e)
inspected body branch (ok (commands, consumed)) =
    judged (consumed ++ unread (length consumed) body) (check_pull_requests_only commands branch)

abbrev pub check_by_tier : Request → Bytes → Access → Result PushError Bytes
check_by_tier r branch full_write = ok r.body
check_by_tier r branch pull_requests_only =
    if not (r.method == "POST")
    then ok r.body
    else if not (r.content_encoding == "")
    then err unsupported_encoding
    else inspected r.body branch (parse_ref_commands r.body)
check_by_tier r branch _ = err repo_is_read_only

-- `checkPush`: the body to send on, or the reason of the refusal.
unfoldable pub check_push : Request → Repo → Result PushError Bytes
check_push r repo = check_by_tier r repo.default_branch repo.access

abbrev pub push_response : Request → Repo → Result PushError Bytes → Response
push_response r repo (err e) = push_refused e
push_response r repo (ok body) = forwarded (upstream_path repo r.path) repo.token body

abbrev pub respond : Request → Operation → LookupResult → Response
respond r operation lookup_failed = bad_gateway
respond r operation no_such_repo = not_found
respond r operation_push (serves repo) = push_response r repo (check_push r repo)
respond r operation_fetch (serves repo) = forwarded (upstream_path repo r.path) repo.token r.body

abbrev pub route : (Bytes → LookupResult) → Request → Option (Bytes × Bytes) → Response
route repos r none = not_found
route repos r (some (name, endpoint)) = elim (classify endpoint r.service) [
  | none ↦ forbidden
  | some operation ↦ respond r operation (repos name)
]

unfoldable pub handle : (Bytes → LookupResult) → Request → Response
handle repos r = route repos r (split_proxy_path r.path)
