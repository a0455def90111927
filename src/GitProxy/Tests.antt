-- ===== src/GitProxy/Tests.antt =====
-- The proxy on a push of one branch, as git writes it.
use tclaw.Base.{
  ◌≤◌, ◌≡◌, ◌≢◌, ◌↔◌, refl, some, List, [], ◌∷◌, ◌++◌, ok, err, length, Bytes, bytes, arith, inl,
  same_bytes, strip_prefix, cut,
}
use tclaw.Repo.{pull_requests_only}
use tclaw.Repo.Tests.{tracked}
use tclaw.GitProxy.Commands.{
  RefCommand, out_of_fuel, command_section_limit, parse_ref_commands, heads,
}
use tclaw.GitProxy.Requests.{
  Repo, Request, operation_push, repo_is_read_only, LookupResult, serves, forwarded, push_refused,
  split_proxy_path, trim_slash, dot_git, classify, receive_pack, info_refs, upload_pack,
  upstream_path, handle,
}
use tclaw.GitProxy.Lines.{Section}
use tclaw.GitProxy.Acceptance.{parse_ref_commands-Section, parse_ref_commands-ends}
use tclaw.GitProxy.Commands.{space_width}
use tclaw.GitProxy.Encoding.{
  encode, AllWritable, IsCommand, newline, parse_ref_commands-encode, encode-Section,
}
use tclaw.GitProxy.Forwarding.{Forwards, handle-Forwards}
use tclaw.GitProxy.Allowing.{BranchPush, handle_of_BranchPush}
use tclaw.GitProxy.Lapse.{repo_of, handle_of_lapsed}

abbrev topic : RefCommand
topic = record {
  old_oid = 48 ∷ 49 ∷ [];
  new_oid = 50 ∷ 51 ∷ [];
  -- refs/heads/t
  ref = 114 ∷ 101 ∷ 102 ∷ 115 ∷ 47 ∷ 104 ∷ 101 ∷ 97 ∷ 100 ∷ 115 ∷ 47 ∷ 116 ∷ [];
}

abbrev pushes : List (RefCommand × Bytes)
pushes = (topic, 10 ∷ []) ∷ []

abbrev packfile : Bytes
packfile = 80 ∷ 65 ∷ 67 ∷ 75 ∷ []

topic-IsCommand : IsCommand topic
unfolding space_width
topic-IsCommand = record {
  old_word = record { unbroken = ground arith; no_nul = ground arith; some_byte = λ e. cc };
  new_word = record { unbroken = ground arith; no_nul = ground arith; some_byte = λ e. cc };
  ref_word = record { unbroken = ground arith; no_nul = ground arith; some_byte = λ e. cc };
}

pushes-AllWritable : AllWritable pushes
pushes-AllWritable = ((topic-IsCommand, newline, omega arith), tt)

parse_ref_commands-encode_example :
    parse_ref_commands (encode pushes ++ packfile) ≡ ok (topic ∷ [], encode pushes)
parse_ref_commands-encode_example =
    parse_ref_commands-encode pushes packfile pushes-AllWritable (omega arith)

parse_ref_commands-Section_example :
    (parse_ref_commands (encode pushes) ≡ ok (topic ∷ [], encode pushes)) ↔ (
      Section (topic ∷ []) (encode pushes)
      × (length (encode pushes) ≤ command_section_limit)
      × ((rest : Bytes) × (encode pushes ≡ encode pushes ++ rest)))
parse_ref_commands-Section_example =
    parse_ref_commands-Section (encode pushes) (topic ∷ []) (encode pushes)

parse_ref_commands-ends_example : parse_ref_commands (48 ∷ 48 ∷ 48 ∷ []) ≢ err out_of_fuel
parse_ref_commands-ends_example = parse_ref_commands-ends (48 ∷ 48 ∷ 48 ∷ [])

abbrev config : Repo
config = record {
  path = bytes "owner/config";
  access = pull_requests_only;
  default_branch = bytes "main";
  token = "secret";
}

abbrev served : Bytes → LookupResult
served name = serves config

abbrev branch_push : Request
branch_push = record {
  path = 47 ∷ 99 ∷ 46 ∷ 103 ∷ 105 ∷ 116 ∷ 47 ∷ bytes "git-receive-pack";
  service = "";
  method = "POST";
  content_encoding = "";
  body = encode pushes ++ packfile;
}

splits_push : split_proxy_path branch_push.path ≡ some (99 ∷ [], bytes "git-receive-pack")
unfolding split_proxy_path cut trim_slash dot_git bytes strip_prefix
splits_push = refl

is_push : classify (bytes "git-receive-pack") "" ≡ some operation_push
unfolding classify same_bytes receive_pack info_refs upload_pack bytes
is_push = refl

topic_is_branch : (name : Bytes) × (topic.ref ≡ heads ++ name) × (name ≢ bytes "main")
unfolding heads bytes
topic_is_branch = (116 ∷ [], refl, λ e. ground arith)

branch_push-BranchPush : BranchPush served branch_push (99 ∷ []) (bytes "git-receive-pack") config
branch_push-BranchPush = record {
  splits = splits_push;
  is_push = is_push;
  found = refl;
  tier = refl;
  plain = refl;
  commands = topic ∷ [];
  section = encode pushes;
  packfile = packfile;
  body = refl;
  is_section = encode-Section pushes pushes-AllWritable;
  small = omega arith;
  some_command = λ e. cc;
  other_branches = (topic_is_branch, tt);
}

handle_of_BranchPush_example :
    handle served branch_push
    ≡ forwarded (upstream_path config branch_push.path) "secret" (encode pushes ++ packfile)
handle_of_BranchPush_example =
    handle_of_BranchPush served branch_push (99 ∷ []) (bytes "git-receive-pack") config
      branch_push-BranchPush

handle-Forwards_example :
    Forwards served branch_push
      (upstream_path config branch_push.path)
      "secret"
      (encode pushes ++ packfile)
handle-Forwards_example =
    handle-Forwards served branch_push (upstream_path config branch_push.path) "secret"
      (encode pushes ++ packfile)
      (handle_of_BranchPush served branch_push (99 ∷ []) (bytes "git-receive-pack") config
        branch_push-BranchPush)

handle_of_lapsed_example :
    handle (λ name. serves (repo_of tracked 101 (bytes "owner/config") "secret")) branch_push
    ≡ push_refused repo_is_read_only
handle_of_lapsed_example =
    handle_of_lapsed (λ name. serves (repo_of tracked 101 (bytes "owner/config") "secret"))
      branch_push (99 ∷ []) (bytes "git-receive-pack") tracked 101 (bytes "owner/config") "secret"
      splits_push is_push refl (inl refl)
