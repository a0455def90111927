-- ===== src/RemoteMcpStore/Operations.antt =====
-- internal/remotemcpstore/remotemcpstore.go: the operations of Manager.
use tclaw.Base.{
  ℕ, ◌-◌, ◌+◌, String, str_append, Bool, true, false, not, Option, none, some, List, [], ◌∷◌, ◌++◌,
  ltb, eqb, if◌then◌else◌, Result, ok, err, length, any, keep, ◌==◌, lookup, insert, remove,
}
use tclaw.RemoteMcpStore.{
  RemoteMcp, RemoteMcpAuth, PendingExchange, AddParams, Manager, Faults, Error, read_failed,
  parse_failed, save_failed, already_exists, not_found, secret_failed, PruneChannelResult,
}

abbrev pub decoded : Bool → Option (List RemoteMcp) → Result Error (List RemoteMcp)
decoded parse_ok none = ok []
decoded true (some mcps) = ok mcps
decoded false (some mcps) = err parse_failed

unfoldable pub load : Faults → Manager → Result Error (List RemoteMcp)
load f m = if f.read_ok then decoded f.parse_ok m.store else err read_failed

-- A write, and the error if it fails.
unfoldable pub save : Faults → Manager → List RemoteMcp → Manager × Option Error
save f m mcps = if f.write_ok then (record m { store = some mcps }, none) else (m, some save_failed)

abbrev pub is_named : String → RemoteMcp → Bool
is_named name mcp = mcp.name == name

unfoldable pub first_named : String → List RemoteMcp → Option RemoteMcp
first_named name [] = none
first_named name (mcp ∷ mcps) =
    let later = first_named name mcps in if is_named name mcp then some mcp else later

abbrev pub found_in : String → Result Error (List RemoteMcp) → Result Error (Option RemoteMcp)
found_in name (err e) = err e
found_in name (ok mcps) = ok (first_named name mcps)

unfoldable pub get_remote_mcp : Faults → Manager → String → Result Error (Option RemoteMcp)
get_remote_mcp f m name = found_in name (load f m)

abbrev pub entry_of : AddParams → ℕ → RemoteMcp
entry_of p now = record {
  name = p.name;
  url = p.url;
  created_at = now;
  channels = p.channels;
  url_sensitive = p.url_sensitive;
  tool_names = p.tool_names;
  tls_pin_sha256 = p.tls_pin_sha256;
  instructions = p.instructions;
}

abbrev pub added : RemoteMcp → Manager × Option Error → Manager × Result Error RemoteMcp
added entry (m, none) = (m, ok entry)
added entry (m, some e) = (m, err e)

abbrev pub add_to :
    Faults
    → Manager
    → AddParams
    → ℕ
    → Result Error (List RemoteMcp)
    → Manager × Result Error RemoteMcp
add_to f m p now (err e) = (m, err e)
add_to f m p now (ok mcps) =
    if any (is_named p.name) mcps
    then (m, err already_exists)
    else added (entry_of p now) (save f m (mcps ++ (entry_of p now ∷ [])))

unfoldable pub add_remote_mcp : Faults → Manager → AddParams → ℕ → Manager × Result Error RemoteMcp
add_remote_mcp f m p now = add_to f m p now (load f m)

-- The first registration of that name, changed in place; `none` if there is none.
unfoldable pub update_first :
    (RemoteMcp → RemoteMcp) → String → List RemoteMcp → Option (List RemoteMcp)
update_first fn name [] = none
update_first fn name (mcp ∷ mcps) =
    let later = update_first fn name mcps in
    if is_named name mcp
    then some (fn mcp ∷ mcps)
    else elim later [ none ↦ none | some rest ↦ some (mcp ∷ rest) ]

abbrev pub saved_update : Faults → Manager → Option (List RemoteMcp) → Manager × Option Error
saved_update f m none = (m, some not_found)
saved_update f m (some mcps) = save f m mcps

abbrev pub update_in :
    Faults
    → Manager
    → String
    → (RemoteMcp → RemoteMcp)
    → Result Error (List RemoteMcp)
    → Manager × Option Error
update_in f m name fn (err e) = (m, some e)
update_in f m name fn (ok mcps) = saved_update f m (update_first fn name mcps)

unfoldable pub update : Faults → Manager → String → (RemoteMcp → RemoteMcp) → Manager × Option Error
update f m name fn = update_in f m name fn (load f m)

unfoldable pub set_tool_names : Faults → Manager → String → List String → Manager × Option Error
set_tool_names f m name tool_names = update f m name (λ mcp. record mcp { tool_names = tool_names })

unfoldable pub set_instructions : Faults → Manager → String → String → Manager × Option Error
set_instructions f m name instructions =
    update f m name (λ mcp. record mcp { instructions = instructions })

unfoldable pub set_channels : Faults → Manager → String → List String → Manager × Option Error
set_channels f m name channels = update f m name (λ mcp. record mcp { channels = channels })

-- The channels that stay when one is deleted.
abbrev pub remaining : String → List String → List String
remaining channel channels = keep (λ c. not (c == channel)) channels

abbrev pub is_nil : List String → Bool
is_nil [] = true
is_nil (c ∷ cs) = false

-- What the loop of `RemoveChannelFromAll` makes of the registrations, with its result and whether
-- anything changed.
unfoldable pub prune : String → List RemoteMcp → List RemoteMcp × PruneChannelResult
prune channel [] = ([], record { pruned = []; left_alone = [] })
prune channel (mcp ∷ mcps) =
    let (rest, result) = prune channel mcps in
    let stay = remaining channel mcp.channels in
    if eqb (length stay) (length mcp.channels)
    then (mcp ∷ rest, result)
    else if is_nil stay
    then (mcp ∷ rest, record result { left_alone = mcp.name ∷ result.left_alone })
    else (
      record mcp { channels = stay } ∷ rest,
      record result { pruned = mcp.name ∷ result.pruned },
    )

abbrev pub pruned_saved :
    PruneChannelResult → Manager × Option Error → Manager × Result Error PruneChannelResult
pruned_saved result (m, none) = (m, ok result)
pruned_saved result (m, some e) = (m, err e)

abbrev pub prune_in :
    Faults
    → Manager
    → String
    → Result Error (List RemoteMcp)
    → Manager × Result Error PruneChannelResult
prune_in f m channel (err e) = (m, err e)
prune_in f m channel (ok mcps) =
    let (mcps', result) = prune channel mcps in
    if is_nil result.pruned then (m, ok result) else pruned_saved result (save f m mcps')

unfoldable pub remove_channel_from_all :
    Faults → Manager → String → Manager × Result Error PruneChannelResult
remove_channel_from_all f m channel = prune_in f m channel (load f m)

unfoldable pub auth_key : String → String
auth_key name = str_append "remote_mcp/" name

-- The credentials go first; a failing write after that leaves the registration without them.
abbrev pub remove_in :
    Faults → Manager → String → Result Error (List RemoteMcp) → Manager × Option Error
remove_in f m name (err e) = (m, some e)
remove_in f m name (ok mcps) =
    if any (is_named name) mcps
    then (if f.secret_ok
        then save f (record m { secrets = remove (auth_key name) m.secrets })
            (keep (λ mcp. not (is_named name mcp)) mcps)
        else (m, some secret_failed))
    else (m, some not_found)

unfoldable pub remove_remote_mcp : Faults → Manager → String → Manager × Option Error
remove_remote_mcp f m name = remove_in f m name (load f m)

abbrev decoded_auth : Bool → Option RemoteMcpAuth → Result Error (Option RemoteMcpAuth)
decoded_auth parse_ok none = ok none
decoded_auth true (some auth) = ok (some auth)
decoded_auth false (some auth) = err parse_failed

unfoldable pub get_remote_mcp_auth : Faults → Manager → String → Result Error (Option RemoteMcpAuth)
get_remote_mcp_auth f m name =
    if f.secret_ok
    then decoded_auth f.parse_ok (lookup (auth_key name) m.secrets)
    else err secret_failed

unfoldable pub set_remote_mcp_auth :
    Faults → Manager → String → RemoteMcpAuth → Manager × Option Error
set_remote_mcp_auth f m name auth =
    if f.secret_ok
    then (record m { secrets = insert (auth_key name) auth m.secrets }, none)
    else (m, some secret_failed)

-- Thirty minutes.
abbrev pub pending_exchange_ttl : ℕ
pending_exchange_ttl = 1_800_000_000_000

unfoldable pub expired : PendingExchange → ℕ → Bool
expired p now = ltb pending_exchange_ttl (now - p.started_at)

-- A minute before the expiry; a zero time never expires.
unfoldable pub token_expired : RemoteMcpAuth → ℕ → Bool
token_expired a now = elim a.token_expiry [ none ↦ false | some at ↦ ltb at (now + 60_000_000_000) ]
