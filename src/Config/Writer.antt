-- ===== src/Config/Writer.antt =====
-- internal/config/writer.go: the changes of a user's channels in the file. The file is the decoded
-- configuration, and a flag says whether it can be read and replaced.
use tclaw.Base.{
  String, Bool, true, false, not, Option, none, some, List, [], ◌∷◌, ◌++◌, any, keep, if◌then◌else◌,
  Result, ok, err, ◌==◌,
}
use tclaw.Config.{Channel, User, Config}

pub data WriteError : Type 0 where
  unreadable no_user channel_exists no_channel unwritable : WriteError

pub record FileFaults : Type 0 where
  pub read_ok : Bool
  pub write_ok : Bool

abbrev pub Change : Type 0
Change = List Channel → Result WriteError (List Channel)

abbrev pub with_channels : User → Result WriteError (List Channel) → Result WriteError User
with_channels u (ok channels) = ok (record u { channels = channels })
with_channels u (err e) = err e

abbrev pub then_others : Result WriteError User → List User → Result WriteError (List User)
then_others (ok u) users = ok (u ∷ users)
then_others (err e) users = err e

abbrev pub behind : User → Result WriteError (List User) → Result WriteError (List User)
behind u (ok users) = ok (u ∷ users)
behind u (err e) = err e

-- The change of the channels of the first user of that id.
unfoldable pub change_user : Change → String → List User → Result WriteError (List User)
change_user fn id [] = err no_user
change_user fn id (u ∷ users) =
    let later = change_user fn id users in
    if u.id == id then then_others (with_channels u (fn u.channels)) users else behind u later

abbrev pub replaced :
    FileFaults → Config → Result WriteError (List User) → Config × Option WriteError
replaced f cfg (err e) = (cfg, some e)
replaced f cfg (ok users) =
    if f.write_ok then (record cfg { users = users }, none) else (cfg, some unwritable)

-- The file is replaced as a whole, or stays as it was.
unfoldable pub mutate : FileFaults → Config → Change → String → Config × Option WriteError
mutate f cfg fn id =
    if f.read_ok then replaced f cfg (change_user fn id cfg.users) else (cfg, some unreadable)

abbrev pub is_named : String → Channel → Bool
is_named name ch = ch.name == name

unfoldable pub added : Channel → Change
added ch channels =
    if any (is_named ch.name) channels then err channel_exists else ok (channels ++ (ch ∷ []))

unfoldable pub add_channel : FileFaults → Config → String → Channel → Config × Option WriteError
add_channel f cfg id ch = mutate f cfg (added ch) id

unfoldable pub updated : String → (Channel → Channel) → Change
updated name fn [] = err no_channel
updated name fn (ch ∷ channels) = elim (is_named name ch) [
  | true ↦ ok (fn ch ∷ channels)
  | false ↦ elim (updated name fn channels) [ ok rest ↦ ok (ch ∷ rest) | err e ↦ err e ]
]

unfoldable pub update_channel :
    FileFaults → Config → String → String → (Channel → Channel) → Config × Option WriteError
update_channel f cfg id name fn = mutate f cfg (updated name fn) id

-- The channels without the first of that name; none if there is no such.
unfoldable pub without_first : String → List Channel → Option (List Channel)
without_first name [] = none
without_first name (ch ∷ channels) =
    let later = without_first name channels in
    if is_named name ch
    then some channels
    else elim later [ none ↦ none | some rest ↦ some (ch ∷ rest) ]

-- The links that do not point at the channel stay.
abbrev pub unlink : String → Channel → Channel
unlink name ch = record ch { links = keep (λ link. not (link.target == name)) ch.links }

abbrev pub unlinked : String → List Channel → List Channel
unlinked name [] = []
unlinked name (ch ∷ channels) = unlink name ch ∷ unlinked name channels

unfoldable pub removed : String → Change
removed name channels = elim (without_first name channels) [
  | none ↦ err no_channel
  | some rest ↦ ok (unlinked name rest)
]

unfoldable pub remove_channel : FileFaults → Config → String → String → Config × Option WriteError
remove_channel f cfg id name = mutate f cfg (removed name) id

unfoldable pub channels_of : String → List User → Result WriteError (List Channel)
channels_of id [] = err no_user
channels_of id (u ∷ users) =
    let later = channels_of id users in if u.id == id then ok u.channels else later

unfoldable pub read_channels : FileFaults → Config → String → Result WriteError (List Channel)
read_channels f cfg id = if f.read_ok then channels_of id cfg.users else err unreadable
