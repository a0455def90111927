-- ===== src/Config/Tests.antt =====
-- A user with two linked channels, one of which is deleted.
use tclaw.Base.{◌≡◌, ◌↔◌, refl, false, [], ◌∷◌, ok, runes}
use tclaw.Config.{User}
use tclaw.Config.Samples.{vocabulary, main, dev, docs, user}
use tclaw.Config.Validation.{validate_user, check_user, check_repos, check_repo, normalize}
use tclaw.Config.Checks.{
  dedupe, check_channel, check_channels, check_type, channel_name_pattern, check_links,
  check_all_links, valid_repo_name,
}
use tclaw.Config.Writer.{removed, without_first}
use tclaw.Config.Reload.{removed-Loads}
use tclaw.Config.Scoping.{Unscoped}

loaded : (u' : User) × (validate_user vocabulary [] false user ≡ ok u')
unfolding validate_user dedupe check_user check_channels check_channel channel_name_pattern
    check_type check_all_links check_links check_repos normalize check_repo valid_repo_name runes
loaded = (_, refl)

main_stays : removed "dev" (main ∷ dev ∷ []) ≡ ok (record main { links = [] } ∷ [])
unfolding removed without_first
main_stays = refl

removed-Loads_example :
    ((u'' : User) × (validate_user vocabulary [] false
          (record user { channels = record main { links = [] } ∷ [] })
        ≡ ok u''))
    ↔ Unscoped "dev" (docs ∷ [])
removed-Loads_example =
    removed-Loads vocabulary [] false user loaded.0 "dev" (record main { links = [] } ∷ [])
      (refl, (refl, tt)) loaded.1 main_stays refl
