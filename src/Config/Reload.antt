-- ===== src/Config/Reload.antt =====
-- internal/config: whether a configuration still loads after the deletion of a channel.
use tclaw.Base.{
  ◌≡◌, ◌↔◌, refl, ◌∙◌, subst, String, Bool, false, none, List, [], ok, ◌==◌, arith, Result-cases,
  inl, inr,
}
use tclaw.Config.{Vocabulary, Channel, RepoConfig, User}
use tclaw.Config.Validation.{
  check_repos, if_none, check_user, validate_user, with_repos, no_channel,
}
use tclaw.Config.Checks.{names, check_channels, check_all_links}
use tclaw.Config.Writer.{removed}
use tclaw.Config.Deletion.{
  removed-Deleted, listed-Deleted, check_channels-Deleted, check_all_links-Deleted,
}
use tclaw.Config.Scoping.{
  Unrepeated, Unscoped, Unrepeated-Deleted, gone-Deleted, dedupe_all, check_repos-Unscoped,
  check_repos-Known, Known-Unscoped,
}

-- What a user that loads has passed.
record Passed (v : Vocabulary) (labels : List String) (d : Bool) (u : User) : Type 0 where
  user_ok : check_user v d u ≡ none
  channels_ok : check_channels v u.telegram_user_id [] u.channels ≡ none
  links_ok : check_all_links (names u.channels) u.channels ≡ none
  repos : List RepoConfig
  repos_ok : check_repos v (names u.channels) labels [] u.repos ≡ ok repos

validate_user-Passed :
    (v : Vocabulary) (labels : List String) (d : Bool) (u u' : User)
    → Unrepeated u.channels
    → validate_user v labels d u ≡ ok u'
    → Passed v labels d u
unfolding validate_user
validate_user-Passed v labels d u u' distinct e =
    let e' =
      subst
        (λ c.
          if_none (check_user v d u) (
            if_none (check_channels v u.telegram_user_id [] c) (
              if_none (check_all_links (names c) c)
                (with_repos u c (check_repos v (names c) labels [] u.repos))))
          ≡ ok u')
        (dedupe_all u.channels distinct) e in
    elim (Result-cases (check_repos v (names u.channels) labels [] u.repos)) [
      | inr (x, bad) ↦ absurd (ground (arith, e'))
      | inl (rs, good) ↦ record {
        user_ok = ground (arith, e');
        channels_ok = ground (arith, e');
        links_ok = ground (arith, e');
        repos = rs;
        repos_ok = good;
      }
    ]

check_user-channels :
    (v : Vocabulary) (d : Bool) (u : User) (rest : List Channel)
    → check_user v d u ≡ none
    → no_channel rest ≡ false
    → check_user v d (record u { channels = rest }) ≡ none
unfolding check_user
check_user-channels v d u rest h left = ground arith

Passed-Loads :
    (v : Vocabulary) (labels : List String) (d : Bool) (u : User)
    → Unrepeated u.channels
    → (p : Passed v labels d u) → validate_user v labels d u ≡ ok (record u { repos = p.repos })
unfolding validate_user
Passed-Loads v labels d u distinct p =
    rw (dedupe_all u.channels distinct)
      (rw p.user_ok (rw p.channels_ok (rw p.links_ok (rw p.repos_ok refl))))

-- The deletion of a channel from a configuration that loads, if no name stands twice and a channel
-- is left: the links that pointed at the channel are gone, so that nothing in the channels keeps
-- the rest from loading, and the user still loads exactly if no declared repository is restricted
-- to the channel that was deleted.
pub removed-Loads :
    (v : Vocabulary) (labels : List String) (d : Bool) (u u' : User) (name : String)
    (rest : List Channel)
    → Unrepeated u.channels
    → validate_user v labels d u ≡ ok u'
    → removed name u.channels ≡ ok rest
    → no_channel rest ≡ false
    → ((u'' : User) × (validate_user v labels d (record u { channels = rest }) ≡ ok u''))
      ↔ Unscoped name u.repos
removed-Loads v labels d u u' name rest distinct loads gone left =
    let after = record u { channels = rest } in
    let deleted = removed-Deleted name u.channels rest gone in
    let passed = validate_user-Passed v labels d u u' distinct loads in
    let distinct' = Unrepeated-Deleted name deleted distinct in
    let stays = λ (n : String) (other : (n == name) ≡ false). listed-Deleted name n deleted other in
    let absent = gone-Deleted name deleted distinct in
    let channels_ok =
      check_channels-Deleted v u.telegram_user_id name [] [] deleted (λ n h. h)
        passed.channels_ok in
    let links_ok =
      check_all_links-Deleted name (names u.channels) (names rest)
        (λ n known other. stays n other ∙ known) deleted passed.links_ok in
    (
      (λ h.
          let again = validate_user-Passed v labels d after h.0 distinct' h.1 in
          Known-Unscoped name (names rest) u.repos absent
            (check_repos-Known v (names rest) labels [] u.repos again.repos again.repos_ok)),
      (λ unscoped.
          let repos_ok =
            check_repos-Unscoped v name (names u.channels) (names rest) labels [] u.repos stays
              unscoped
            ∙ passed.repos_ok in
          let again : Passed v labels d after = record {
            user_ok = check_user-channels v d u rest passed.user_ok left;
            channels_ok = channels_ok;
            links_ok = links_ok;
            repos = passed.repos;
            repos_ok = repos_ok;
          } in
          (record after { repos = passed.repos }, Passed-Loads v labels d after distinct' again)),
    )
