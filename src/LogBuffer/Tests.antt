-- ===== src/LogBuffer/Tests.antt =====
-- A ring of two lines, a text that is cut in the middle of a line, and a log of two users.
use tclaw.Base.{drop, ◌≡◌, refl, some, [], ◌∷◌, ◌++◌, Bytes, arith}
use tclaw.Base.{◌≢◌, ◌⊎◌, ◌≤◌, All, length, none, true, cut, strip_prefix, bytes}
use tclaw.LogBuffer.Query.{
  QueryParams, TextFunctions, query, user_field, cap, matches_entry, hides_user, occurs,
  matches_user, too_old,
}
use tclaw.LogBuffer.Query.Isolation.{Shown, query-Shown}
use tclaw.LogBuffer.{Buffer, new, write}
use tclaw.LogBuffer.Ring.{Holds, Follows, logged, complete_lines, write-Follows}

abbrev first : Bytes
first = 97 ∷ 10 ∷ 98 ∷ []

abbrev second : Bytes
second = 99 ∷ 10 ∷ 100 ∷ 10 ∷ []

new-Holds : Holds (new 2) []
unfolding new drop
new-Holds = record { some_room = omega arith; latest_lines = refl }

write-Follows_example :
    Follows
      (new 2)
      ([] ++ logged (some 5) (complete_lines [] ((new 2).partial ++ first)))
      (write 5 first (new 2))
write-Follows_example = write-Follows 5 first (new 2) [] new-Holds

abbrev mine : Bytes
mine = user_field ++ (97 ∷ 32 ∷ [])

abbrev yours : Bytes
yours = user_field ++ (97 ∷ 98 ∷ [])

abbrev two_users : Buffer
two_users = record {
  lines = record { time = none; text = mine } ∷ record { time = some 5; text = yours } ∷ [];
  max = 2;
  partial = [];
}

abbrev of_a : QueryParams
of_a = record {
  user_id = 97 ∷ [];
  include_system = true;
  level = [];
  contains = [];
  since = none;
  max_lines = 1;
}

abbrev plain : TextFunctions
plain = record { to_lower = λ s. s; to_upper = λ s. s; parse_time = λ s. none }

two_users-query : query plain two_users of_a ≡ mine ∷ []
unfolding query cap matches_entry hides_user occurs matches_user too_old drop cut strip_prefix
    user_field bytes
two_users-query = refl

of_a-named : of_a.user_id ≢ []
of_a-named h = cc

query-Shown_example :
    All (Shown of_a) (query plain two_users of_a)
    × ((of_a.max_lines ≡ 0) ⊎ (length (query plain two_users of_a) ≤ of_a.max_lines))
query-Shown_example = query-Shown plain two_users of_a of_a-named
