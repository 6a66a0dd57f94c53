-- ===== src/Navigation/Tests.antt =====
-- The navigation's theorems at concrete inputs.
use decentrarent.Prelude.{◌+◌, String, true, false, some, List, [], ◌∷◌, ◌≡◌, refl}
use decentrarent.Chat.{ChatState, initial_chat, unread_of, increment_unread, clear_unread}
use decentrarent.Navigation.{connect_wallet, profile, follow, total_unread}
use decentrarent.Navigation.Redirects.{destination, follow_ends}
use decentrarent.Navigation.Counts.{total_unread-counts}

abbrev nowhere : List String
nowhere = "listings" ∷ "7" ∷ "edit" ∷ []

nowhere-ends : destination false nowhere ≡ connect_wallet
nowhere-ends = refl

in_capitals : follow 3 true ("PROFILE" ∷ []) ≡ some profile
unfolding follow
in_capitals = refl

follow_ends_example : follow (3 + 0) false nowhere ≡ some (destination false nowhere)
follow_ends_example = follow_ends false nowhere 0

abbrev busy : ChatState
busy = record initial_chat { unread_counts = ("c1", 2) ∷ ("c2", 3) ∷ [] }

total_unread-counts_run :
    (total_unread (increment_unread "c2" busy) ≡ total_unread busy + 1)
    × (total_unread (clear_unread "c2" busy) + unread_of "c2" busy ≡ total_unread busy)
total_unread-counts_run = total_unread-counts "c2" busy
