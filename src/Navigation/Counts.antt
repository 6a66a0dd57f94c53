-- ===== src/Navigation/Counts.antt =====
-- The number that the bar shows.
use decentrarent.Prelude.{◌+◌, String, ◌≡◌, arith}
use decentrarent.Prelude.Dict.{sum_values-insert}
use decentrarent.Chat.{ChatState, unread_of, increment_unread, clear_unread}
use decentrarent.Navigation.{total_unread}

-- The total of the bar goes up by one with a message that is counted as unread in some conversation,
-- and down by a conversation's count when that count is cleared.
pub total_unread-counts :
    (id : String) (s : ChatState)
    → (total_unread (increment_unread id s) ≡ total_unread s + 1)
      × (total_unread (clear_unread id s) + unread_of id s ≡ total_unread s)
unfolding total_unread increment_unread clear_unread
total_unread-counts id s = (
  omega (arith, sum_values-insert id (unread_of id s + 1) s.unread_counts),
  omega (arith, sum_values-insert id 0 s.unread_counts),
)
