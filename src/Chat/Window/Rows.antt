-- ===== src/Chat/Window/Rows.antt =====
-- The rows of an expanded group and its header tell the same.
use decentrarent.Prelude.{ℕ, String, true, false, List, [], ◌∷◌, ◌≡◌, refl, sym, ◌∙◌, arith, length}
use decentrarent.Prelude.Dict.{Dict}
use decentrarent.Properties.{Property}
use decentrarent.Chat.{Conversation, ChatState, unread_of}
use decentrarent.Chat.Window.{Window, PropertyGroup, sum_by, is_swiped}
use decentrarent.Chat.Window.Groups.{GroupIsValid}
use decentrarent.Chat.Window.Header.{is_one, conversation_row, rows_of, group_row, expanded_rows}

rows-unread :
    (me : String) (cache : Dict String) (w : Window) (s : ChatState) (cs : List Conversation)
    → sum_by (λ r. r.unread) (rows_of me cache w s cs) ≡ sum_by (λ c. unread_of c.id s) cs
unfolding conversation_row
rows-unread me cache w s [] = refl
rows-unread me cache w s (c ∷ cs) = omega (arith, rows-unread me cache w s cs)

length-rows_of :
    (me : String) (cache : Dict String) (w : Window) (s : ChatState) (cs : List Conversation)
    → length (rows_of me cache w s cs) ≡ length cs
length-rows_of me cache w s [] = refl
length-rows_of me cache w s (c ∷ cs) = omega (arith, length-rows_of me cache w s cs)

-- A group of more than one conversation that is expanded shows a row for each of them, and the badge
-- of its header is the sum of the badges of the rows.
pub expanded_rows-unread :
    (time_of : String → ℕ) (properties : Dict Property) (show : ℕ → String) (me : String)
    (cache : Dict String) (w : Window) (s : ChatState) (g : PropertyGroup)
    → GroupIsValid time_of properties s g
    → is_swiped g.property_id w.expanded_group ≡ true
    → is_one g.conversations ≡ false
    → (length (expanded_rows me cache w s g) ≡ length g.conversations)
      × (sum_by (λ r. r.unread) (expanded_rows me cache w s g) ≡ (group_row show w g).unread)
unfolding expanded_rows group_row
expanded_rows-unread time_of properties show me cache w s g v expanded many =
    rw (expanded, many)
      (
        length-rows_of me cache w s g.conversations,
        rows-unread me cache w s g.conversations ∙ sym v.unread,
      )
