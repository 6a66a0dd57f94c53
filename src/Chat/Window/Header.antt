-- ===== src/Chat/Window/Header.antt =====
-- The texts of frontend/src/features/chat/components/ChatWindow.tsx: the header of the selected
-- conversation, and the rows of the list. A price is printed by `print`.
use decentrarent.Prelude.{
  ℕ, String, ◌<>◌, Bool, true, false, not, ◌&&◌, Option, none, some, List, [], ◌∷◌, ◌==◌,
  if◌then◌else◌, or_text, length,
}
use decentrarent.Prelude.Slices.{head_slice, short_wallet}
use decentrarent.Prelude.Dict.{Dict}
use decentrarent.Chat.{Conversation, ChatState, unread_of}
use decentrarent.Chat.Window.{Window, PropertyGroup, is_swiped}
use decentrarent.Chat.Window.Caches.{get_user_name}
use decentrarent.Chat.Window.Search.{other_id}
use decentrarent.Properties.{Property}

abbrev pub title_or : Option Property → String → String
title_or none fallback = fallback
title_or (some p) fallback = or_text p.title fallback

unfoldable pub header_title : Option Property → Conversation → String
header_title property c = title_or property ("Property: " <> (head_slice 8 c.property_id <> "..."))

abbrev pub header_price : (ℕ → String → String) → Option Property → String
header_price print none = ""
header_price print (some p) =
    print p.price p.token_mint <> (" " <> (p.token_mint <> ("/" <> (p.period_type <> " • "))))

-- `isLandlord` decides whose wallet is named, and as what.
unfoldable pub header_party : String → Conversation → String
header_party me c =
    if c.landlord_id == me
    then "Loaner: " <> short_wallet c.loaner_id
    else "Landlord: " <> short_wallet c.landlord_id

unfoldable pub header_line :
    (ℕ → String → String) → String → Option Property → Conversation → String
unfolding header_party
header_line print me property c = header_price print property <> header_party me c

-- A group's header: its title, the line below, the arrow, and what a swipe of a single one shows.
pub record GroupRow : Type 0 where
  pub title : String
  pub line : String
  pub unread : ℕ
  pub is_single : Bool
  pub is_expanded : Bool
  pub offers_delete : Bool

abbrev pub message_or : Option String → String → String
message_or none fallback = fallback
message_or (some m) fallback = or_text m fallback

abbrev pub group_line : (ℕ → String) → List Conversation → String
group_line show (c ∷ []) = message_or c.last_message "No messages yet"
group_line show cs = show (length cs) <> " conversations"

abbrev pub single_id : List Conversation → Option String
single_id (c ∷ []) = some c.id
single_id _ = none

abbrev pub single_swiped : Option String → Option String → Bool
single_swiped none swiped = false
single_swiped (some id) swiped = is_swiped id swiped

abbrev pub is_one : List Conversation → Bool
is_one (c ∷ []) = true
is_one _ = false

unfoldable pub group_row : (ℕ → String) → Window → PropertyGroup → GroupRow
group_row show w g = record {
  title = title_or g.property ("Property " <> (head_slice 8 g.property_id <> "..."));
  line = group_line show g.conversations;
  unread = g.total_unread;
  is_single = is_one g.conversations;
  is_expanded = is_swiped g.property_id w.expanded_group;
  offers_delete = single_swiped (single_id g.conversations) w.swiped_conv_id;
}

-- A conversation of an expanded group.
pub record ConversationRow : Type 0 where
  pub name : String
  pub unread : ℕ
  pub last_message : Option String
  pub offers_delete : Bool

unfoldable pub conversation_row :
    String → Dict String → Window → ChatState → Conversation → ConversationRow
conversation_row me cache w s c = record {
  name = get_user_name cache (other_id me c);
  unread = unread_of c.id s;
  last_message = c.last_message;
  offers_delete = is_swiped c.id w.swiped_conv_id;
}

abbrev pub rows_of :
    String → Dict String → Window → ChatState → List Conversation → List ConversationRow
rows_of me cache w s [] = []
rows_of me cache w s (c ∷ cs) = conversation_row me cache w s c ∷ rows_of me cache w s cs

-- The rows below a group's header: none unless it is expanded and has more than one.
unfoldable pub expanded_rows :
    String → Dict String → Window → ChatState → PropertyGroup → List ConversationRow
unfolding conversation_row
expanded_rows me cache w s g =
    if is_swiped g.property_id w.expanded_group && not (is_one g.conversations)
    then rows_of me cache w s g.conversations
    else []
