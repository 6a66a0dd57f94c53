-- ===== src/Chat/Window.antt =====
-- frontend/src/features/chat/components/ChatWindow.tsx: the conversation that is open and its
-- handlers, the list of conversations grouped by property, and the relative times. `time_of` is
-- `new Date(·).getTime()` of a date that the server gives.
pub mod Unread
pub mod Sorting
pub mod Groups
pub mod Ago
pub mod Caches
pub mod Search
pub mod Panels
pub mod Loaded
pub mod Overtaken
pub mod Photos
pub mod Header
pub mod Rows
pub mod Finding
pub mod Fetching
pub mod Settling
mod Tests
use decentrarent.Prelude.{
  ℕ, ◌+◌, String, ◌<>◌, Bool, true, false, Option, none, some, List, [], ◌∷◌, ◌++◌, ◌==◌, map,
  foldl, find, default, if◌then◌else◌, leb, truthy,
}
use decentrarent.Prelude.Outcome.{Result, ok, threw}
use decentrarent.Prelude.Dict.{Dict, lookup, insert}
use decentrarent.Chat.{
  Conversation, Message, ChatState, unread_of, set_active_conversation, clear_unread,
  on_publication,
}
use decentrarent.Properties.{Property}

-- The local state that the handlers change.
pub record Window : Type 0 where
  pub selected_conversation : Option Conversation
  pub swiped_conv_id : Option String
  pub show_orders_panel : Bool
  pub expanded_group : Option String

unfoldable pub initial_window : Window
initial_window = record {
  selected_conversation = none;
  swiped_conv_id = none;
  show_orders_panel = false;
  expanded_group = none;
}

-- `handleSelectConversation`
unfoldable pub select_conversation : Conversation → Window × ChatState → Window × ChatState
select_conversation conv (w, s) = (
  record w { selected_conversation = some conv },
  clear_unread conv.id (set_active_conversation (some conv.id) s),
)

-- The effect on a conversation that the location brings; the list is then asked for again.
unfoldable pub open_located : Option Conversation → Window × ChatState → Window × ChatState
unfolding select_conversation
open_located none ws = ws
open_located (some conv) ws = select_conversation conv ws

-- The arrow back to the list.
unfoldable pub back : Window → Window
back w = record w { selected_conversation = none; show_orders_panel = false }

-- The touch on a conversation of an expanded group, by where it starts and ends in whole pixels; and
-- the click.
unfoldable pub touch_end : String → ℕ → ℕ → Window → Window
touch_end id start_x end_x w =
    if leb (end_x + 61) start_x
    then record w { swiped_conv_id = some id }
    else if leb (start_x + 31) end_x
    then record w { swiped_conv_id = none }
    else w

abbrev pub is_swiped : String → Option String → Bool
is_swiped id none = false
is_swiped id (some other) = other == id

unfoldable pub conversation_click : Conversation → Window × ChatState → Window × ChatState
unfolding select_conversation
conversation_click conv (w, s) =
    if is_swiped conv.id w.swiped_conv_id
    then (record w { swiped_conv_id = none }, s)
    else select_conversation conv (w, s)

-- The click on a group's header: a group of one conversation is that conversation, a larger one is
-- opened or shut.
unfoldable pub group_click : String → List Conversation → Window × ChatState → Window × ChatState
unfolding conversation_click
group_click id [] ws = ws
group_click id (c ∷ []) ws = conversation_click c ws
group_click id (c ∷ d ∷ cs) (w, s) =
    (record w { expanded_group = if is_swiped id w.expanded_group then none else some id }, s)

-- `handleDeleteConversation` after its request: what throws is dropped.
unfoldable pub end_delete : {A : Type 0} → Result A → Window → Window
end_delete (ok _) w = record w { swiped_conv_id = none }
end_delete (threw e) w = w

-- `activeConv`
abbrev pub found_conv :
    Option Conversation → Option String → List Conversation → Option Conversation
found_conv (some conv) active convs = some conv
found_conv none none convs = none
found_conv none (some id) convs = find (λ c. c.id == id) convs

unfoldable pub active_conv : Window → ChatState → Option Conversation
active_conv w s = found_conv w.selected_conversation s.active_conversation_id s.conversations

unfoldable pub channel : Option Conversation → Option String
channel none = none
channel (some c) = some ("property:" <> (c.property_id <> (":chat:" <> c.loaner_id)))

-- A publication on the channel that `useChat` is subscribed to.
abbrev pub delivered : Option Conversation → Message → ChatState → ChatState
delivered none msg s = s
delivered (some conv) msg s = on_publication conv.id s.active_conversation_id msg s

unfoldable pub publish : Window → Message → ChatState → ChatState
publish w msg s = delivered (active_conv w s) msg s

-- `list.sort((a, b) => key(b) - key(a))`, which keeps the order of what has the same key.
module _ {ℓ} {A : Type ℓ} (key : A → ℕ) where
  abbrev pub place : A → List A → List A
  place x [] = x ∷ []
  place x (y ∷ ys) = let rest = place x ys in if leb (key y) (key x) then x ∷ y ∷ ys else y ∷ rest

  abbrev pub newest_first : List A → List A
  newest_first [] = []
  newest_first (x ∷ xs) = place x (newest_first xs)

-- `convs.reduce((sum, c) => sum + weight(c), 0)`
abbrev pub sum_by {ℓ} : {A : Type ℓ} → (A → ℕ) → List A → ℕ
sum_by weight [] = 0
sum_by weight (x ∷ xs) = weight x + sum_by weight xs

pub record PropertyGroup : Type 0 where
  pub property_id : String
  pub property : Option Property
  pub conversations : List Conversation
  pub latest_message_at : Option String
  pub total_unread : ℕ

-- One round of the first loop of `groups`.
abbrev pub add_to_group : Dict (List Conversation) → Conversation → Dict (List Conversation)
add_to_group groups conv =
    insert conv.property_id (default (lookup conv.property_id groups) [] ++ conv ∷ []) groups

abbrev pub latest_of : List Conversation → Option String
latest_of [] = none
latest_of (c ∷ cs) = c.last_message_at

module _ (time_of : String → ℕ) where
  -- `at ? new Date(at).getTime() : 0`
  abbrev pub time_or_zero : Option String → ℕ
  time_or_zero none = 0
  time_or_zero (some at) = if truthy at then time_of at else 0

  abbrev pub conv_time : Conversation → ℕ
  conv_time c = time_or_zero c.last_message_at

  abbrev pub group_time : PropertyGroup → ℕ
  group_time g = time_or_zero g.latest_message_at

  -- One round of the second loop.
  abbrev pub make_group : Dict Property → ChatState → String × List Conversation → PropertyGroup
  make_group cache s (id, convs) =
      let sorted = newest_first conv_time convs in
      record {
        property_id = id;
        property = lookup id cache;
        conversations = sorted;
        latest_message_at = latest_of sorted;
        total_unread = sum_by (λ c. unread_of c.id s) sorted;
      }

  -- `groups`
  unfoldable pub property_groups : Dict Property → ChatState → List PropertyGroup
  property_groups cache s =
      newest_first group_time (map (make_group cache s) (foldl add_to_group [] s.conversations))
