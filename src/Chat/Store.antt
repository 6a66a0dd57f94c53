-- ===== src/Chat/Store.antt =====
-- The store of frontend/src/features/chat/store.ts: its state and its eight actions. The objects
-- `messages` and `unreadCounts` are dictionaries in the order of insertion.
use decentrarent.Prelude.{
  ℕ, ◌+◌, String, Option, none, some, List, [], ◌∷◌, ◌++◌, map, ◌==◌, if◌then◌else◌, default,
}
use decentrarent.Prelude.Dict.{Dict, lookup, insert}
use decentrarent.Chat.Types.{Conversation, Message}

pub record ChatState : Type 0 where
  pub conversations : List Conversation
  pub active_conversation_id : Option String
  pub messages : Dict (List Message)
  pub unread_counts : Dict ℕ

unfoldable pub initial_chat : ChatState
initial_chat = record {
  conversations = [];
  active_conversation_id = none;
  messages = [];
  unread_counts = [];
}

-- `state.messages[id] || []` and `state.unreadCounts[id] || 0`
abbrev pub messages_of : String → ChatState → List Message
messages_of id s = default (lookup id s.messages) []

abbrev pub unread_of : String → ChatState → ℕ
unread_of id s = default (lookup id s.unread_counts) 0

unfoldable pub set_conversations : List Conversation → ChatState → ChatState
set_conversations convs s = record s { conversations = convs }

unfoldable pub set_active_conversation : Option String → ChatState → ChatState
set_active_conversation id s = record s { active_conversation_id = id }

unfoldable pub set_messages : String → List Message → ChatState → ChatState
set_messages id msgs s = record s { messages = insert id msgs s.messages }

unfoldable pub add_message : String → Message → ChatState → ChatState
add_message id msg s = record s { messages = insert id (messages_of id s ++ msg ∷ []) s.messages }

unfoldable pub prepend_messages : String → List Message → ChatState → ChatState
prepend_messages id msgs s = record s { messages = insert id (msgs ++ messages_of id s) s.messages }

unfoldable pub increment_unread : String → ChatState → ChatState
increment_unread id s = record s { unread_counts = insert id (unread_of id s + 1) s.unread_counts }

unfoldable pub clear_unread : String → ChatState → ChatState
clear_unread id s = record s { unread_counts = insert id 0 s.unread_counts }

-- The callback of `conversations.map` in `updateConversationLastMessage`.
abbrev pub with_last_message : String → String → String → Conversation → Conversation
with_last_message id content timestamp c =
    if c.id == id
    then record c { last_message = some content; last_message_at = some timestamp }
    else c

unfoldable pub update_conversation_last_message : String → String → String → ChatState → ChatState
update_conversation_last_message id content timestamp s = record s {
  conversations = map (with_last_message id content timestamp) s.conversations;
}
