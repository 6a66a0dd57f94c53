-- ===== src/Chat/Spec.antt =====
-- The store's contract, without representation: for each conversation its messages and its unread
-- count, as functions of the id.
use decentrarent.Prelude.{ℕ, ◌+◌, String, Option, List, [], ◌∷◌, ◌++◌, map, ◌==◌, if◌then◌else◌}
use decentrarent.Chat.Types.{Conversation, Message}
use decentrarent.Chat.Store.{
  ChatState, messages_of, unread_of, with_last_message, set_conversations, set_active_conversation,
  set_messages, add_message, prepend_messages, increment_unread, clear_unread,
  update_conversation_last_message,
}

pub record Abstract : Type 0 where
  pub listed : List Conversation
  pub active : Option String
  pub log : String → List Message
  pub unread : String → ℕ

abbrev pub view : ChatState → Abstract
view s = record {
  listed = s.conversations;
  active = s.active_conversation_id;
  log = λ id. messages_of id s;
  unread = λ id. unread_of id s;
}

-- The calls that a client makes.
pub data Op : Type 0 where
  op_set_conversations : List Conversation → Op
  op_set_active : Option String → Op
  op_set_messages : String → List Message → Op
  op_add_message : String → Message → Op
  op_prepend : String → List Message → Op
  op_increment : String → Op
  op_clear : String → Op
  op_last_message : String → String → String → Op

unfoldable pub apply : Op → ChatState → ChatState
apply (op_set_conversations cs) s = set_conversations cs s
apply (op_set_active id) s = set_active_conversation id s
apply (op_set_messages id ms) s = set_messages id ms s
apply (op_add_message id m) s = add_message id m s
apply (op_prepend id ms) s = prepend_messages id ms s
apply (op_increment id) s = increment_unread id s
apply (op_clear id) s = clear_unread id s
apply (op_last_message id c t) s = update_conversation_last_message id c t s

-- A function changed at one id.
abbrev pub at {ℓ} : {A : Type ℓ} → String → A → (String → A) → String → A
at id v f j = if id == j then v else f j

abbrev pub spec : Op → Abstract → Abstract
spec (op_set_conversations cs) a = record a { listed = cs }
spec (op_set_active id) a = record a { active = id }
spec (op_set_messages id ms) a = record a { log = at id ms a.log }
spec (op_add_message id m) a = record a { log = at id (a.log id ++ m ∷ []) a.log }
spec (op_prepend id ms) a = record a { log = at id (ms ++ a.log id) a.log }
spec (op_increment id) a = record a { unread = at id (a.unread id + 1) a.unread }
spec (op_clear id) a = record a { unread = at id 0 a.unread }
spec (op_last_message id c t) a = record a { listed = map (with_last_message id c t) a.listed }
