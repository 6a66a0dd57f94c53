-- ===== src/Chat/Hook.antt =====
-- The handlers of frontend/src/features/chat/hooks/useChat.ts and of useConversations.ts. What the
-- hook's closure captured (the conversation, the token, the active conversation) is an argument;
-- what `apiFetch` and the subscription deliver is an argument too.
use decentrarent.Prelude.{
  String, ◌<>◌, Bool, false, ◌&&◌, Option, none, some, List, [], ◌∷◌, ◌==◌, ℕ, if◌then◌else◌,
  truthy, present, length, eqb,
}
use decentrarent.Prelude.Outcome.{Result, ok, threw}
use decentrarent.Chat.Types.{Conversation, Message}
use decentrarent.Chat.Store.{
  ChatState, messages_of, set_conversations, set_messages, add_message, prepend_messages,
  increment_unread, update_conversation_last_message,
}

abbrev pub is_some_text : Option String → String → Bool
is_some_text none id = false
is_some_text (some a) id = id == a

-- The subscription's `publication` handler; `active` is the captured `activeConversationId`.
unfoldable pub on_publication : String → Option String → Message → ChatState → ChatState
on_publication id active msg s =
    let routed = if is_some_text active id then add_message id msg s else increment_unread id s in
    update_conversation_last_message id msg.content msg.created_at routed

-- The `subscribed` handler, on `ctx.publications`.
unfoldable pub on_subscribed : String → Option (List Message) → ChatState → ChatState
on_subscribed id none s = s
on_subscribed id (some []) s = s
on_subscribed id (some (p ∷ ps)) s = set_messages id (p ∷ ps) s

pub record Request : Type 0 where
  pub path : String
  pub token : String

-- The second effect: the request that it sends, if any.
unfoldable pub initial_request : Option String → Option String → ChatState → Option Request
initial_request none token s = none
initial_request (some id) none s = none
initial_request (some id) (some token) s =
    if truthy id && truthy token && eqb (length (messages_of id s)) 0
    then some (record { path = "/conversations/" <> (id <> "/messages?limit=50"); token = token })
    else none

-- Its `.then`, run on the state at the time of the answer.
unfoldable pub on_initial_messages : String → Result (List Message) → ChatState → ChatState
on_initial_messages id (threw e) s = s
on_initial_messages id (ok []) s = s
on_initial_messages id (ok (m ∷ ms)) s = set_messages id (m ∷ ms) s

-- What `sendMessage` publishes: the channel and the content.
unfoldable pub send_message :
    Bool → Option String → Option String → String → Option (String × String)
send_message client none id content = none
send_message client (some channel) id content =
    if client && truthy channel && present id then some (channel, content) else none

-- `loadMore`: `older_request` is the part before its `await`, with `encode_uri` for
-- `encodeURIComponent`; `on_older_messages` the part after it.
module _ (encode_uri : String → String) where
  pub older_path : String → Message → String
  older_path id oldest =
      "/conversations/"
      <> (id <> ("/messages?before=" <> (encode_uri oldest.created_at <> "&limit=20")))

  older_from : String → String → List Message → Option Request
  unfolding older_path
  older_from id token [] = none
  older_from id token (oldest ∷ rest) = some (record { path = older_path id oldest; token = token })

  unfoldable pub older_request : Option String → Option String → ChatState → Option Request
  unfolding older_from
  older_request none token s = none
  older_request (some id) none s = none
  older_request (some id) (some token) s =
      if truthy id && truthy token then older_from id token (messages_of id s) else none

unfoldable pub on_older_messages : String → Result (List Message) → ChatState → ChatState × Result ℕ
on_older_messages id (threw e) s = (s, threw e)
on_older_messages id (ok []) s = (s, ok 0)
on_older_messages id (ok (m ∷ ms)) s = (prepend_messages id (m ∷ ms) s, ok (length (m ∷ ms)))

unfoldable pub current_messages : Option String → ChatState → List Message
current_messages none s = []
current_messages (some id) s = if truthy id then messages_of id s else []

-- `fetchConversations` of useConversations.ts, on what its request gives.
unfoldable pub fetch_conversations :
    Option String → Result (List Conversation) → ChatState → ChatState × Result (Unit {0})
fetch_conversations token (threw e) s = if present token then (s, threw e) else (s, ok tt)
fetch_conversations token (ok convs) s =
    if present token then (set_conversations convs s, ok tt) else (s, ok tt)
