-- ===== src/Chat/Live.antt =====
-- What the subscription's events and the answers of the REST API do to the store.
use decentrarent.Prelude.{
  ◌+◌, String, ◌&&◌, not, Option, none, some, List, [], ◌∷◌, ◌++◌, map, ◌≡◌, refl, arith, ◌==◌,
  eq_iff, if◌then◌else◌, truthy, length, foldl, ◌≢◌, true,
}
use decentrarent.Prelude.Outcome.{ok}
use decentrarent.Prelude.Dict.{lookup-insert, lookup-insert_self}
use decentrarent.Chat.Types.{Message}
use decentrarent.Chat.Store.{
  ChatState, messages_of, unread_of, with_last_message, set_messages, add_message, prepend_messages,
  increment_unread, update_conversation_last_message,
}
use decentrarent.Chat.Hook.{
  is_some_text, older_path, on_publication, on_initial_messages, older_request, on_older_messages,
  current_messages,
}

-- A publication for the active conversation is put last in its messages and counts as read; one
-- for another conversation raises that conversation's unread count by one and touches no messages;
-- in both cases the last message of the conversations with that id, and of no other, becomes its
-- content and time, and the active conversation stays.
pub on_publication_routes :
    (id j : String) (active : Option String) (msg : Message) (s : ChatState)
    → let t = on_publication id active msg s in
      (messages_of j t ≡ (
        if is_some_text active id && id == j then messages_of j s ++ msg ∷ [] else messages_of j s))
      × (unread_of j t
          ≡ (if not (is_some_text active id) && id == j then unread_of j s + 1 else unread_of j s))
      × (t.conversations ≡ map (with_last_message id msg.content msg.created_at) s.conversations)
      × (t.active_conversation_id ≡ s.active_conversation_id)
unfolding on_publication add_message increment_unread update_conversation_last_message
on_publication_routes id j none msg s = (
  refl,
  ground (arith, eq_iff id j, lookup-insert id j (unread_of id s + 1) s.unread_counts),
  refl,
  refl,
)
on_publication_routes id j (some a) msg s = (
  ground (
    arith,
    eq_iff id j,
    eq_iff id a,
    lookup-insert id j (messages_of id s ++ msg ∷ []) s.messages,
  ),
  ground (arith, eq_iff id j, eq_iff id a, lookup-insert id j (unread_of id s + 1) s.unread_counts),
  ground (arith, eq_iff id a),
  ground (arith, eq_iff id a),
)

-- While one conversation is the active one, no run of publications, for whatever conversations,
-- gives it an unread message once it has been opened.
pub stays_read :
    (id : String) (pubs : List (String × Message)) (s : ChatState)
    → unread_of id s ≡ 0
    → unread_of id (foldl (λ t p. on_publication p.0 (some id) p.1 t) s pubs) ≡ 0
stays_read id [] s h = h
stays_read id ((j, msg) ∷ pubs) s h =
    stays_read id pubs (on_publication j (some id) msg s)
      (ground (arith, eq_iff j id, (on_publication_routes j id (some id) msg s).1))

older_log :
    (id j : String) (ms : List Message) (t : ChatState)
    → messages_of j (on_older_messages id (ok ms) t).0
      ≡ (if id == j then ms ++ messages_of id t else messages_of j t)
unfolding on_older_messages prepend_messages
older_log id j [] t = ground (arith, eq_iff id j)
older_log id j (m ∷ ms) t =
    ground (arith, eq_iff id j, lookup-insert id j ((m ∷ ms) ++ messages_of id t) t.messages)

older_count :
    (id : String) (ms : List Message) (t : ChatState)
    → (on_older_messages id (ok ms) t).1 ≡ ok (length ms)
unfolding on_older_messages
older_count id [] t = refl
older_count id (m ∷ ms) t = refl

-- `loadMore` asks for what is older than the first message that is loaded, and puts the answer in
-- front of what is loaded then, also where other messages came in meanwhile; no other conversation
-- changes, and the result is the number of messages that came.
pub load_more_prepends :
    (encode_uri : String → String) (id token : String) (oldest : Message) (rest ms : List Message)
    (s t : ChatState)
    → truthy id ≡ true
    → truthy token ≡ true
    → messages_of id s ≡ oldest ∷ rest
    → (older_request encode_uri (some id) (some token) s
        ≡ some (record { path = older_path encode_uri id oldest; token = token }))
      × (current_messages (some id) (on_older_messages id (ok ms) t).0 ≡ ms ++ messages_of id t)
      × ((j : String) → id ≢ j → messages_of j (on_older_messages id (ok ms) t).0 ≡ messages_of j t)
      × ((on_older_messages id (ok ms) t).1 ≡ ok (length ms))
unfolding older_request current_messages
load_more_prepends enc id token oldest rest ms s t i k loaded = (
  rw (loaded, i, k) refl,
  ground (arith, eq_iff id id, older_log id id ms t),
  λ j ne. ground (arith, eq_iff id j, older_log id j ms t),
  older_count id ms t,
)

-- The first answer of the REST API replaces the messages of the conversation: a message that was
-- published while the request was out is shown only if the answer holds it.
pub initial_answer_replaces :
    (id : String) (msg m : Message) (ms : List Message) (s : ChatState)
    → messages_of id (on_initial_messages id (ok (m ∷ ms)) (on_publication id (some id) msg s))
      ≡ m ∷ ms
unfolding on_initial_messages set_messages
initial_answer_replaces id msg m ms s =
    ground (arith, lookup-insert_self id (m ∷ ms) (on_publication id (some id) msg s).messages)
