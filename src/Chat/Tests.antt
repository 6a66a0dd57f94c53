-- ===== src/Chat/Tests.antt =====
-- The chat's theorems at concrete inputs.
use decentrarent.Prelude.{
  ℕ, String, Option, none, some, List, [], ◌∷◌, ◌++◌, map, foldl, ◌≡◌, ◌≢◌, refl, ◌==◌,
  if◌then◌else◌,
}
use decentrarent.Prelude.Outcome.{ok}
use decentrarent.Prelude.Dict.{lookup, insert}
use decentrarent.Chat.Types.{Conversation, Message, system}
use decentrarent.Chat.Store.{
  ChatState, initial_chat, messages_of, unread_of, with_last_message, increment_unread,
  update_conversation_last_message,
}
use decentrarent.Chat.Hook.{
  older_path, on_publication, on_initial_messages, older_request, on_older_messages,
  current_messages,
}
use decentrarent.Chat.Spec.{Op, apply, spec, view}
use decentrarent.Chat.Refine.{run_refines}
use decentrarent.Chat.Live.{
  on_publication_routes, stays_read, load_more_prepends, initial_answer_replaces,
}
use decentrarent.Chat.Grouping.{text_item, dog_group, is_dog_message, build_render_items}
use decentrarent.Chat.Grouping.Laws.{Grouped, contents, build_render_items-Grouped}

abbrev home : Conversation
home = record {
  id = "c1";
  property_id = "p1";
  landlord_id = "u1";
  loaner_id = "u2";
  last_message = none;
  last_message_at = none;
  created_at = "10";
}

abbrev hello : Message
hello = record {
  id = "m1";
  conversation_id = "c1";
  sender_id = "u2";
  content = "hello";
  message_type = none;
  metadata = none;
  created_at = "20";
}

abbrev notice : Message
notice = record hello { id = "m2"; message_type = some system }

abbrev one_chat : ChatState
one_chat = record {
  conversations = home ∷ [];
  active_conversation_id = some "c1";
  messages = ("c1", hello ∷ []) ∷ [];
  unread_counts = ("c2", 3) ∷ [];
}

publication_for_another :
    (unread_of "c2" (on_publication "c2" (some "c1") notice one_chat) ≡ 4)
    × (messages_of "c2" (on_publication "c2" (some "c1") notice one_chat) ≡ [])
unfolding on_publication increment_unread update_conversation_last_message lookup insert
publication_for_another = (refl, refl)

run_refines_example :
    let ops = Op.op_add_message "c1" notice ∷ Op.op_increment "c2" ∷ Op.op_clear "c2" ∷ [] in
    view (foldl (λ t op. apply op t) one_chat ops) ≡ foldl (λ a op. spec op a) (view one_chat) ops
run_refines_example =
    run_refines (Op.op_add_message "c1" notice ∷ Op.op_increment "c2" ∷ Op.op_clear "c2" ∷ [])
      one_chat

on_publication_routes_example :
    let t = on_publication "c1" (some "c1") notice one_chat in
    (messages_of "c1" t ≡ messages_of "c1" one_chat ++ notice ∷ [])
    × (unread_of "c1" t ≡ unread_of "c1" one_chat)
    × (t.conversations ≡ map (with_last_message "c1" "hello" "20") (home ∷ []))
    × (t.active_conversation_id ≡ some "c1")
on_publication_routes_example = on_publication_routes "c1" "c1" (some "c1") notice one_chat

stays_read_run :
    unread_of "c1" (
      foldl
        (λ t (p : String × Message). on_publication p.0 (some "c1") p.1 t)
        one_chat
        (("c1", notice) ∷ ("c2", hello) ∷ []))
    ≡ 0
stays_read_run =
    stays_read "c1" (("c1", notice) ∷ ("c2", hello) ∷ []) one_chat (unfold lookup in refl)

load_more_prepends_run :
    (older_request (λ s. s) (some "c1") (some "jwt") one_chat
      ≡ some (record { path = older_path (λ s. s) "c1" hello; token = "jwt" }))
    × (current_messages (some "c1") (on_older_messages "c1" (ok (notice ∷ [])) one_chat).0
        ≡ notice ∷ messages_of "c1" one_chat)
    × ((j : String)
        → "c1" ≢ j
        → messages_of j (on_older_messages "c1" (ok (notice ∷ [])) one_chat).0
          ≡ messages_of j one_chat)
    × ((on_older_messages "c1" (ok (notice ∷ [])) one_chat).1 ≡ ok 1)
load_more_prepends_run =
    load_more_prepends (λ s. s) "c1" "jwt" hello [] (notice ∷ []) one_chat one_chat refl refl
      (unfold lookup in refl)

initial_answer_replaces_run :
    messages_of "c1" (
      on_initial_messages "c1"
        (ok (hello ∷ []))
        (on_publication "c1" (some "c1") notice initial_chat))
    ≡ hello ∷ []
initial_answer_replaces_run = initial_answer_replaces "c1" notice hello [] initial_chat

abbrev clock : String → Option ℕ
clock s = if s == "20" then some 20 else some 90000

abbrev mixed : List Message
mixed = hello ∷ notice ∷ notice ∷ record notice { created_at = "30" } ∷ []

mixed_items :
    build_render_items clock mixed
    ≡ text_item hello
      ∷ dog_group (notice ∷ notice ∷ [])
      ∷ dog_group (record notice { created_at = "30" } ∷ [])
      ∷ []
unfolding build_render_items is_dog_message
mixed_items = refl

build_render_items-Grouped_example :
    Grouped clock (build_render_items clock mixed)
    × (contents (build_render_items clock mixed) ≡ mixed)
build_render_items-Grouped_example = build_render_items-Grouped clock mixed
