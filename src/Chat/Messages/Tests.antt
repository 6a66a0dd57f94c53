-- ===== src/Chat/Messages/Tests.antt =====
-- The list of messages at concrete inputs.
use decentrarent.Prelude.{
  String, true, none, some, List, [], ◌∷◌, ◌++◌, ◌≡◌, refl, map, length, trim,
}
use decentrarent.Prelude.Outcome.{ok}
use decentrarent.Prelude.Dict.{lookup}
use decentrarent.Chat.{
  Message, MessageType, text, system, ChatState, initial_chat, messages_of, on_older_messages,
}
use decentrarent.Chat.Messages.{message_list, scroll_effect, handle_scroll, handle_submit}
use decentrarent.Chat.Messages.Shown.{bubble_of, message_list-typed}
use decentrarent.Chat.Messages.Paging.{two_scrolls-double}

abbrev note : MessageType → String → Message
note type id = record {
  id = id;
  conversation_id = "c1";
  sender_id = "u1";
  content = "hello";
  message_type = some type;
  metadata = none;
  created_at = "1";
}

abbrev log : List Message
log = note system "m1" ∷ note system "m2" ∷ note text "m3" ∷ []

message_list-typed_example : message_list "u2" (λ t. some 5) log ≡ map (bubble_of "u2") log
message_list-typed_example = message_list-typed "u2" (λ t. some 5) log

abbrev loaded_once : ChatState
loaded_once = record initial_chat { messages = ("c1", note text "m9" ∷ []) ∷ [] }

two_scrolls-double_run :
    let m = note text "m8" in
    let t = (on_older_messages "c1" (ok (m ∷ [])) loaded_once).0 in
    let u = (on_older_messages "c1" (ok (m ∷ [])) t).0 in
    (handle_scroll (some 0) (messages_of "c1" loaded_once) ≡ true)
    × (messages_of "c1" u ≡ (m ∷ []) ++ ((m ∷ []) ++ messages_of "c1" loaded_once))
    × ((scroll_effect (messages_of "c1" t) (length (messages_of "c1" loaded_once))).0 ≡ true)
unfolding lookup
two_scrolls-double_run =
    two_scrolls-double "c1" (note text "m9") (note text "m8") [] [] loaded_once refl

submitted : (handle_submit " hi " ≡ ("", some "hi")) × (handle_submit "  " ≡ ("  ", none))
unfolding handle_submit trim
submitted = (refl, refl)
