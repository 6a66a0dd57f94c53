-- ===== src/Chat/Messages/Paging.antt =====
-- The list of messages as it grows: the effect and the handler of MessageList.tsx on the state of the
-- chat, with `loadMore` of useChat.ts.
use decentrarent.Prelude.{
  String, true, some, List, [], ◌∷◌, ◌++◌, ◌≡◌, ap, ◌∙◌, length, length-append, arith, default,
}
use decentrarent.Prelude.Outcome.{ok}
use decentrarent.Prelude.Dict.{lookup-insert_self}
use decentrarent.Chat.{Message, ChatState, messages_of, prepend_messages, on_older_messages}
use decentrarent.Chat.Messages.{scroll_effect, handle_scroll}

older_log :
    (id : String) (m : Message) (ms : List Message) (s : ChatState)
    → messages_of id (on_older_messages id (ok (m ∷ ms)) s).0 ≡ (m ∷ ms) ++ messages_of id s
unfolding on_older_messages prepend_messages
older_log id m ms s =
    ap (λ o. default o []) (lookup-insert_self id ((m ∷ ms) ++ messages_of id s) s.messages)

-- A scroll to the top of a loaded conversation asks for older messages, also while they are asked for
-- already; once the same answer has come twice, the older messages stand twice in front. And when
-- they come the first time, the list scrolls to its bottom, as for a new message.
pub two_scrolls-double :
    (id : String) (oldest m : Message) (rest ms : List Message) (s : ChatState)
    → messages_of id s ≡ oldest ∷ rest
    → let loaded = (on_older_messages id (ok (m ∷ ms)) s).0 in
      let again = (on_older_messages id (ok (m ∷ ms)) loaded).0 in
      (handle_scroll (some 0) (messages_of id s) ≡ true)
      × (messages_of id again ≡ (m ∷ ms) ++ ((m ∷ ms) ++ messages_of id s))
      × ((scroll_effect (messages_of id loaded) (length (messages_of id s))).0 ≡ true)
unfolding handle_scroll scroll_effect
two_scrolls-double id oldest m rest ms s e =
    let loaded : ChatState = (on_older_messages id (ok (m ∷ ms)) s).0 in
    (
      rw e (ground arith),
      older_log id m ms loaded ∙ ap (λ r. (m ∷ ms) ++ r) (older_log id m ms s),
      rw (older_log id m ms s) (ground (arith, length-append ms (messages_of id s))),
    )
