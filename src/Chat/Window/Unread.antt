-- ===== src/Chat/Window/Unread.antt =====
-- What becomes of the unread counts while the window is used.
use decentrarent.Prelude.{
  String, Option, none, some, List, [], ◌∷◌, ◌==◌, ◌≡◌, refl, arith, find, eq_iff, eq_refl,
  Bool-cases, inl, inr, ◌∙◌, ap, sym,
}
use mathlib.Core.Option.{some-injective}
use decentrarent.Prelude.Outcome.{Result, ok, threw}
use decentrarent.Prelude.Dict.{lookup, lookup-insert}
use decentrarent.Chat.{
  Conversation, Message, ChatState, initial_chat, unread_of, set_conversations,
  set_active_conversation, clear_unread, set_messages, on_publication, on_subscribed,
  on_initial_messages, on_older_messages, prepend_messages,
}
use decentrarent.Chat.Live.{on_publication_routes}
use decentrarent.Chat.Window.{
  Window, initial_window, select_conversation, open_located, back, found_conv, active_conv,
  delivered, publish,
}

-- What the window, the broker and the REST API may do. `left` is the page being left and opened again:
-- the store stays, the window is new.
pub data Step : Window × ChatState → Window × ChatState → Type 0 where
  selected : (c : Conversation) (ws : Window × ChatState) → Step ws (select_conversation c ws)
  located : (o : Option Conversation) (ws : Window × ChatState) → Step ws (open_located o ws)
  went_back : (ws : Window × ChatState) → Step ws (back ws.0, ws.1)
  left : (ws : Window × ChatState) → Step ws (initial_window, ws.1)
  listed :
      (cs : List Conversation) (ws : Window × ChatState) → Step ws (ws.0, set_conversations cs ws.1)
  published : (msg : Message) (ws : Window × ChatState) → Step ws (ws.0, publish ws.0 msg ws.1)
  subscribed :
      (id : String) (history : Option (List Message)) (ws : Window × ChatState)
      → Step ws (ws.0, on_subscribed id history ws.1)
  loaded :
      (id : String) (r : Result (List Message)) (ws : Window × ChatState)
      → Step ws (ws.0, on_initial_messages id r ws.1)
  loaded_more :
      (id : String) (r : Result (List Message)) (ws : Window × ChatState)
      → Step ws (ws.0, (on_older_messages id r ws.1).0)

pub data Reach : Window × ChatState → Type 0 where
  start : Reach (initial_window, initial_chat)
  next : {a b : Window × ChatState} → Reach a → Step a b → Reach b

abbrev id_of : Conversation → String
id_of c = c.id

-- A conversation that is open is the active one, and nothing is unread.
abbrev pub SelectedIs : Option Conversation → Option String → Type 0
SelectedIs none active = Unit
SelectedIs (some c) active = active ≡ some c.id

pub record IsRead (w : Window) (s : ChatState) : Type 0 where
  pub follows : SelectedIs w.selected_conversation s.active_conversation_id
  pub silent : (id : String) → unread_of id s ≡ 0

found_active :
    (id : String) (cs : List Conversation) (c : Conversation)
    → find (λ d. d.id == id) cs ≡ some c
    → c.id ≡ id
found_active id [] c h = absurd (ground arith)
found_active id (d ∷ cs) c h = elim (Bool-cases (d.id == id)) [
  | inl here ↦ ap id_of (sym (some-injective _ _ (rw here at h))) ∙ (eq_iff d.id id).0 here
  | inr there ↦ found_active id cs c (rw there at h)
]

-- The conversation that messages come for is always the one that counts as active.
found-active :
    (sel : Option Conversation) (active : Option String) (cs : List Conversation) (c : Conversation)
    → SelectedIs sel active
    → found_conv sel active cs ≡ some c
    → active ≡ some c.id
found-active (some d) active cs c h e = h ∙ ap (λ x. some (id_of x)) (some-injective _ _ e)
found-active none none cs c h e = absurd (ground arith)
found-active none (some id) cs c h e = ap some (sym (found_active id cs c e))

publication_silent :
    (c : Conversation) (msg : Message) (active : Option String) (s : ChatState) (j : String)
    → active ≡ some c.id
    → unread_of j (on_publication c.id active msg s) ≡ unread_of j s
publication_silent c msg active s j e =
    rw e ((on_publication_routes c.id j (some c.id) msg s).1 ∙ rw (eq_refl c.id) refl)

selected-IsRead :
    (c : Conversation) (ws : Window × ChatState)
    → IsRead ws.0 ws.1
    → IsRead (select_conversation c ws).0 (select_conversation c ws).1
unfolding select_conversation clear_unread set_active_conversation
selected-IsRead c (w, s) r = record {
  follows = refl;
  silent = λ j. ground (arith, r.silent j, eq_iff c.id j, lookup-insert c.id j 0 s.unread_counts);
}

published-IsRead :
    (msg : Message) (w : Window) (s : ChatState) → IsRead w s → IsRead w (publish w msg s)
unfolding publish active_conv
published-IsRead msg w s r =
    after (found_conv w.selected_conversation s.active_conversation_id s.conversations) refl
  where
    after :
        (o : Option Conversation)
        → found_conv w.selected_conversation s.active_conversation_id s.conversations ≡ o
        → IsRead w (delivered o msg s)
    after none e = r
    after (some c) e =
        let same =
          found-active w.selected_conversation s.active_conversation_id s.conversations c r.follows
            e in
        record {
          follows =
              rw ((on_publication_routes c.id c.id s.active_conversation_id msg s).3) r.follows;
          silent = λ j. publication_silent c msg s.active_conversation_id s j same ∙ r.silent j;
        }

older-IsRead :
    (id : String) (r : Result (List Message)) (w : Window) (s : ChatState)
    → IsRead w s
    → IsRead w (on_older_messages id r s).0
unfolding on_older_messages prepend_messages
older-IsRead id (threw e) w s h = h
older-IsRead id (ok []) w s h = h
older-IsRead id (ok (m ∷ ms)) w s h = record { follows = h.follows; silent = h.silent }

loaded-IsRead :
    (id : String) (r : Result (List Message)) (w : Window) (s : ChatState)
    → IsRead w s
    → IsRead w (on_initial_messages id r s)
unfolding on_initial_messages set_messages
loaded-IsRead id (threw e) w s h = h
loaded-IsRead id (ok []) w s h = h
loaded-IsRead id (ok (m ∷ ms)) w s h = record { follows = h.follows; silent = h.silent }

subscribed-IsRead :
    (id : String) (history : Option (List Message)) (w : Window) (s : ChatState)
    → IsRead w s
    → IsRead w (on_subscribed id history s)
unfolding on_subscribed set_messages
subscribed-IsRead id none w s h = h
subscribed-IsRead id (some []) w s h = h
subscribed-IsRead id (some (m ∷ ms)) w s h = record { follows = h.follows; silent = h.silent }

Step-IsRead : {a b : Window × ChatState} → Step a b → IsRead a.0 a.1 → IsRead b.0 b.1
unfolding open_located back initial_window set_conversations
Step-IsRead (selected c ws) r = selected-IsRead c ws r
Step-IsRead (located none ws) r = r
Step-IsRead (located (some c) ws) r = selected-IsRead c ws r
Step-IsRead (went_back ws) r = record { follows = tt; silent = r.silent }
Step-IsRead (left ws) r = record { follows = tt; silent = r.silent }
Step-IsRead (listed cs ws) r = record { follows = r.follows; silent = r.silent }
Step-IsRead (published msg ws) r = published-IsRead msg ws.0 ws.1 r
Step-IsRead (subscribed id history ws) r = subscribed-IsRead id history ws.0 ws.1 r
Step-IsRead (loaded id result ws) r = loaded-IsRead id result ws.0 ws.1 r
Step-IsRead (loaded_more id result ws) r = older-IsRead id result ws.0 ws.1 r

-- No run of clicks, publications and answers, the way back to the list among them, ever leaves a
-- conversation with an unread message.
pub never_unread : {a : Window × ChatState} → Reach a → (id : String) → unread_of id a.1 ≡ 0
unfolding initial_window initial_chat lookup
never_unread r id = (read r).silent id
  where
    read : {a : Window × ChatState} → Reach a → IsRead a.0 a.1
    read start = record { follows = tt; silent = λ id. refl }
    read (next r st) = Step-IsRead st (read r)
