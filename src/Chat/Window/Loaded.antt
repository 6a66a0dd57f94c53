-- ===== src/Chat/Window/Loaded.antt =====
-- The property of the selected conversation in frontend/src/features/chat/components/ChatWindow.tsx:
-- its effect, and the answers of its requests, which come in any order.
use decentrarent.Prelude.{
  ◌<>◌, Bool, true, false, Option, none, some, List, [], ◌∷◌, ◌++◌, ◌==◌, if◌then◌else◌,
}
use decentrarent.Prelude.Outcome.{Result, ok, threw}
use decentrarent.Api.{ApiCall}
use decentrarent.Chat.{Conversation}
use decentrarent.Properties.{Property}

-- The state `property`, and the requests that the effect has made.
pub record Loaded : Type 0 where
  pub property : Option Property
  pub requests : List ApiCall

-- The property in the header: an error empties it, and it stays while no conversation is selected.
abbrev pub property_call : Conversation → ApiCall
property_call conv = record {
  path = "/properties/" <> conv.property_id;
  method = "GET";
  body = none;
  token = none;
}

unfoldable pub on_property : Result Property → Option Property
on_property (ok p) = some p
on_property (threw e) = none

-- `selectedConversation?.property_id`, before and after a change.
abbrev pub is_same_property : Option Conversation → Option Conversation → Bool
is_same_property none none = true
is_same_property (some c) (some d) = c.property_id == d.property_id
is_same_property _ _ = false

abbrev pub ask_property : Option Conversation → Loaded → Loaded
ask_property none l = l
ask_property (some c) l = record l { requests = l.requests ++ property_call c ∷ [] }

-- The effect, when the selected conversation changes from one to another.
unfoldable pub property_effect : Option Conversation → Option Conversation → Loaded → Loaded
property_effect before now l = if is_same_property before now then l else ask_property now l

-- An answer, of whichever request: nothing cancels one that is out.
unfoldable pub loaded_property : Result Property → Loaded → Loaded
unfolding on_property
loaded_property r l = record l { property = on_property r }
