-- ===== src/Chat/Window/Search.antt =====
-- `filteredGroups` of frontend/src/features/chat/components/ChatWindow.tsx. `lower` is
-- `text.toLowerCase()`.
use decentrarent.Prelude.{
  String, Bool, false, ◌||◌, Option, none, some, List, ◌==◌, any, filter, default, if◌then◌else◌,
  truthy, trim,
}
use decentrarent.Prelude.Slices.{has_text}
use decentrarent.Prelude.Dict.{Dict, lookup}
use decentrarent.Chat.{Conversation}
use decentrarent.Chat.Window.{PropertyGroup}
use decentrarent.Properties.{Property}

-- `conv.landlord_id === currentUserId` decides whose name is shown.
abbrev pub other_id : String → Conversation → String
other_id me c = if c.landlord_id == me then c.loaner_id else c.landlord_id

module _ (lower : String → String) where
  -- `text.toLowerCase().includes(q)`
  abbrev pub mentions : String → String → Bool
  mentions q t = has_text q (lower t)

  abbrev pub prop_match : String → Option Property → Bool
  prop_match q none = false
  prop_match q (some p) = mentions q p.title || mentions q p.location

  abbrev pub msg_match : String → Option String → Bool
  msg_match q none = false
  msg_match q (some t) = mentions q t

  abbrev pub user_match : String → Dict String → String → Conversation → Bool
  user_match me cache q c = mentions q (default (lookup (other_id me c) cache) "")

  abbrev pub is_match : String → Dict String → String → PropertyGroup → Bool
  is_match me cache q g =
      prop_match q g.property
      || any (λ c. msg_match q c.last_message) g.conversations
      || any (user_match me cache q) g.conversations

  unfoldable pub filtered_groups :
      String → Dict String → String → List PropertyGroup → List PropertyGroup
  filtered_groups me cache query groups =
      if truthy (trim query) then filter (is_match me cache (lower query)) groups else groups
