-- ===== src/Chat/Grouping.antt =====
-- `buildRenderItems` of frontend/src/features/chat/components/MessageList.tsx. `time_of` is
-- `new Date(·).getTime()` in milliseconds, `none` for NaN.
pub mod Laws
use decentrarent.Prelude.{
  ℕ, ◌-◌, String, Bool, true, false, not, ◌&&◌, Option, none, some, List, [], ◌∷◌, ◌++◌, foldl,
  default, if◌then◌else◌, ltb, leb,
}
use decentrarent.Chat.Types.{MessageType, text, system, modal, document, photo, Message}

pub data RenderItem : Type 0 where
  text_item : Message → RenderItem
  dog_group : List Message → RenderItem

abbrev pub is_dog_type : MessageType → Bool
is_dog_type system = true
is_dog_type modal = true
is_dog_type document = true
is_dog_type text = false
is_dog_type photo = false

-- `DOG_TYPES.has(msg.message_type || 'text')`
unfoldable pub is_dog_message : Message → Bool
is_dog_message msg = is_dog_type (default msg.message_type text)

abbrev pub group_gap_ms : ℕ
group_gap_ms = 60000

-- `Math.abs(b - a)`
abbrev pub distance : ℕ → ℕ → ℕ
distance a b = if leb a b then b - a else a - b

-- `Math.abs(thisTime - lastTime) > GROUP_GAP_MS`; a comparison with NaN is false.
abbrev pub gap_exceeded : Option ℕ → Option ℕ → Bool
gap_exceeded none b = false
gap_exceeded (some a) none = false
gap_exceeded (some a) (some b) = ltb group_gap_ms (distance a b)

abbrev pub last? {ℓ} : {A : Type ℓ} → List A → Option A
last? [] = none
last? (x ∷ []) = some x
last? (x ∷ y ∷ ys) = last? (y ∷ ys)

-- The two variables of the loop.
pub record Loop : Type 0 where
  pub items : List RenderItem
  pub current_group : List Message

abbrev flushed : List RenderItem → List Message → List RenderItem
flushed items [] = items
flushed items (m ∷ ms) = items ++ dog_group (m ∷ ms) ∷ []

unfoldable pub flush_group : Loop → Loop
flush_group l = record { items = flushed l.items l.current_group; current_group = [] }

-- `currentGroup.push(msg)`, and `items.push({ kind: 'text', msg })`.
push_group : Message → Loop → Loop
push_group msg l = record l { current_group = l.current_group ++ msg ∷ [] }

push_text : Message → Loop → Loop
push_text msg l = record l { items = l.items ++ text_item msg ∷ [] }

module _ (time_of : String → Option ℕ) where
  abbrev pub apart : Message → Message → Bool
  apart a b = gap_exceeded (time_of a.created_at) (time_of b.created_at)

  -- Whether the group is not empty and its last message is too far from this one.
  abbrev pub splits : Option Message → Message → Bool
  splits none msg = false
  splits (some last) msg = apart last msg

  unfoldable pub next_message : Loop → Message → Loop
  unfolding push_group push_text flush_group
  next_message l msg =
      if is_dog_message msg
      then push_group msg (if splits (last? l.current_group) msg then flush_group l else l)
      else push_text msg (flush_group l)

  unfoldable pub build_render_items : List Message → List RenderItem
  unfolding next_message
  build_render_items messages =
      (flush_group (foldl next_message (record { items = []; current_group = [] }) messages)).items
