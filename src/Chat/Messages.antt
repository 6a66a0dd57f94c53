-- ===== src/Chat/Messages.antt =====
-- frontend/src/features/chat/components/MessageList.tsx: its bubbles, its effect and its handler; and
-- MessageInput.tsx beside it. Times of day and styles are left out.
pub mod Shown
pub mod Paging
mod Tests
use decentrarent.Prelude.{
  ℕ, String, ◌<>◌, Bool, true, false, not, ◌&&◌, ◌||◌, Option, none, some, List, [], ◌∷◌, ◌++◌, map,
  ◌==◌, if◌then◌else◌, default, length, truthy, trim, ltb, eqb,
}
use decentrarent.Prelude.Slices.{short_wallet}
use decentrarent.Chat.Types.{
  MessageType, MessageMeta, Message, text, system, modal, document, photo,
}
use decentrarent.Chat.Grouping.{RenderItem, text_item, dog_group, build_render_items}

-- What a bubble shows. The sender is shown above what is not the user's own.
pub data Bubble : Type 0 where
  text_bubble : Bool → Option String → String → Bubble
  photo_bubble : Bool → Option String → Option String → String → Option String → Bubble
  system_bubble : String → Option String → Bubble
  modal_bubble : String → Option String → Bubble
  document_bubble : String → String → Option String → Bubble

-- `msg.metadata?.field`, where an empty text counts as none.
abbrev pub filled : Option String → Option String
filled none = none
filled (some t) = if truthy t then some t else none

abbrev pub field : (MessageMeta → Option String) → Option MessageMeta → Option String
field f none = none
field f (some m) = filled (f m)

-- The link of a `SystemBubble`.
abbrev pub tx_link : Option MessageMeta → Option String
tx_link meta = elim (field (λ m. m.tx) meta) [
  | none ↦ none
  | some tx ↦ some ("https://solscan.io/tx/" <> (tx <> "?cluster=devnet"))
]

-- `statusLabel` of a `ModalBubble`.
abbrev pub status_label : String → Option String
status_label status =
    if status == "accepted"
    then some "Accepted"
    else if status == "rejected"
    then some "Rejected"
    else if status == "expired"
    then some "Expired"
    else none

abbrev pub system_view : Message → Bubble
system_view msg = system_bubble msg.content (tx_link msg.metadata)

abbrev pub modal_view : Message → Bubble
modal_view msg =
    modal_bubble msg.content
      (status_label (default (field (λ m. m.modal_status) msg.metadata) "pending"))

abbrev pub document_view : Message → Bubble
document_view msg =
    document_bubble msg.content (default (field (λ m. m.document_name) msg.metadata) "Document")
      (field (λ m. m.document_url) msg.metadata)

-- A bubble of a `DogGroup`.
abbrev pub dog_type_view : MessageType → Message → Bubble
dog_type_view modal msg = modal_view msg
dog_type_view document msg = document_view msg
dog_type_view _ msg = system_view msg

abbrev pub dog_view : Message → Bubble
dog_view msg = dog_type_view (default msg.message_type text) msg

module _ (current_user_id : String) where
  abbrev pub is_mine : Message → Bool
  is_mine msg = msg.sender_id == current_user_id

  abbrev pub sender : Message → Option String
  sender msg = if is_mine msg then none else some (short_wallet msg.sender_id)

  abbrev pub photo_view : Message → Bubble
  photo_view msg =
      photo_bubble (is_mine msg) (sender msg) (field (λ m. m.photo_url) msg.metadata)
        (if truthy msg.content then msg.content else "Photo")
        (if truthy msg.content && not (msg.content == "Photo") then some msg.content else none)

  abbrev pub text_type_view : Option MessageType → Message → Bubble
  text_type_view (some photo) msg = photo_view msg
  text_type_view _ msg = text_bubble (is_mine msg) (sender msg) msg.content

  abbrev pub item_view : RenderItem → List Bubble
  item_view (text_item msg) = text_type_view msg.message_type msg ∷ []
  item_view (dog_group msgs) = map dog_view msgs

  abbrev pub items_view : List RenderItem → List Bubble
  items_view [] = []
  items_view (i ∷ is) = item_view i ++ items_view is

  unfoldable pub message_list : (String → Option ℕ) → List Message → List Bubble
  message_list time_of messages = items_view (build_render_items time_of messages)

-- `expanded` of a `PhotoBubble`, after a click on the bubble and on the opened photo; and whether the
-- photo is shown large.
unfoldable pub bubble_click : Option MessageMeta → Bool → Bool
bubble_click meta expanded = elim (field (λ m. m.photo_url) meta) [
  | none ↦ expanded
  | some url ↦ true
]

unfoldable pub photo_close : Bool → Bool
photo_close expanded = false

unfoldable pub shown_large : Option MessageMeta → Bool → Option String
shown_large meta expanded = if expanded then field (λ m. m.photo_url) meta else none

-- The effect on the number of messages: whether it scrolls to the bottom, and the new
-- `prevLengthRef.current`.
unfoldable pub scroll_effect : List Message → ℕ → Bool × ℕ
scroll_effect messages prev_length = (ltb prev_length (length messages), length messages)

-- `handleScroll` on `scrollTop`: whether `onLoadMore` is called.
unfoldable pub handle_scroll : Option ℕ → List Message → Bool
handle_scroll none messages = false
handle_scroll (some scroll_top) messages = eqb scroll_top 0 && ltb 0 (length messages)

-- MessageInput.tsx. `handleSubmit`: the text of the field after it, and what is given to `onSend`.
unfoldable pub handle_submit : String → String × Option String
handle_submit t = if truthy (trim t) then ("", some (trim t)) else (t, none)

-- The button to send is enabled.
unfoldable pub can_send : Bool → String → Bool
can_send disabled t = not (disabled || not (truthy (trim t)))

unfoldable pub can_pick_photo : Bool → Bool → Bool
can_pick_photo disabled uploading = not (disabled || uploading)

-- `handleFileChange`, where `onPhoto` is given or not: the file that is handed on.
unfoldable pub handle_file_change : {F : Type 0} → Bool → Option F → Option F
handle_file_change has_on_photo file = if has_on_photo then file else none
