-- ===== src/Chat/Messages/Shown.antt =====
-- The bubbles on the screen are those of the messages.
use decentrarent.Prelude.{
  map-append, ℕ, String, true, false, Option, none, some, List, [], ◌∷◌, ◌++◌, map, ◌≡◌, refl, sym,
  ap, ◌∙◌, default, append_assoc, append-nil, arith,
}
use decentrarent.Chat.Types.{MessageType, Message, text, system, modal, document, photo}
use decentrarent.Chat.Grouping.{RenderItem, text_item, dog_group, is_dog_type, is_dog_message}
use decentrarent.Chat.Grouping.Laws.{
  contents, Grouped, empty, with_text, with_group, Linked, one, more, build_render_items-Grouped,
}
use decentrarent.Chat.Messages.{
  Bubble, text_bubble, system_view, modal_view, document_view, dog_type_view, dog_view, is_mine,
  sender, photo_view, text_type_view, item_view, items_view, message_list,
}

module _ (me : String) where
  -- The bubble that a message asks for by its type.
  abbrev pub typed_bubble : MessageType → Message → Bubble
  typed_bubble text msg = text_bubble (is_mine me msg) (sender me msg) msg.content
  typed_bubble photo msg = photo_view me msg
  typed_bubble system msg = system_view msg
  typed_bubble modal msg = modal_view msg
  typed_bubble document msg = document_view msg

  abbrev pub bubble_of : Message → Bubble
  bubble_of msg = typed_bubble (default msg.message_type text) msg

  dog-typed : (msg : Message) → is_dog_message msg ≡ true → dog_view msg ≡ bubble_of msg
  unfolding is_dog_message
  dog-typed msg h = of (default msg.message_type text) h
    where
      of : (t : MessageType) → is_dog_type t ≡ true → dog_type_view t msg ≡ typed_bubble t msg
      of system h = refl
      of modal h = refl
      of document h = refl
      of text h = absurd (ground (arith, h))
      of photo h = absurd (ground (arith, h))

  text-typed :
      (msg : Message)
      → is_dog_message msg ≡ false
      → text_type_view me msg.message_type msg ≡ bubble_of msg
  unfolding is_dog_message
  text-typed msg h = of msg.message_type h
    where
      of :
          (t : Option MessageType)
          → is_dog_type (default t text) ≡ false
          → text_type_view me t msg ≡ typed_bubble (default t text) msg
      of none h = refl
      of (some text) h = refl
      of (some photo) h = refl
      of (some system) h = absurd (ground (arith, h))
      of (some modal) h = absurd (ground (arith, h))
      of (some document) h = absurd (ground (arith, h))

  module _ (time_of : String → Option ℕ) where
    group-typed : {ms : List Message} → Linked time_of ms → map dog_view ms ≡ map bubble_of ms
    group-typed (one m h) = ap (λ b. b ∷ []) (dog-typed m h)
    group-typed (more ms l m linked last near h) =
        rw
          (
            map-append dog_view ms (m ∷ []),
            map-append bubble_of ms (m ∷ []),
            group-typed linked,
            dog-typed m h,
          )
          refl

    items-append :
        (is js : List RenderItem) → items_view me (is ++ js) ≡ items_view me is ++ items_view me js
    items-append [] js = refl
    items-append (i ∷ is) js =
        ap (λ r. item_view me i ++ r) (items-append is js)
        ∙ sym (append_assoc (item_view me i) (items_view me is) (items_view me js))

    contents-append : (is js : List RenderItem) → contents (is ++ js) ≡ contents is ++ contents js
    contents-append [] js = refl
    contents-append (text_item m ∷ is) js = ap (λ r. m ∷ r) (contents-append is js)
    contents-append (dog_group ms ∷ is) js =
        ap (λ r. ms ++ r) (contents-append is js)
        ∙ sym (append_assoc ms (contents is) (contents js))

    items-typed :
        {is : List RenderItem} → Grouped time_of is → items_view me is ≡ map bubble_of (contents is)
    items-typed empty = refl
    items-typed (with_text is m g h) =
        rw
          (
            items-append is (text_item m ∷ []),
            contents-append is (text_item m ∷ []),
            map-append bubble_of (contents is) (m ∷ []),
            items-typed g,
            text-typed m h,
          )
          refl
    items-typed (with_group is m ms g linked fresh) =
        rw
          (
            items-append is (dog_group (m ∷ ms) ∷ []),
            contents-append is (dog_group (m ∷ ms) ∷ []),
            map-append bubble_of (contents is) ((m ∷ ms) ++ []),
            items-typed g,
            append-nil (map dog_view ms),
            append-nil ms,
          )
          (ap (λ r. map bubble_of (contents is) ++ r) (group-typed linked))

    -- However the messages are grouped, the bubbles on the screen are those that the messages ask for
    -- by their types, one for each message, in the order of the messages.
    pub message_list-typed :
        (messages : List Message) → message_list me time_of messages ≡ map bubble_of messages
    unfolding message_list
    message_list-typed messages =
        let (g, same) = build_render_items-Grouped time_of messages in
        items-typed g ∙ ap (map bubble_of) same
