-- ===== src/Chat/Grouping/Laws.antt =====
-- What `buildRenderItems` guarantees.
use decentrarent.Prelude.{
  ℕ, String, true, false, Option, none, some, List, [], ◌∷◌, ◌++◌, foldl, ◌≡◌, refl, ap, sym, ◌∙◌,
  Bool-cases, inl, inr, append_assoc, append-nil,
}
use decentrarent.Chat.Types.{Message}
use decentrarent.Chat.Grouping.{
  RenderItem, text_item, dog_group, is_dog_message, last?, Loop, flushed, apart, splits,
  next_message, build_render_items,
}

-- The messages of the items, in order.
abbrev pub contents : List RenderItem → List Message
contents [] = []
contents (text_item m ∷ is) = m ∷ contents is
contents (dog_group ms ∷ is) = ms ++ contents is

module _ (time_of : String → Option ℕ) where
  -- A group holds dog messages, each within a minute of the one before it.
  pub data Linked : List Message → Type 0 where
    one : (m : Message) → is_dog_message m ≡ true → Linked (m ∷ [])
    more :
        (ms : List Message) (l m : Message)
        → Linked ms
        → last? ms ≡ some l
        → apart time_of l m ≡ false
        → is_dog_message m ≡ true
        → Linked (ms ++ m ∷ [])

  -- No group before could have taken the message `m`.
  abbrev pub Fresh : Option RenderItem → Message → Type 0
  Fresh none m = Unit
  Fresh (some (text_item _)) m = Unit
  Fresh (some (dog_group ms)) m = (l : Message) × (last? ms ≡ some l) × (apart time_of l m ≡ true)

  -- The items are messages that are no dog's, and groups that are linked and as long as they can be.
  pub data Grouped : List RenderItem → Type 0 where
    empty : Grouped []
    with_text :
        (is : List RenderItem) (m : Message)
        → Grouped is
        → is_dog_message m ≡ false
        → Grouped (is ++ text_item m ∷ [])
    with_group :
        (is : List RenderItem) (m : Message) (ms : List Message)
        → Grouped is
        → Linked (m ∷ ms)
        → Fresh (last? is) m
        → Grouped (is ++ dog_group (m ∷ ms) ∷ [])

  -- The group that is open: the same as the group that it will be, once flushed.
  abbrev Open : List RenderItem → List Message → Type 0
  Open is [] = (m : Message) → Fresh (last? is) m
  Open is (m ∷ ms) = Linked (m ∷ ms) × Fresh (last? is) m

  record IsValid (l : Loop) : Type 0 where
    grouped : Grouped l.items
    opened : Open l.items l.current_group

  last-concat {ℓ} : {A : Type ℓ} (xs : List A) (x : A) → last? (xs ++ x ∷ []) ≡ some x
  last-concat [] x = refl
  last-concat (y ∷ []) x = refl
  last-concat (y ∷ z ∷ xs) x = last-concat (z ∷ xs) x

  -- A group flushed.
  flushed-Grouped :
      (is : List RenderItem) (g : List Message) → Grouped is → Open is g → Grouped (flushed is g)
  flushed-Grouped is [] d o = d
  flushed-Grouped is (m ∷ ms) d o = with_group is m ms d o.0 o.1

  last-some : (x : Message) (xs : List Message) → (l : Message) × (last? (x ∷ xs) ≡ some l)
  last-some x [] = (x, refl)
  last-some x (y ∷ ys) = last-some y ys

  start_group :
      (is : List RenderItem) (m : Message)
      → Grouped is
      → Fresh (last? is) m
      → is_dog_message m ≡ true
      → IsValid (record { items = is; current_group = m ∷ [] })
  start_group is m d f dog = record { grouped = d; opened = (one m dog, f) }

  after_group :
      (is : List RenderItem) (g : List Message) (l m : Message)
      → last? g ≡ some l
      → apart time_of l m ≡ true
      → Fresh (last? (is ++ dog_group g ∷ [])) m
  after_group is g l m e far = rw (last-concat is (dog_group g)) (l, e, far)

  next-IsValid :
      (is : List RenderItem) (g : List Message) (m : Message)
      → Grouped is
      → Open is g
      → IsValid (next_message time_of (record { items = is; current_group = g }) m)
  unfolding next_message
  next-IsValid is [] m d o = elim (Bool-cases (is_dog_message m)) [
    | inl dog ↦ rw dog (start_group is m d (o m) dog)
    | inr plain ↦ rw plain (record {
      grouped = with_text is m d plain;
      opened = λ k. rw (last-concat is (text_item m)) tt;
    })
  ]
  next-IsValid is (x ∷ xs) m d o = elim (Bool-cases (is_dog_message m)) [
    | inr plain ↦ rw plain (record {
      grouped = with_text _ m (with_group is x xs d o.0 o.1) plain;
      opened = λ k. rw (last-concat (is ++ dog_group (x ∷ xs) ∷ []) (text_item m)) tt;
    })
    | inl dog ↦
        let (l, e) = last-some x xs in
        elim (Bool-cases (apart time_of l m)) [
          | inl far ↦
              rw (dog, e, far)
                (start_group _ m (with_group is x xs d o.0 o.1) (after_group is (x ∷ xs) l m e far)
                  dog)
          | inr near ↦
              rw (dog, e, near)
                (record { grouped = d; opened = (more (x ∷ xs) l m o.0 e near dog, o.1) })
        ]
  ]

  loop-IsValid :
      (ms : List Message) (l : Loop) → IsValid l → IsValid (foldl (next_message time_of) l ms)
  loop-IsValid [] l v = v
  loop-IsValid (m ∷ ms) l v =
      loop-IsValid ms (next_message time_of l m)
        (next-IsValid l.items l.current_group m v.grouped v.opened)

  contents-append : (is js : List RenderItem) → contents (is ++ js) ≡ contents is ++ contents js
  contents-append [] js = refl
  contents-append (text_item m ∷ is) js = rw (contents-append is js)
  contents-append (dog_group ms ∷ is) js =
      rw (contents-append is js, append_assoc ms (contents is) (contents js))

  contents-flushed :
      (is : List RenderItem) (g : List Message) → contents (flushed is g) ≡ contents is ++ g
  contents-flushed is [] = sym (append-nil (contents is))
  contents-flushed is (m ∷ ms) =
      contents-append is (dog_group (m ∷ ms) ∷ []) ∙ rw (append-nil (m ∷ ms))

  -- All that the loop holds.
  abbrev held : Loop → List Message
  held l = contents l.items ++ l.current_group

  held-next : (l : Loop) (m : Message) → held (next_message time_of l m) ≡ held l ++ m ∷ []
  unfolding next_message
  held-next l m = elim (Bool-cases (is_dog_message m)) [
    | inr plain ↦ rw plain (
        append-nil _
        ∙ (contents-append (flushed l.items l.current_group) (text_item m ∷ [])
            ∙ rw (contents-flushed l.items l.current_group) refl))
    | inl dog ↦ elim (Bool-cases (splits time_of (last? l.current_group) m)) [
      | inl far ↦ rw (dog, far) (rw (contents-flushed l.items l.current_group) refl)
      | inr near ↦ rw (dog, near) (sym (append_assoc (contents l.items) l.current_group (m ∷ [])))
    ]
  ]

  held-loop :
      (ms : List Message) (l : Loop) → held (foldl (next_message time_of) l ms) ≡ held l ++ ms
  held-loop [] l = sym (append-nil (held l))
  held-loop (m ∷ ms) l =
      held-loop ms (next_message time_of l m)
      ∙ (ap (λ h. h ++ ms) (held-next l m) ∙ append_assoc (held l) (m ∷ []) ms)

  -- The items hold all the messages in their order, none twice and none left out; a message that is
  -- no dog's stands alone; the dog's messages stand in groups in which each is within a minute of
  -- the one before, and no group could be joined with the group before it.
  pub build_render_items-Grouped :
      (messages : List Message)
      → Grouped (build_render_items time_of messages)
        × (contents (build_render_items time_of messages) ≡ messages)
  unfolding build_render_items
  build_render_items-Grouped messages =
      let start : Loop = record { items = []; current_group = [] } in
      let end = foldl (next_message time_of) start messages in
      let v = loop-IsValid messages start (record { grouped = empty; opened = λ m. tt }) in
      (
        flushed-Grouped end.items end.current_group v.grouped v.opened,
        contents-flushed end.items end.current_group ∙ held-loop messages start,
      )
