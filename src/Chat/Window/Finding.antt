-- ===== src/Chat/Window/Finding.antt =====
-- What the search in the list of conversations finds.
use decentrarent.Prelude.{
  String, ◌<>◌, true, false, Option, none, some, List, [], ◌∷◌, ◌++◌, Memᴰ, ◌≡◌, refl, ◌∙◌, sym, ap,
  any, any-append, default, truthy, trim, Bool-cases, inl, inr, arith, mem-filter, filter-mem, ◌↔◌,
}
use decentrarent.Prelude.Slices.{has_text-append, has_text-splits}
use decentrarent.Prelude.Dict.{Dict, lookup}
use decentrarent.Properties.{Property}
use decentrarent.Chat.{Conversation}
use decentrarent.Chat.Window.{PropertyGroup}
use decentrarent.Chat.Window.Search.{
  other_id, mentions, prop_match, msg_match, user_match, is_match, filtered_groups,
}

-- The texts of a group that are searched.
abbrev pub property_texts : Option Property → List String
property_texts none = []
property_texts (some p) = p.title ∷ p.location ∷ []

abbrev pub message_texts : List Conversation → List String
message_texts [] = []
message_texts (c ∷ cs) = elim c.last_message [
  | none ↦ message_texts cs
  | some t ↦ t ∷ message_texts cs
]

abbrev pub name_texts : String → Dict String → List Conversation → List String
name_texts me cache [] = []
name_texts me cache (c ∷ cs) = default (lookup (other_id me c) cache) "" ∷ name_texts me cache cs

abbrev pub searched : String → Dict String → PropertyGroup → List String
searched me cache g =
    property_texts g.property
    ++ message_texts g.conversations
    ++ name_texts me cache g.conversations

module _ (lower : String → String) where
  -- One of the texts has the query as a part, both in lower case.
  abbrev pub Mentioned : String → List String → Type 0
  Mentioned query texts =
      (t : String) × Memᴰ t texts
      × (pre : String) × (post : String) × (lower t ≡ pre <> (lower query <> post))

  any-Mentioned :
      (query : String) (ts : List String)
      → any (mentions lower (lower query)) ts ≡ true
      → Mentioned query ts
  any-Mentioned query [] h = absurd (ground arith)
  any-Mentioned query (t ∷ ts) h = elim (Bool-cases (mentions lower (lower query) t)) [
    | inl here ↦
        let (pre, post, e) = has_text-splits (lower query) (lower t) here in
        (t, Memᴰ.head refl, pre, post, e)
    | inr later ↦
        let (u, m, pre, post, e) = any-Mentioned query ts (rw later at h) in
        (u, Memᴰ.tail m, pre, post, e)
  ]

  Mentioned-any :
      (query : String) (ts : List String)
      → Mentioned query ts
      → any (mentions lower (lower query)) ts ≡ true
  Mentioned-any query ts (t, m, pre, post, e) = at ts m
    where
      here : mentions lower (lower query) t ≡ true
      here = rw e (has_text-append pre (lower query) post)

      at : (us : List String) → Memᴰ t us → any (mentions lower (lower query)) us ≡ true
      at [] m = elim m [ ]
      at (u ∷ us) (Memᴰ.head same) = rw (ap (mentions lower (lower query)) (sym same) ∙ here) refl
      at (u ∷ us) (Memᴰ.tail m) = ground (arith, at us m)

  module _ (me : String) (cache : Dict String) where
    any-message_texts :
        (q : String) (cs : List Conversation)
        → any (mentions lower q) (message_texts cs) ≡ any (λ c. msg_match lower q c.last_message) cs
    any-message_texts q [] = refl
    any-message_texts q (c ∷ cs) = ground (arith, any-message_texts q cs)

    any-name_texts :
        (q : String) (cs : List Conversation)
        → any (mentions lower q) (name_texts me cache cs) ≡ any (user_match lower me cache q) cs
    any-name_texts q [] = refl
    any-name_texts q (c ∷ cs) = ground (arith, any-name_texts q cs)

    any-property_texts :
        (q : String) (p : Option Property)
        → any (mentions lower q) (property_texts p) ≡ prop_match lower q p
    any-property_texts q none = refl
    any-property_texts q (some p) = ground arith

    is_match-any :
        (q : String) (g : PropertyGroup)
        → is_match lower me cache q g ≡ any (mentions lower q) (searched me cache g)
    is_match-any q g = ground (
      arith,
      any-append (mentions lower q) (property_texts g.property)
          (message_texts g.conversations ++ name_texts me cache g.conversations),
      any-append (mentions lower q) (message_texts g.conversations)
          (name_texts me cache g.conversations),
      any-property_texts q g.property,
      any-message_texts q g.conversations,
      any-name_texts q g.conversations,
    )

    -- A query that is more than blanks leaves exactly the groups of which a searched text has it as a
    -- part, both in lower case: the title or the location of the property, a last message, or the name
    -- that the cache has for the other party of a conversation. A blank query leaves all groups.
    pub filtered_groups-finds :
        (query : String) (groups : List PropertyGroup)
        → (truthy (trim query) ≡ true
            → (g : PropertyGroup)
            → Memᴰ g (filtered_groups lower me cache query groups)
              ↔ (Memᴰ g groups × Mentioned query (searched me cache g)))
          × (truthy (trim query) ≡ false → filtered_groups lower me cache query groups ≡ groups)
    unfolding filtered_groups
    filtered_groups-finds query groups = (
      λ some_query g. rw some_query (
        λ m.
            let (n, h) = filter-mem (is_match lower me cache (lower query)) groups m in
            (n, any-Mentioned query (searched me cache g) (sym (is_match-any (lower query) g) ∙ h)),
        λ p.
            mem-filter (is_match lower me cache (lower query)) groups
              (is_match-any (lower query) g ∙ Mentioned-any query (searched me cache g) p.1) p.0,
      ),
      λ blank. rw blank refl,
    )
