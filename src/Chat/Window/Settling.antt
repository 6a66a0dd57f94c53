-- ===== src/Chat/Window/Settling.antt =====
-- The caches once the answers have come.
use mathlib.Core.List.Memᴰ
use decentrarent.Prelude.{
  String, ◌<>◌, Bool, true, false, not, ◌&&◌, Option, none, some, List, [], ◌∷◌, Memᴰ, ◌≡◌, refl,
  ◌∙◌, sym, ap, map, filter, foldl, truthy, Bool-cases, inl, inr, arith, mem-filter,
}
use decentrarent.Prelude.Slices.{head_slice, tail_slice, append_filled}
use decentrarent.Prelude.Outcome.{Result, ok, threw}
use decentrarent.Prelude.Dict.{lookup-insert, lookup-insert_self}
use decentrarent.Properties.{Property}
use decentrarent.Chat.{Conversation, ChatState}
use decentrarent.Chat.Window.{Window}
use decentrarent.Chat.Window.Caches.{
  UserProfile, Caches, Fetch, property_fetch, user_fetch, is_some, is_cached, prop_ids, user_ids,
  cache_fetches, wallet_name, is_wallet, name_of, with_property, with_user, on_fetched,
}

dotted : (a b : String) → truthy (a <> ("..." <> b)) ≡ true
dotted a b =
    ground (arith, append_filled a ("..." <> b) (ground (arith, append_filled "..." b refl)))

wallet_name_filled : (uid : String) (w : Option String) → truthy (wallet_name uid w) ≡ true
wallet_name_filled uid none = ground (arith, append_filled (head_slice 6 uid) "..." (ground arith))
wallet_name_filled uid (some w) = ground (
  arith,
  append_filled (head_slice 6 uid) "..." (ground arith),
  dotted (head_slice 4 w) (tail_slice 4 w),
)

-- A name is never empty, so what is cached counts as cached.
name_of_filled : (uid : String) (u : UserProfile) → truthy (name_of uid u) ≡ true
unfolding name_of
name_of_filled uid u =
    elim (Bool-cases (truthy u.display_name && not (is_wallet u.display_name u.wallet_address))) [
      | inl own ↦ rw own (ground (arith, own))
      | inr other ↦ rw other (wallet_name_filled uid u.wallet_address)
    ]

module _ (property_answer : String → Result Property)
    (user_answer : String → Result UserProfile) where
  -- No answer to the request is an error.
  abbrev pub Succeeds : Fetch → Type 0
  Succeeds (property_fetch id) = (p : Property) × (property_answer id ≡ ok p)
  Succeeds (user_fetch id) = (u : UserProfile) × (user_answer id ≡ ok u)

  abbrev pub taken : Caches → Fetch → Caches
  taken c f = on_fetched property_answer user_answer f c

  gains : (f : Fetch) (c : Caches) → Succeeds f → is_cached (taken c f) f ≡ true
  unfolding on_fetched
  gains (property_fetch id) c (p, e) =
      rw e (ground (arith, lookup-insert_self id p c.property_cache))
  gains (user_fetch id) c (u, e) =
      rw e (rw (lookup-insert_self id (name_of id u) c.user_cache) (name_of_filled id u))

  keeps : (f g : Fetch) (c : Caches) → is_cached c f ≡ true → is_cached (taken c g) f ≡ true
  unfolding on_fetched
  keeps (property_fetch id) (property_fetch other) c h = from (property_answer other)
    where
      from : (r : Result Property) → is_cached (with_property other r c) (property_fetch id) ≡ true
      from (ok p) = ground (arith, lookup-insert other id p c.property_cache)
      from (threw e) = h
  keeps (property_fetch id) (user_fetch other) c h = from (user_answer other)
    where
      from : (r : Result UserProfile) → is_cached (with_user other r c) (property_fetch id) ≡ true
      from (ok u) = h
      from (threw e) = h
  keeps (user_fetch id) (property_fetch other) c h = from (property_answer other)
    where
      from : (r : Result Property) → is_cached (with_property other r c) (user_fetch id) ≡ true
      from (ok p) = h
      from (threw e) = h
  keeps (user_fetch id) (user_fetch other) c h = from (user_answer other)
    where
      from : (r : Result UserProfile) → is_cached (with_user other r c) (user_fetch id) ≡ true
      from (ok u) =
          ground
            (arith, lookup-insert other id (name_of other u) c.user_cache, name_of_filled other u)
      from (threw e) = h

  keeps_all :
      (f : Fetch) (gs : List Fetch) (c : Caches)
      → is_cached c f ≡ true
      → is_cached (foldl taken c gs) f ≡ true
  keeps_all f [] c h = h
  keeps_all f (g ∷ gs) c h = keeps_all f gs (taken c g) (keeps f g c h)

  arrived :
      (f : Fetch) (gs : List Fetch) (c : Caches)
      → Memᴰ f gs
      → Succeeds f
      → is_cached (foldl taken c gs) f ≡ true
  arrived f [] c m a = elim m [ ]
  arrived f (g ∷ gs) c (Memᴰ.head e) a =
      keeps_all f gs (taken c g) (ap (λ (h : Fetch). is_cached (taken c h) f) (sym e) ∙ gains f c a)
  arrived f (g ∷ gs) c (Memᴰ.tail m) a = arrived f gs (taken c g) m a

  emptied :
      (c : Caches) (xs : List Fetch)
      → ((f : Fetch) → Memᴰ f xs → is_cached c f ≡ true)
      → filter (λ f. not (is_cached c f)) xs ≡ []
  emptied c [] all = refl
  emptied c (x ∷ xs) all = rw (all x (Memᴰ.head refl)) (emptied c xs (λ f m. all f (Memᴰ.tail m)))

  module _ (w : Window) (me : String) (s : ChatState) (c : Caches) (gs : List Fetch)
      (complete : (f : Fetch) → Memᴰ f (cache_fetches w me s c) → Memᴰ f gs × Succeeds f) where
    abbrev filled : Caches
    filled = foldl taken c gs

    all_cached :
        (xs : List Fetch)
        → ((f : Fetch)
            → Memᴰ f (filter (λ g. not (is_cached c g)) xs)
            → Memᴰ f (cache_fetches w me s c))
        → (f : Fetch) → Memᴰ f xs
        → is_cached filled f ≡ true
    all_cached xs sent f m = elim (Bool-cases (is_cached c f)) [
      | inl before ↦ keeps_all f gs c before
      | inr lacked ↦
          let (there, a) = complete f (sent f (mem-filter _ xs (ap not lacked) m)) in
          arrived f gs c there a
    ]

    -- Once the answers to one run's requests have come, in any order and among others, none of them
    -- an error, a further run has nothing left to ask; and while the list is shown, the property of
    -- every conversation is there, and every party but the user has a name that is not empty.
    pub cache_fetches_settle :
        (cache_fetches w me s filled ≡ [])
        × (w.selected_conversation ≡ none
            → ((id : String) → Memᴰ id (prop_ids s) → is_cached filled (property_fetch id) ≡ true)
              × ((id : String) → Memᴰ id (user_ids me s) → is_cached filled (user_fetch id) ≡ true))
    unfolding cache_fetches
    cache_fetches_settle = (
      again,
      λ list. (
        λ id m. properties (is_shown list) (property_fetch id) (Memᴰ.map property_fetch m),
        λ id m. users (is_shown list) (user_fetch id) (Memᴰ.map user_fetch m),
      ),
    )
      where
        lacks : Fetch → Bool
        lacks f = not (is_cached c f)

        is_shown : w.selected_conversation ≡ none → is_some w.selected_conversation ≡ false
        is_shown list = ap (λ (o : Option Conversation). is_some o) list

        properties :
            is_some w.selected_conversation ≡ false
            → (f : Fetch) → Memᴰ f (map property_fetch (prop_ids s))
            → is_cached filled f ≡ true
        properties list =
            all_cached (map property_fetch (prop_ids s)) (λ f m. rw list (Memᴰ.append_left _ m))

        users :
            is_some w.selected_conversation ≡ false
            → (f : Fetch) → Memᴰ f (map user_fetch (user_ids me s))
            → is_cached filled f ≡ true
        users list =
            all_cached (map user_fetch (user_ids me s)) (λ f m. rw list (Memᴰ.append_right _ m))

        again : cache_fetches w me s filled ≡ []
        again = elim (Bool-cases (is_some w.selected_conversation)) [
          | inl open_one ↦ rw open_one refl
          | inr list ↦
              rw list (rw (emptied filled _ (properties list)) (emptied filled _ (users list)))
        ]
