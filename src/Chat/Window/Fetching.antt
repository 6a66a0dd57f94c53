-- ===== src/Chat/Window/Fetching.antt =====
-- Which requests the effect on the caches sends.
use decentrarent.Prelude.{
  ℕ, ◌+◌, String, Bool, false, not, ◌&&◌, List, [], ◌∷◌, ◌++◌, ◌≡◌, refl, ap, map, filter, includes,
  if◌then◌else◌, Bool-cases, inl, inr, arith, ◌==◌, eq_iff,
}
use decentrarent.Chat.{ChatState}
use decentrarent.Chat.Window.{Window}
use decentrarent.Chat.Window.Groups.{one_if}
use decentrarent.Chat.Window.Caches.{
  Caches, unique, conversation_parties, Fetch, property_fetch, user_fetch, is_some, is_cached,
  prop_ids, user_ids, cache_fetches,
}

abbrev same_fetch : Fetch → Fetch → Bool
same_fetch (property_fetch a) (property_fetch b) = a == b
same_fetch (user_fetch a) (user_fetch b) = a == b
same_fetch _ _ = false

-- How often a request is sent.
abbrev pub times_sent : Fetch → List Fetch → ℕ
times_sent f [] = 0
times_sent f (g ∷ gs) = one_if (same_fetch f g) + times_sent f gs

abbrev occurs : String → List String → ℕ
occurs id [] = 0
occurs id (x ∷ xs) = one_if (id == x) + occurs id xs

occurs-filter :
    (p : String → Bool) (id : String) (xs : List String)
    → occurs id (filter p xs) ≡ (if p id then occurs id xs else 0)
occurs-filter p id [] = ground arith
occurs-filter p id (x ∷ xs) = elim (Bool-cases (id == x)) [
  | inl same ↦ ground (arith, occurs-filter p id xs, ap p ((eq_iff id x).0 same))
  | inr differ ↦ ground (arith, occurs-filter p id xs)
]

occurs-unique : (id : String) (xs : List String) → occurs id (unique xs) ≡ one_if (includes xs id)
unfolding unique
occurs-unique id [] = refl
occurs-unique id (x ∷ xs) = ground (
  arith,
  occurs-unique id xs,
  occurs-filter (λ y. not (y == x)) id (unique xs),
  eq_iff id x,
  eq_iff x id,
)

times_sent-append :
    (f : Fetch) (xs ys : List Fetch) → times_sent f (xs ++ ys) ≡ times_sent f xs + times_sent f ys
times_sent-append f [] ys = omega arith
times_sent-append f (x ∷ xs) ys = omega (arith, times_sent-append f xs ys)

module _ (c : Caches) where
  abbrev lacking : Fetch → Bool
  lacking f = not (is_cached c f)

  property-property :
      (id : String) (xs : List String)
      → times_sent (property_fetch id) (filter lacking (map property_fetch xs))
        ≡ (if lacking (property_fetch id) then occurs id xs else 0)
  property-property id [] = ground arith
  property-property id (x ∷ xs) = elim (Bool-cases (id == x)) [
    | inl same ↦ ground (
      arith,
      property-property id xs,
      ap (λ i. is_cached c (property_fetch i)) ((eq_iff id x).0 same),
    )
    | inr differ ↦ ground (arith, property-property id xs)
  ]

  user-user :
      (id : String) (xs : List String)
      → times_sent (user_fetch id) (filter lacking (map user_fetch xs))
        ≡ (if lacking (user_fetch id) then occurs id xs else 0)
  user-user id [] = ground arith
  user-user id (x ∷ xs) = elim (Bool-cases (id == x)) [
    | inl same ↦
        ground (arith, user-user id xs, ap (λ i. is_cached c (user_fetch i)) ((eq_iff id x).0 same))
    | inr differ ↦ ground (arith, user-user id xs)
  ]

  property-user :
      (id : String) (xs : List String)
      → times_sent (property_fetch id) (filter lacking (map user_fetch xs)) ≡ 0
  property-user id [] = refl
  property-user id (x ∷ xs) = ground (arith, property-user id xs)

  user-property :
      (id : String) (xs : List String)
      → times_sent (user_fetch id) (filter lacking (map property_fetch xs)) ≡ 0
  user-property id [] = refl
  user-property id (x ∷ xs) = ground (arith, user-property id xs)

-- The effect asks exactly once for each property of the list that the cache lacks, and for each
-- party of a conversation other than the user whose name it lacks; it asks for nothing else, and for
-- nothing while a conversation is open.
pub cache_fetches-once :
    (w : Window) (me : String) (s : ChatState) (c : Caches) (id : String)
    → let shown = not (is_some w.selected_conversation) in
      (times_sent (property_fetch id) (cache_fetches w me s c)
        ≡ one_if (
            shown
            && includes (map (λ v. v.property_id) s.conversations) id
            && not (is_cached c (property_fetch id))))
      × (times_sent (user_fetch id) (cache_fetches w me s c)
          ≡ one_if (
              shown
              && includes (conversation_parties s.conversations) id
              && not (id == me)
              && not (is_cached c (user_fetch id))))
unfolding cache_fetches
cache_fetches-once w me s c id = elim (Bool-cases (is_some w.selected_conversation)) [
  | inl open_one ↦ rw open_one (refl, refl)
  | inr list ↦ rw list (asked_property, asked_user)
]
  where
    ps : List Fetch
    ps = filter (lacking c) (map property_fetch (prop_ids s))

    us : List Fetch
    us = filter (lacking c) (map user_fetch (user_ids me s))

    asked_property :
        times_sent (property_fetch id) (ps ++ us)
        ≡ one_if (
            includes (map (λ v. v.property_id) s.conversations) id
            && not (is_cached c (property_fetch id)))
    asked_property = ground (
      arith,
      times_sent-append (property_fetch id) ps us,
      property-property c id (prop_ids s),
      property-user c id (user_ids me s),
      occurs-unique id (map (λ v. v.property_id) s.conversations),
    )

    asked_user :
        times_sent (user_fetch id) (ps ++ us)
        ≡ one_if (
            includes (conversation_parties s.conversations) id
            && not (id == me)
            && not (is_cached c (user_fetch id)))
    asked_user = ground (
      arith,
      times_sent-append (user_fetch id) ps us,
      user-property c id (prop_ids s),
      user-user c id (user_ids me s),
      occurs-filter (λ i. not (i == me)) id (unique (conversation_parties s.conversations)),
      occurs-unique id (conversation_parties s.conversations),
    )
