-- ===== src/Chat/Window/Groups.antt =====
-- The list of conversations: what the groups hold, and in which order.
use decentrarent.Prelude.{
  ℕ, ◌+◌, ◌≤◌, String, Bool, List, [], ◌∷◌, ◌++◌, ◌==◌, ◌≡◌, refl, arith, map, foldl, default,
  if◌then◌else◌, leb, eq_iff, All, All-append, Bool-cases, inl, inr, ◌∙◌, sym, length,
  length-append, Memᴰ,
}
use decentrarent.Prelude.Dict.{Dict, lookup, insert}
use decentrarent.Chat.{Conversation, ChatState, unread_of}
use decentrarent.Properties.{Property}
use decentrarent.Chat.Window.Sorting.{
  Newest, Newest-first, newest_first-Newest, newest_first-sum, newest_first-All,
}
use decentrarent.Chat.Window.{
  sum_by, PropertyGroup, add_to_group, conv_time, group_time, make_group, property_groups,
  latest_of, newest_first,
}

sum_by-append :
    {A : Type 0} (f : A → ℕ) (xs ys : List A) → sum_by f (xs ++ ys) ≡ sum_by f xs + sum_by f ys
sum_by-append f [] ys = omega arith
sum_by-append f (x ∷ xs) ys = omega (arith, sum_by-append f xs ys)

-- The groups while they are collected.
abbrev Groups : Type 0
Groups = Dict (List Conversation)

abbrev held : (Conversation → ℕ) → String × List Conversation → ℕ
held f e = sum_by f e.1

sum-insert :
    (f : Conversation → ℕ) (k : String) (v : List Conversation) (d : Groups)
    → sum_by (held f) (insert k v d) + sum_by f (default (lookup k d) [])
      ≡ sum_by (held f) d + sum_by f v
unfolding insert lookup
sum-insert f k v [] = omega arith
sum-insert f k v ((j, w) ∷ d) = ground (arith, sum-insert f k v d)

collected-sum :
    (f : Conversation → ℕ) (cs : List Conversation) (d : Groups)
    → sum_by (held f) (foldl add_to_group d cs) ≡ sum_by (held f) d + sum_by f cs
collected-sum f [] d = omega arith
collected-sum f (c ∷ cs) d =
    let old = default (lookup c.property_id d) [] in
    collected-sum f cs (add_to_group d c)
    ∙ omega (arith, sum-insert f c.property_id (old ++ c ∷ []) d, sum_by-append f old (c ∷ []))

abbrev Of : String → List Conversation → Type 0
Of id = All (λ c. c.property_id ≡ id)

abbrev Keyed : Groups → Type 0
Keyed = All (λ e. Of e.0 e.1)

-- No group is empty.
abbrev Filled : List Conversation → Type 0
Filled cs = 1 ≤ length cs

abbrev AllFilled : Groups → Type 0
AllFilled = All (λ e. Filled e.1)

insert-AllFilled :
    (k : String) (v : List Conversation) (d : Groups)
    → Filled v
    → AllFilled d
    → AllFilled (insert k v d)
unfolding insert
insert-AllFilled k v [] hv h = (hv, tt)
insert-AllFilled k v ((j, w) ∷ d) hv h = elim (Bool-cases (j == k)) [
  | inl here ↦ rw here (hv, h.1)
  | inr there ↦ rw there (h.0, insert-AllFilled k v d hv h.1)
]

collected-AllFilled :
    (cs : List Conversation) (d : Groups) → AllFilled d → AllFilled (foldl add_to_group d cs)
collected-AllFilled [] d h = h
collected-AllFilled (c ∷ cs) d h =
    let old = default (lookup c.property_id d) [] in
    collected-AllFilled cs (add_to_group d c)
      (insert-AllFilled c.property_id _ d (omega (arith, length-append old (c ∷ []))) h)

lookup-Of : (k : String) (d : Groups) → Keyed d → Of k (default (lookup k d) [])
unfolding lookup
lookup-Of k [] h = tt
lookup-Of k ((j, w) ∷ d) h = elim (Bool-cases (j == k)) [
  | inl here ↦ rw here (rw ((eq_iff j k).0 here) at h.0)
  | inr there ↦ rw there (lookup-Of k d h.1)
]

insert-Keyed :
    (k : String) (v : List Conversation) (d : Groups) → Of k v → Keyed d → Keyed (insert k v d)
unfolding insert
insert-Keyed k v [] hv h = (hv, tt)
insert-Keyed k v ((j, w) ∷ d) hv h = elim (Bool-cases (j == k)) [
  | inl here ↦ rw here (rw (sym ((eq_iff j k).0 here)) at hv, h.1)
  | inr there ↦ rw there (h.0, insert-Keyed k v d hv h.1)
]

collected-Keyed : (cs : List Conversation) (d : Groups) → Keyed d → Keyed (foldl add_to_group d cs)
collected-Keyed [] d h = h
collected-Keyed (c ∷ cs) d h = collected-Keyed cs (add_to_group d c) (
    insert-Keyed c.property_id _ d
      (All-append _ (default (lookup c.property_id d) []) (c ∷ []) (lookup-Of c.property_id d h)
        (refl, tt))
      h)

abbrev pub one_if : Bool → ℕ
one_if b = if b then 1 else 0

abbrev hits : String → String × List Conversation → ℕ
hits id e = one_if (e.0 == id)

abbrev at_least_one : ℕ → ℕ
at_least_one n = if leb n 0 then 1 else n

hits-insert :
    (id k : String) (v : List Conversation) (d : Groups)
    → sum_by (hits id) (insert k v d)
      ≡ (if k == id then at_least_one (sum_by (hits id) d) else sum_by (hits id) d)
unfolding insert
hits-insert id k v [] = ground arith
hits-insert id k v ((j, w) ∷ d) =
    ground (arith, eq_iff k id, eq_iff j id, eq_iff j k, hits-insert id k v d)

collected-hits :
    (id : String) (cs : List Conversation) (d : Groups)
    → sum_by (hits id) d ≤ 1
    → sum_by (hits id) (foldl add_to_group d cs) ≤ 1
collected-hits id [] d h = h
collected-hits id (c ∷ cs) d h =
    collected-hits id cs (add_to_group d c) (
      ground
        (arith, hits-insert id c.property_id (default (lookup c.property_id d) [] ++ c ∷ []) d))

module _ (time_of : String → ℕ) (cache : Dict Property) (s : ChatState) where
  pub record GroupIsValid (g : PropertyGroup) : Type 0 where
    pub of_property : All (λ c. c.property_id ≡ g.property_id) g.conversations
    pub newest : Newest (conv_time time_of) g.conversations
    pub latest :
        (c : Conversation) × Memᴰ c g.conversations
        × (g.latest_message_at ≡ c.last_message_at)
        × All (λ d. conv_time time_of d ≤ conv_time time_of c) g.conversations
    pub unread : g.total_unread ≡ sum_by (λ c. unread_of c.id s) g.conversations

  abbrev made : String × List Conversation → PropertyGroup
  made = make_group time_of cache s

  -- The first of what is sorted, when there is any, is as late as the rest.
  latest-made :
      (cs : List Conversation)
      → 1 ≤ length cs
      → Newest (conv_time time_of) cs
      → (c : Conversation) × Memᴰ c cs
        × (latest_of cs ≡ c.last_message_at)
        × All (λ d. conv_time time_of d ≤ conv_time time_of c) cs
  latest-made [] filled h = absurd (omega (arith, filled))
  latest-made (c ∷ cs) filled h = (c, Memᴰ.head refl, refl, Newest-first (conv_time time_of) c cs h)

  length-sorted :
      (cs : List Conversation) → length (newest_first (conv_time time_of) cs) ≡ length cs
  length-sorted cs =
      counted (newest_first (conv_time time_of) cs)
      ∙ (newest_first-sum (conv_time time_of) (λ c. 1) cs ∙ sym (counted cs))
    where
      counted : (ds : List Conversation) → length ds ≡ sum_by (λ c. 1) ds
      counted [] = refl
      counted (d ∷ ds) = omega (arith, counted ds)

  made-IsValid : (e : String × List Conversation) → Of e.0 e.1 → Filled e.1 → GroupIsValid (made e)
  made-IsValid e h filled = record {
    of_property = newest_first-All (conv_time time_of) _ e.1 h;
    newest = newest_first-Newest (conv_time time_of) e.1;
    latest =
        latest-made (newest_first (conv_time time_of) e.1)
          (omega (arith, filled, length-sorted e.1)) (newest_first-Newest (conv_time time_of) e.1);
    unread = refl;
  }

  made-All : (d : Groups) → Keyed d → AllFilled d → All GroupIsValid (map made d)
  made-All [] h filled = tt
  made-All (e ∷ d) h filled = (made-IsValid e h.0 filled.0, made-All d h.1 filled.1)

  made-sum :
      (f : Conversation → ℕ) (d : Groups)
      → sum_by (λ g. sum_by f g.conversations) (map made d) ≡ sum_by (held f) d
  made-sum f [] = refl
  made-sum f (e ∷ d) = omega (arith, newest_first-sum (conv_time time_of) f e.1, made-sum f d)

  made-hits :
      (id : String) (d : Groups)
      → sum_by (λ g. one_if (g.property_id == id)) (map made d) ≡ sum_by (hits id) d
  made-hits id [] = refl
  made-hits id (e ∷ d) = omega (arith, made-hits id d)

  -- The groups hold the conversations, each of them once: any sum over the conversations of all groups
  -- is the sum over the conversations of the store. A group's conversations are of its property and
  -- stand with the newest first, its time is that of a conversation of it that none is later than,
  -- and its unread count is the sum of theirs; no property has two groups, and the groups stand with
  -- the newest first by these times.
  pub property_groups-hold :
      ((f : Conversation → ℕ)
        → sum_by (λ g. sum_by f g.conversations) (property_groups time_of cache s)
          ≡ sum_by f s.conversations)
      × All GroupIsValid (property_groups time_of cache s)
      × ((id : String)
          → sum_by (λ g. one_if (g.property_id == id)) (property_groups time_of cache s) ≤ 1)
      × Newest (group_time time_of) (property_groups time_of cache s)
  unfolding property_groups
  property_groups-hold =
      let collected : Groups = foldl add_to_group [] s.conversations in
      (
        λ f.
            newest_first-sum (group_time time_of) (λ g. sum_by f g.conversations)
              (map made collected)
            ∙ (made-sum f collected ∙ omega (arith, collected-sum f s.conversations [])),
        newest_first-All (group_time time_of) GroupIsValid (map made collected) (
            made-All collected (collected-Keyed s.conversations [] tt)
              (collected-AllFilled s.conversations [] tt)),
        λ id. omega (
          arith,
          newest_first-sum (group_time time_of) (λ g. one_if (g.property_id == id))
              (map made collected),
          made-hits id collected,
          collected-hits id s.conversations [] (omega arith),
        ),
        newest_first-Newest (group_time time_of) (map made collected),
      )
