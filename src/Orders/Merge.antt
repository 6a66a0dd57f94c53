-- ===== src/Orders/Merge.antt =====
-- What an order event does to the list of orders.
use decentrarent.Prelude.{
  ℕ, ◌+◌, String, Bool, true, false, not, ◌||◌, ◌&&◌, Option, none, some, List, [], ◌∷◌, ◌++◌, ◌==◌,
  ◌≡◌, refl, arith, eq_iff, if◌then◌else◌, truthy, or_text, includes, length, filter, find_index,
  get_elem?, set, inl, inr, Bool-cases, Option-cases, All, foldl, ap, ◌∙◌, sym, suc,
}
use decentrarent.Toast.{ToastState}
use mathlib.Core.Option
use mathlib.Core.Option.{some-injective}
use decentrarent.Orders.Types.{Order, OrderUpdateEvent, is_terminal}
use decentrarent.Orders.Updates.{
  OrdersState, merged, merge_order, on_order_event, chat_orders, find_order, add_id,
}

-- What the list should hold under an id after an event that brings `incoming`: that order, where each
-- public key that it brings stands, and one that it lacks is the key that was known.
abbrev pub updated : Order → Option Order → Order
updated incoming none = incoming
updated incoming (some existing) = record incoming {
  landlord_pk = if incoming.landlord_pk == "" then existing.landlord_pk else incoming.landlord_pk;
  tenant_pk = if incoming.tenant_pk == "" then existing.tenant_pk else incoming.tenant_pk;
}

merged-updated :
    (incoming existing : Order) → merged incoming existing ≡ updated incoming (some existing)
merged-updated incoming existing =
    rw (key incoming.landlord_pk existing.landlord_pk, key incoming.tenant_pk existing.tenant_pk)
      refl
  where
    key : (a b : String) → or_text a b ≡ (if a == "" then b else a)
    key a b = ground arith

abbrev pub is_none {ℓ} : {A : Type ℓ} → Option A → Bool
is_none none = true
is_none (some _) = false

-- The list that the index version computes, by recursion: the first order with the id replaced.
replace_first : OrderUpdateEvent → List Order → List Order
replace_first evt [] = []
replace_first evt (o ∷ os) =
    if o.id == evt.order_id then merged evt.order o ∷ os else o ∷ replace_first evt os

module _ (evt : OrderUpdateEvent) where
  abbrev hit : Order → Bool
  hit o = o.id == evt.order_id

  index-none :
      (prev : List Order) → find_order evt.order_id prev ≡ none → find_index hit prev ≡ none
  index-none [] h = refl
  index-none (o ∷ os) h = elim (Bool-cases (hit o)) [
    | inl here ↦ absurd (ground arith)
    | inr there ↦ rw there (ap (Option.map suc) (index-none os (rw there at h)))
  ]

  index-some :
      (prev : List Order) (e : Order)
      → find_order evt.order_id prev ≡ some e
      → (i : ℕ) × (find_index hit prev ≡ some i)
        × (get_elem? prev i ≡ some e)
        × (set prev i (merged evt.order e) ≡ replace_first evt prev)
  unfolding replace_first
  index-some [] e h = absurd (ground arith)
  index-some (o ∷ os) e h = elim (Bool-cases (hit o)) [
    | inl here ↦
        let same : o ≡ e = some-injective _ _ (rw here at h) in
        (0, rw here refl, ap some same, rw here (ap (λ x. merged evt.order x ∷ os) (sym same)))
    | inr there ↦
        let (i, at_i, got, put) = index-some os e (rw there at h) in
        (suc i, rw (there, at_i) refl, got, rw (there, put) refl)
  ]

  merge_new :
      (prev : List Order)
      → find_order evt.order_id prev ≡ none
      → merge_order evt prev ≡ evt.order ∷ prev
  unfolding merge_order
  merge_new prev h = rw (index-none prev h)

  merge_known :
      (prev : List Order) (e : Order)
      → find_order evt.order_id prev ≡ some e
      → merge_order evt prev ≡ replace_first evt prev
  unfolding merge_order
  merge_known prev e h = let (i, at_i, got, put) = index-some prev e h in rw (at_i, got, put)

  -- The first order with each id after a replacement.
  find-replace :
      (j : String) (prev : List Order) (e : Order)
      → evt.order.id ≡ evt.order_id
      → find_order evt.order_id prev ≡ some e
      → find_order j (replace_first evt prev)
        ≡ (if evt.order_id == j then some (merged evt.order e) else find_order j prev)
  unfolding replace_first
  find-replace j [] e same h = cc
  find-replace j (o ∷ os) e same h = ground (
    arith,
    eq_iff o.id evt.order_id,
    eq_iff evt.order_id j,
    eq_iff o.id j,
    eq_iff evt.order.id j,
    find-replace j os e same,
  )

  length-replace : (prev : List Order) → length (replace_first evt prev) ≡ length prev
  unfolding replace_first
  length-replace [] = refl
  length-replace (o ∷ os) = ground (arith, length-replace os)

-- After an event the list holds the event's order under its id, with each public key that it brings,
-- those that it lacks taken from the order that was there, and under every other id what it held before; it is longer
-- by one exactly when the id is new. The event's order is taken to carry the event's order id.
pub merge_order_finds :
    (evt : OrderUpdateEvent) (j : String) (prev : List Order)
    → evt.order.id ≡ evt.order_id
    → let old = find_order evt.order_id prev in
      (find_order j (merge_order evt prev)
        ≡ (if evt.order_id == j then some (updated evt.order old) else find_order j prev))
      × (length (merge_order evt prev) ≡ (if is_none old then length prev + 1 else length prev))
merge_order_finds evt j prev same = elim (Option-cases (find_order evt.order_id prev)) [
  | inl fresh ↦ rw (merge_new evt prev fresh, fresh) (rw same refl, omega arith)
  | inr (e, known) ↦
      rw (merge_known evt prev e known, known, sym (merged-updated evt.order e))
        (find-replace evt j prev e same known, length-replace evt prev)
]

-- Whether the list holds both parties' public keys for the order `id`.
abbrev pub keys_of : Option Order → Bool
keys_of none = false
keys_of (some o) = truthy o.landlord_pk && truthy o.tenant_pk

abbrev pub keys_known : String → List Order → Bool
keys_known id os = keys_of (find_order id os)

keys-updated :
    (incoming : Order) (old : Option Order)
    → keys_of old ≡ true
    → keys_of (some (updated incoming old)) ≡ true
keys-updated incoming none h = cc
keys-updated incoming (some o) h = ground arith

keys_kept :
    (evt : OrderUpdateEvent) (id : String) (prev : List Order)
    → evt.order.id ≡ evt.order_id
    → keys_known id prev ≡ true
    → keys_known id (merge_order evt prev) ≡ true
keys_kept evt id prev same h = elim (Bool-cases (evt.order_id == id)) [
  | inl changed ↦
      ap keys_of {y = some (updated evt.order (find_order evt.order_id prev))}
        ((merge_order_finds evt id prev same).0 ∙ (rw changed))
      ∙ keys-updated evt.order (find_order evt.order_id prev)
          (rw ((eq_iff evt.order_id id).0 changed) h)
  | inr kept ↦
      ap keys_of {y = find_order id prev} ((merge_order_finds evt id prev same).0 ∙ (rw kept)) ∙ h
]

-- If the list holds both parties' public keys for an order, it still does after any run of events that
-- carry their orders' ids.
pub events_keep_keys :
    (evts : List OrderUpdateEvent) (id : String) (prev : List Order)
    → All (λ e. e.order.id ≡ e.order_id) evts
    → keys_known id prev ≡ true
    → keys_known id (foldl (λ os e. merge_order e os) prev evts) ≡ true
events_keep_keys [] id prev same h = h
events_keep_keys (e ∷ evts) id prev same h =
    events_keep_keys evts id (merge_order e prev) same.1 (keys_kept e id prev same.0 h)

includes-add_id : (ids : List String) (id : String) → includes (add_id ids id) id ≡ true
includes-add_id ids id = elim (Bool-cases (includes ids id)) [
  | inl old ↦ rw old old
  | inr fresh ↦ rw fresh (last ids)
]
  where
    last : (xs : List String) → includes (xs ++ id ∷ []) id ≡ true
    last [] = ground (arith, eq_iff id id)
    last (x ∷ xs) = ground (arith, last xs)

find-filter :
    (p : Order → Bool) (k : String) (os : List Order) (o : Order)
    → ((x : Order) → x.id ≡ k → p x ≡ true)
    → find_order k os ≡ some o
    → find_order k (filter p os) ≡ some o
find-filter p k [] o all h = h
find-filter p k (x ∷ os) o all h = ground (arith, eq_iff x.id k, all x, find-filter p k os o all)

or_right : (a b : Bool) → b ≡ true → (a || b) ≡ true
or_right a b h = ground arith

-- An order of which an event has come is shown in the chat with what the event and the earlier keys
-- say of it, also where its status is terminal.
pub delivered_is_shown :
    (now : ℕ) (evt : OrderUpdateEvent) (s : OrdersState) (toasts : ToastState)
    → evt.order.id ≡ evt.order_id
    → find_order evt.order_id (chat_orders (on_order_event now evt (s, toasts)).0)
      ≡ some (updated evt.order (find_order evt.order_id s.orders))
unfolding chat_orders on_order_event
delivered_is_shown now evt s toasts same =
    find-filter _ evt.order_id (merge_order evt s.orders) _
      (λ x e.
        or_right (not (is_terminal x.escrow_status)) _
          (rw e (includes-add_id s.ws_order_ids evt.order_id)))
      ((merge_order_finds evt evt.order_id s.orders same).0
        ∙ ground (arith, eq_iff evt.order_id evt.order_id))
