-- ===== src/Orders/Updates.antt =====
-- The hook of frontend/src/features/orders/hooks/useOrderUpdates.ts: its two pieces of state, its
-- loader and its `publication` handler.
use decentrarent.Prelude.{
  ℕ, String, ◌<>◌, Bool, not, ◌||◌, Option, none, some, List, [], ◌∷◌, ◌++◌, ◌==◌, if◌then◌else◌,
  or_text, includes, present, filter, find, find_index, get_elem?, set,
}
use decentrarent.Prelude.Outcome.{Result, ok, threw}
use decentrarent.Toast.{ToastVariant, ToastRequest, ToastState, add_toast, success, error, onchain}
use decentrarent.Orders.Types.{
  Order, OrderUpdateEvent, EventType, order_created, order_accepted, order_both_accepted,
  order_rejected, deposit_locked, party_signed, order_activated, order_expired, dispute_opened,
  rent_paid, unknown, is_terminal,
}

-- `wsOrderIds` is a set: its members in the order of insertion.
pub record OrdersState : Type 0 where
  pub orders : List Order
  pub ws_order_ids : List String

-- `loadOrders`, on what the request gives.
unfoldable pub load_orders :
    Option String → Option String → Result (List Order) → OrdersState → OrdersState
load_orders conversation token (ok result) s =
    if present conversation then (if present token then record s { orders = result } else s) else s
load_orders conversation token (threw e) s =
    if present conversation then (if present token then record s { orders = [] } else s) else s

-- `new Set([...prev, id])`
abbrev pub add_id : List String → String → List String
add_id ids id = if includes ids id then ids else ids ++ id ∷ []

-- The keys that an event leaves out are kept.
abbrev pub merged : Order → Order → Order
merged incoming existing = record incoming {
  landlord_pk = or_text incoming.landlord_pk existing.landlord_pk;
  tenant_pk = or_text incoming.tenant_pk existing.tenant_pk;
}

abbrev replace_at : OrderUpdateEvent → List Order → ℕ → Option Order → List Order
replace_at evt prev idx none = prev
replace_at evt prev idx (some existing) = set prev idx (merged evt.order existing)

abbrev merge_found : OrderUpdateEvent → List Order → Option ℕ → List Order
merge_found evt prev none = evt.order ∷ prev
merge_found evt prev (some idx) = replace_at evt prev idx (get_elem? prev idx)

-- The updater of `setOrders`.
unfoldable pub merge_order : OrderUpdateEvent → List Order → List Order
merge_order evt prev = merge_found evt prev (find_index (λ o. o.id == evt.order_id) prev)

abbrev notice : ToastVariant → String → Option String → Option ToastRequest
notice variant title message =
    some (record { variant = variant; title = title; message = message; duration = none })

abbrev mark : Bool → String
mark signed = if signed then "✓" else "○"

-- The `switch` on the event's type: the toast that it shows, if any.
unfoldable pub event_toast : EventType → Order → Option ToastRequest
event_toast order_created o = none
event_toast order_accepted o =
    notice success "Order Accepted" (some "Waiting for tenant to lock deposit")
event_toast order_both_accepted o =
    notice success "Order Both Accepted" (some "Both parties have accepted the order")
event_toast order_rejected o = notice error "Order Rejected" none
event_toast deposit_locked o =
    notice onchain "Deposit Locked On-Chain" (some "Ready for signatures")
event_toast party_signed o =
    notice onchain "Order Signed"
      (some (mark o.tenant_signed <> (" Tenant  " <> (mark o.landlord_signed <> " Landlord"))))
event_toast order_activated o =
    notice success "Order Active" (some "Both parties signed — order is live")
event_toast order_expired o = notice error "Order Expired" (some "Sign deadline passed")
event_toast dispute_opened o =
    notice error "Dispute Opened"
      (some (or_text o.dispute_reason "Deposit frozen pending resolution"))
event_toast rent_paid o = notice onchain "Rent Paid" (some "Payment confirmed on-chain")
event_toast unknown o = none

abbrev show : ℕ → Option ToastRequest → ToastState → ToastState
show now none ts = ts
show now (some r) ts = add_toast now r ts

-- The `publication` handler, at time `now`.
unfoldable pub on_order_event :
    ℕ → OrderUpdateEvent → OrdersState × ToastState → OrdersState × ToastState
on_order_event now evt (s, toasts) = (
  record { orders = merge_order evt s.orders; ws_order_ids = add_id s.ws_order_ids evt.order_id },
  show now (event_toast evt.type evt.order) toasts,
)

-- `chatOrders`
unfoldable pub chat_orders : OrdersState → List Order
chat_orders s =
    filter (λ o. not (is_terminal o.escrow_status) || includes s.ws_order_ids o.id) s.orders

-- The first order with this id.
abbrev pub find_order : String → List Order → Option Order
find_order id = find (λ o. o.id == id)
