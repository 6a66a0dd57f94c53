-- ===== src/Orders/Tests.antt =====
-- The orders' theorems at concrete inputs.
use decentrarent.Prelude.{true, some, [], ◌∷◌, ◌≡◌, refl, foldl, length}
use decentrarent.Toast.{initial_toasts}
use decentrarent.Orders.Types.{Order, OrderUpdateEvent, active, settled, order_activated}
use decentrarent.Orders.Updates.{merge_order, on_order_event, chat_orders, find_order}
use decentrarent.Orders.Merge.{
  updated, keys_known, merge_order_finds, events_keep_keys, delivered_is_shown,
}

abbrev lease : Order
lease = record {
  id = "o1";
  conversation_id = "c1";
  property_id = "p1";
  tenant_id = "u2";
  landlord_id = "u1";
  landlord_pk = "LPK";
  tenant_pk = "TPK";
  created_by = "u2";
  deposit_amount = 10;
  rent_amount = 5;
  token_mint = "SOL";
  escrow_status = active;
  escrow_address = "";
  tenant_signed = true;
  landlord_signed = true;
  sign_deadline = "1";
  rent_start_date = "2";
  rent_end_date = "3";
  dispute_reason = "";
  created_at = "0";
  updated_at = "0";
  tenant_signed_onchain = true;
  landlord_signed_onchain = true;
}

-- As the broker sends it: without the public keys.
abbrev settled_event : OrderUpdateEvent
settled_event = record {
  type = order_activated;
  order_id = "o1";
  status = settled;
  order = record lease { escrow_status = settled; landlord_pk = ""; tenant_pk = "" };
}

merge_order_finds_example :
    (find_order "o1" (merge_order settled_event (lease ∷ []))
      ≡ some (updated settled_event.order (some lease)))
    × (length (merge_order settled_event (lease ∷ [])) ≡ 1)
merge_order_finds_example = merge_order_finds settled_event "o1" (lease ∷ []) refl

events_keep_keys_run :
    keys_known "o1" (foldl (λ os e. merge_order e os) (lease ∷ []) (settled_event ∷ [])) ≡ true
events_keep_keys_run = events_keep_keys (settled_event ∷ []) "o1" (lease ∷ []) (refl, tt) refl

delivered_is_shown_run :
    find_order "o1" (
      chat_orders
        (on_order_event 9 settled_event
          (record { orders = lease ∷ []; ws_order_ids = [] }, initial_toasts)).0)
    ≡ some (record lease { escrow_status = settled })
delivered_is_shown_run =
    delivered_is_shown 9 settled_event (record { orders = lease ∷ []; ws_order_ids = [] })
      initial_toasts refl
