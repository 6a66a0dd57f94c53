-- ===== src/Orders/Types.antt =====
-- The interfaces of frontend/src/features/orders/types.ts. Amounts are whole base units.
use decentrarent.Prelude.{ℕ, String, Bool, true, false}

pub data OrderStatus : Type 0 where
  new rejected awaiting_deposit awaiting_signatures active disputed settled expired : OrderStatus
  dispute_resolved_tenant dispute_resolved_landlord : OrderStatus

pub record Order : Type 0 where
  pub id : String
  pub conversation_id : String
  pub property_id : String
  pub tenant_id : String
  pub landlord_id : String
  pub landlord_pk : String
  pub tenant_pk : String
  pub created_by : String
  pub deposit_amount : ℕ
  pub rent_amount : ℕ
  pub token_mint : String
  pub escrow_status : OrderStatus
  pub escrow_address : String
  pub tenant_signed : Bool
  pub landlord_signed : Bool
  pub sign_deadline : String
  pub rent_start_date : String
  pub rent_end_date : String
  pub dispute_reason : String
  pub created_at : String
  pub updated_at : String
  pub tenant_signed_onchain : Bool
  pub landlord_signed_onchain : Bool

-- The `type` of an event that the hook's `switch` names; `unknown` is any other text.
pub data EventType : Type 0 where
  order_created order_accepted order_both_accepted order_rejected deposit_locked : EventType
  party_signed order_activated order_expired dispute_opened rent_paid unknown : EventType

pub record OrderUpdateEvent : Type 0 where
  pub type : EventType
  pub order_id : String
  pub status : OrderStatus
  pub order : Order

-- `TERMINAL.includes(status)`; the list stands with the same five members in useOrderUpdates.ts,
-- getMagicActions.ts, OrderCard.tsx and OrdersPanel.tsx.
unfoldable pub is_terminal : OrderStatus → Bool
is_terminal rejected = true
is_terminal expired = true
is_terminal settled = true
is_terminal dispute_resolved_tenant = true
is_terminal dispute_resolved_landlord = true
is_terminal _ = false
