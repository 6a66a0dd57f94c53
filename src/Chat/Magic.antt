-- ===== src/Chat/Magic.antt =====
-- The quick actions: frontend/src/features/chat/utils/getMagicActions.ts, and the handlers of
-- components/MagicDogButton.tsx. Times are milliseconds; `time_of` is `new Date(·).getTime()`.
pub mod Offers
pub mod Handlers
pub mod Clicks
mod Tests
use decentrarent.Prelude.{
  ℕ, String, ◌<>◌, Bool, true, false, not, ◌&&◌, ◌||◌, Option, none, some, List, [], ◌∷◌, ◌++◌,
  ◌==◌, if◌then◌else◌, ltb,
}
use decentrarent.Orders.{OrderStatus, active, awaiting_signatures, Order, is_terminal}

pub data ActionType : Type 0 where
  pay_rent release_deposit open_dispute expire_escrow : ActionType

pub data Variant : Type 0 where
  primary danger warning : Variant

pub record MagicAction : Type 0 where
  pub id : String
  pub label : String
  pub icon : String
  pub order_id : String
  pub order : Order
  pub action_type : ActionType
  pub variant : Variant

unfoldable pub is_active : OrderStatus → Bool
is_active active = true
is_active _ = false

unfoldable pub is_awaiting_signatures : OrderStatus → Bool
is_awaiting_signatures awaiting_signatures = true
is_awaiting_signatures _ = false

-- `if (test) actions.push(action)`
abbrev pub push_if : Bool → MagicAction → List MagicAction
push_if test action = if test then action ∷ [] else []

abbrev pub release_action : Order → MagicAction
release_action o = record {
  id = "release_deposit_" <> o.id;
  label = "Return Deposit";
  icon = "💰";
  order_id = o.id;
  order = o;
  action_type = release_deposit;
  variant = primary;
}

abbrev pub rent_action : Order → MagicAction
rent_action o = record {
  id = "pay_rent_" <> o.id;
  label = "Pay Rent";
  icon = "🏠";
  order_id = o.id;
  order = o;
  action_type = pay_rent;
  variant = primary;
}

abbrev pub dispute_action : Order → MagicAction
dispute_action o = record {
  id = "open_dispute_" <> o.id;
  label = "Open Dispute";
  icon = "⚠\u{fe0f}";
  order_id = o.id;
  order = o;
  action_type = open_dispute;
  variant = danger;
}

abbrev pub expire_action : Order → MagicAction
expire_action o = record {
  id = "expire_escrow_" <> o.id;
  label = "Expire Escrow";
  icon = "⏰";
  order_id = o.id;
  order = o;
  action_type = expire_escrow;
  variant = warning;
}

-- `new Date(sign_deadline).getTime() < Date.now()`; an invalid date is NaN, which is less than
-- nothing.
abbrev pub is_before : Option ℕ → ℕ → Bool
is_before none now = false
is_before (some t) now = ltb t now

abbrev pub is_tenant : String → Order → Bool
is_tenant user o = user == o.tenant_id

abbrev pub is_landlord : String → Order → Bool
is_landlord user o = user == o.landlord_id

module _ (time_of : String → Option ℕ) (now : ℕ) (current_user_id : String) where
  abbrev pub deadline_passed : Order → Bool
  deadline_passed o = is_before (time_of o.sign_deadline) now

  -- One round of the loop.
  unfoldable pub order_actions : Order → List MagicAction
  unfolding is_terminal is_active is_awaiting_signatures
  order_actions o =
      if is_terminal o.escrow_status
      then []
      else (if is_active o.escrow_status
          then push_if (is_landlord current_user_id o) (release_action o)
            ++ (push_if (is_tenant current_user_id o) (rent_action o)
                ++ push_if (is_tenant current_user_id o || is_landlord current_user_id o)
                    (dispute_action o))
          else [])
        ++ (if is_awaiting_signatures o.escrow_status
            then push_if
                (deadline_passed o
                  && (is_tenant current_user_id o || is_landlord current_user_id o))
                (expire_action o)
            else [])

  unfoldable pub get_magic_actions : List Order → List MagicAction
  get_magic_actions [] = []
  get_magic_actions (o ∷ os) = order_actions o ++ get_magic_actions os
