-- ===== src/Orders/Card.antt =====
-- frontend/src/features/orders/components/OrderCard.tsx, with the account that it reads by
-- frontend/src/features/escrow/hooks/useEscrowAccount.ts: what the card offers, and its handlers,
-- each in its part before the first await and its part after what it awaited.
pub mod Offers
pub mod Handlers
pub mod Accounts
mod Tests
use decentrarent.Prelude.{
  ℕ, String, Bool, true, false, not, ◌&&◌, ◌||◌, Option, none, some, List, [], ◌∷◌, ◌++◌, ◌==◌,
  truthy, if◌then◌else◌,
}
use decentrarent.Prelude.Outcome.{Result, ok, threw, ◌>>=◌}
use decentrarent.Orders.{
  Order, OrderStatus, new, rejected, awaiting_deposit, awaiting_signatures, active, disputed,
  settled, expired, dispute_resolved_tenant, dispute_resolved_landlord, is_terminal,
}
use decentrarent.Properties.{Property}
use decentrarent.Escrow.{Chain, get_escrow_pda}

unfoldable pub period_seconds_of : String → ℕ
period_seconds_of period =
    if period == "minute"
    then 1
    else if period == "hour"
    then 3600
    else if period == "day"
    then 86400
    else if period == "week"
    then 604800
    else 2592000

-- `PERIOD_SECONDS[property?.period_type ?? ''] ?? PERIOD_SECONDS.month`
unfoldable pub period_seconds : Option Property → ℕ
period_seconds none = 2592000
period_seconds (some p) = period_seconds_of p.period_type

unfoldable pub status_label : OrderStatus → String
status_label new = "NEW"
status_label rejected = "REJECTED"
status_label awaiting_deposit = "AWAITING DEPOSIT"
status_label awaiting_signatures = "AWAITING SIGNATURES"
status_label active = "ACTIVE"
status_label disputed = "DISPUTED"
status_label settled = "SETTLED"
status_label expired = "EXPIRED"
status_label dispute_resolved_tenant = "RESOLVED (TENANT)"
status_label dispute_resolved_landlord = "RESOLVED (LANDLORD)"

-- `status` is the anchor enum, of which only presence is used.
pub record EscrowAccountData : Type 0 where
  pub landlord_signed : Bool
  pub tenant_signed : Bool

unfoldable pub should_read_chain : Order → Bool
should_read_chain o = elim o.escrow_status [
  | awaiting_signatures ↦ true
  | active ↦ truthy o.escrow_address
  | _ ↦ false
]

abbrev pub data_of : Result EscrowAccountData → Option EscrowAccountData
data_of (ok account) = some account
data_of (threw e) = none

-- `fetch` of useEscrowAccount; `read_account` is `program.account.escrowAccount.fetch`. With
-- arguments that are missing nothing is read; what throws leaves no data.
module _ (c : Chain) (read_account : c.Key → Result EscrowAccountData) where
  open c use {Key, parse_key, get_program}

  unfoldable pub read_escrow : Key → String → String → String → Result EscrowAccountData
  read_escrow wallet landlord_pubkey tenant_pubkey order_id = do
    program ← get_program wallet
    landlord ← parse_key landlord_pubkey
    tenant ← parse_key tenant_pubkey
    escrow ← get_escrow_pda c landlord tenant order_id
    read_account escrow

  -- On the card's order, as the card passes it its keys.
  unfoldable pub refetch_escrow :
      Option Key → Order → Option EscrowAccountData → Option EscrowAccountData
  unfolding should_read_chain
  refetch_escrow none o old = old
  refetch_escrow (some wallet) o old =
      if should_read_chain o && truthy o.landlord_pk && truthy o.tenant_pk && truthy o.id
      then data_of (read_escrow wallet o.landlord_pk o.tenant_pk o.id)
      else old

-- The state of a card.
pub record Card : Type 0 where
  pub loading : Bool
  pub visible : Bool
  pub fading : Bool
  pub escrow_data : Option EscrowAccountData

unfoldable pub initial_card : Card
initial_card = record { loading = false; visible = true; fading = false; escrow_data = none }

-- The timers that the effect on a terminal order sets, and their callbacks.
pub data CardTimer : Type 0 where
  fade_timer hide_timer : CardTimer

unfoldable pub card_timers : Order → List (ℕ × CardTimer)
card_timers o =
    if is_terminal o.escrow_status then (3500, fade_timer) ∷ (4500, hide_timer) ∷ [] else []

unfoldable pub timer_fired : CardTimer → Card → Card
timer_fired fade_timer k = record k { fading = true }
timer_fired hide_timer k = record k { visible = false }

abbrev pub on_tenant : Option EscrowAccountData → Order → Bool
on_tenant none o = o.tenant_signed_onchain
on_tenant (some a) o = a.tenant_signed

abbrev pub on_landlord : Option EscrowAccountData → Order → Bool
on_landlord none o = o.landlord_signed_onchain
on_landlord (some a) o = a.landlord_signed

-- What the card shows below the order: buttons, of which the flag says whether they are enabled, and
-- the note that the user has signed.
pub data Control : Type 0 where
  accept_button reject_button lock_button sign_button : Bool → Control
  signed_note : Control

module _ (current_user_id : String) where
  abbrev pub is_tenant : Order → Bool
  is_tenant o = current_user_id == o.tenant_id

  abbrev pub accepted_by_me : Order → Bool
  accepted_by_me o = if is_tenant o then o.tenant_signed else o.landlord_signed

  abbrev pub signed_onchain : Order → Option EscrowAccountData → Bool
  signed_onchain o account = if is_tenant o then on_tenant account o else on_landlord account o

  abbrev pub status_controls : OrderStatus → Order → Card → List Control
  status_controls new o k =
      let free = not (k.loading || accepted_by_me o) in accept_button free ∷ reject_button free ∷ []
  status_controls awaiting_deposit o k =
      if is_tenant o then lock_button (not k.loading) ∷ [] else []
  status_controls awaiting_signatures o k =
      if signed_onchain o k.escrow_data then signed_note ∷ [] else sign_button (not k.loading) ∷ []
  status_controls _ o k = []

  unfoldable pub controls : Order → Card → List Control
  controls o k =
      if not k.visible || is_terminal o.escrow_status
      then []
      else status_controls o.escrow_status o k
