-- ===== src/Orders/Card/Offers.antt =====
-- Which buttons the card of an order offers to whom.
use decentrarent.Prelude.{
  String, Bool, true, false, not, ◌&&◌, ◌||◌, List, [], ◌≡◌, refl, arith, any, if◌then◌else◌,
  Option, none, some, ◌==◌,
}
use decentrarent.Orders.{
  Order, OrderStatus, new, rejected, awaiting_deposit, awaiting_signatures, active, disputed,
  settled, expired, dispute_resolved_tenant, dispute_resolved_landlord, is_terminal,
}
use decentrarent.Orders.Card.{
  EscrowAccountData, on_tenant, on_landlord, Card, Control, accept_button, reject_button,
  lock_button, sign_button, signed_note, accepted_by_me, signed_onchain, status_controls, controls,
}

pub data Kind : Type 0 where
  accepting rejecting locking signing waiting : Kind

abbrev pub same : Bool → Bool → Bool
same true b = b
same false b = not b

-- The control is of this kind, and enabled as the flag says; a note counts as enabled.
abbrev pub shows : Kind → Bool → Control → Bool
shows accepting flag (accept_button b) = same flag b
shows rejecting flag (reject_button b) = same flag b
shows locking flag (lock_button b) = same flag b
shows signing flag (sign_button b) = same flag b
shows waiting flag signed_note = flag
shows _ _ _ = false

hide :
    (visible over : Bool) (f : Control → Bool) (xs : List Control) (p : Bool)
    → any f (if over then [] else xs) ≡ p
    → any f (if not visible || over then [] else xs) ≡ (visible && p)
hide true over f xs p h = h
hide false over f xs p h = refl

module _ (user : String) (o : Order) (k : Card) where
  -- Who has accepted and who has signed on chain: the tenant by the tenant's marks, anybody else by the
  -- landlord's; for the signature the account counts where it was read, else the order.
  abbrev pub has_accepted : Bool → Bool
  has_accepted true = o.tenant_signed
  has_accepted false = o.landlord_signed

  abbrev pub has_signed : Bool → Option EscrowAccountData → Bool
  has_signed true (some account) = account.tenant_signed
  has_signed true none = o.tenant_signed_onchain
  has_signed false (some account) = account.landlord_signed
  has_signed false none = o.landlord_signed_onchain

  accepted-agrees : accepted_by_me user o ≡ has_accepted (user == o.tenant_id)
  accepted-agrees = by_side (user == o.tenant_id)
    where
      by_side : (b : Bool) → (if b then o.tenant_signed else o.landlord_signed) ≡ has_accepted b
      by_side true = refl
      by_side false = refl

  signed-agrees :
      signed_onchain user o k.escrow_data ≡ has_signed (user == o.tenant_id) k.escrow_data
  signed-agrees = by_side (user == o.tenant_id) k.escrow_data
    where
      by_side :
          (b : Bool) (a : Option EscrowAccountData)
          → (if b then on_tenant a o else on_landlord a o) ≡ has_signed b a
      by_side true none = refl
      by_side true (some a) = refl
      by_side false none = refl
      by_side false (some a) = refl

  -- What stands for whom, by the order's status.
  abbrev pub permitted : OrderStatus → Kind → Bool
  permitted new accepting = true
  permitted new rejecting = true
  permitted awaiting_deposit locking = user == o.tenant_id
  permitted awaiting_signatures signing = not (has_signed (user == o.tenant_id) k.escrow_data)
  permitted awaiting_signatures waiting = has_signed (user == o.tenant_id) k.escrow_data
  permitted _ _ = false

  -- A button is dead while a request is out, and answers are dead once the user has accepted.
  abbrev pub enabled : Kind → Bool
  enabled accepting = not k.loading && not (has_accepted (user == o.tenant_id))
  enabled rejecting = not k.loading && not (has_accepted (user == o.tenant_id))
  enabled locking = not k.loading
  enabled signing = not k.loading
  enabled waiting = true

  abbrev AtStatus : Kind → Bool → OrderStatus → Type 0
  AtStatus kind flag status =
      any (shows kind flag) (if is_terminal status then [] else status_controls user status o k)
      ≡ (permitted status kind && same flag (enabled kind))

  status_offers : (kind : Kind) (flag : Bool) (status : OrderStatus) → AtStatus kind flag status
  unfolding is_terminal
  status_offers accepting true new = ground (arith, accepted-agrees)
  status_offers accepting false new = ground (arith, accepted-agrees)
  status_offers rejecting true new = ground (arith, accepted-agrees)
  status_offers rejecting false new = ground (arith, accepted-agrees)
  status_offers locking flag new = refl
  status_offers signing flag new = refl
  status_offers waiting flag new = refl
  status_offers accepting flag awaiting_deposit = ground arith
  status_offers rejecting flag awaiting_deposit = ground arith
  status_offers locking true awaiting_deposit = ground arith
  status_offers locking false awaiting_deposit = ground arith
  status_offers signing flag awaiting_deposit = ground arith
  status_offers waiting flag awaiting_deposit = ground arith
  status_offers accepting flag awaiting_signatures = ground (arith, signed-agrees)
  status_offers rejecting flag awaiting_signatures = ground (arith, signed-agrees)
  status_offers locking flag awaiting_signatures = ground (arith, signed-agrees)
  status_offers signing true awaiting_signatures = ground (arith, signed-agrees)
  status_offers signing false awaiting_signatures = ground (arith, signed-agrees)
  status_offers waiting true awaiting_signatures = ground (arith, signed-agrees)
  status_offers waiting false awaiting_signatures = ground (arith, signed-agrees)
  status_offers kind flag active = refl
  status_offers kind flag disputed = refl
  status_offers kind flag rejected = refl
  status_offers kind flag settled = refl
  status_offers kind flag expired = refl
  status_offers kind flag dispute_resolved_tenant = refl
  status_offers kind flag dispute_resolved_landlord = refl

  -- A visible card shows a button of a kind, enabled or not, exactly when the order's status permits
  -- that kind to the user: answers on a new order, the lock of the deposit to its tenant alone while
  -- it is awaited, and a signature to who has not signed on chain; and a button is enabled exactly
  -- when no request of the card is out and, for answers, the user has not accepted yet. A card that
  -- is hidden shows none, and so does one of an order that is over.
  pub controls_exactly :
      (kind : Kind) (flag : Bool)
      → any (shows kind flag) (controls user o k)
        ≡ (k.visible && (permitted o.escrow_status kind && same flag (enabled kind)))
  unfolding controls
  controls_exactly kind flag =
      hide k.visible (is_terminal o.escrow_status) (shows kind flag) _ _
        (status_offers kind flag o.escrow_status)
