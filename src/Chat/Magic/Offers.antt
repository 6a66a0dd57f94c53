-- ===== src/Chat/Magic/Offers.antt =====
-- Which quick actions are offered.
use decentrarent.Prelude.{
  ℕ, String, Bool, true, false, ◌&&◌, ◌||◌, Option, List, [], ◌∷◌, ◌==◌, ◌≡◌, refl, arith, any,
  any-append, ◌∙◌,
}
use decentrarent.Orders.{Order, is_terminal}
use decentrarent.Chat.Magic.{
  ActionType, pay_rent, release_deposit, open_dispute, expire_escrow, MagicAction, is_active,
  is_awaiting_signatures, is_tenant, is_landlord, deadline_passed, order_actions, get_magic_actions,
}

abbrev pub same_type : ActionType → ActionType → Bool
same_type pay_rent pay_rent = true
same_type release_deposit release_deposit = true
same_type open_dispute open_dispute = true
same_type expire_escrow expire_escrow = true
same_type _ _ = false

abbrev pub is_offer : ActionType → String → MagicAction → Bool
is_offer type id a = a.order_id == id && same_type a.action_type type

module _ (time_of : String → Option ℕ) (now : ℕ) (user : String) where
  -- Who may do what, and when.
  abbrev pub entitled : ActionType → Order → Bool
  entitled release_deposit o = is_active o.escrow_status && is_landlord user o
  entitled pay_rent o = is_active o.escrow_status && is_tenant user o
  entitled open_dispute o = is_active o.escrow_status && (is_tenant user o || is_landlord user o)
  entitled expire_escrow o =
      is_awaiting_signatures o.escrow_status
      && deadline_passed time_of now user o
      && (is_tenant user o || is_landlord user o)

  order_offers :
      (type : ActionType) (id : String) (o : Order)
      → any (is_offer type id) (order_actions time_of now user o) ≡ (o.id == id && entitled type o)
  unfolding order_actions is_terminal is_active is_awaiting_signatures
  order_offers release_deposit id o = ground arith
  order_offers pay_rent id o = ground arith
  order_offers open_dispute id o = ground arith
  order_offers expire_escrow id o = ground arith

  -- An action of a type is offered for an order id exactly when an order with that id is listed for
  -- which the user is entitled to it: the landlord of an active order to the return of the deposit,
  -- its tenant to paying rent, both to a dispute, and either party to expiry once the deadline for
  -- signatures has passed; a finished order offers nothing.
  pub offered_exactly :
      (type : ActionType) (id : String) (orders : List Order)
      → any (is_offer type id) (get_magic_actions time_of now user orders)
        ≡ any (λ o. o.id == id && entitled type o) orders
  unfolding get_magic_actions
  offered_exactly type id [] = refl
  offered_exactly type id (o ∷ os) =
      any-append (is_offer type id) (order_actions time_of now user o) _
      ∙ rw (order_offers type id o, offered_exactly type id os) refl
