-- ===== src/Orders/Panel.antt =====
-- frontend/src/features/orders/components/OrdersPanel.tsx: what the panel shows of the orders of a
-- conversation, and its selection.
use decentrarent.Prelude.{
  ℕ, suc, ◌+◌, ◌-◌, String, ◌<>◌, Bool, not, Option, none, some, List, [], ◌∷◌, length, filter, ◌≡◌,
  refl, ap, arith,
}
use decentrarent.Properties.{Numbers, to_display_amount}
use decentrarent.Orders.Types.{
  Order, OrderStatus, new, rejected, awaiting_deposit, awaiting_signatures, active, disputed,
  settled, expired, dispute_resolved_tenant, dispute_resolved_landlord, is_terminal,
}

-- `statusLabels`
unfoldable pub panel_label : OrderStatus → String
panel_label new = "NEW"
panel_label rejected = "REJECTED"
panel_label awaiting_deposit = "DEPOSIT"
panel_label awaiting_signatures = "AWAITING SIGS"
panel_label active = "ACTIVE"
panel_label disputed = "DISPUTED"
panel_label settled = "SETTLED"
panel_label expired = "EXPIRED"
panel_label dispute_resolved_tenant = "RESOLVED"
panel_label dispute_resolved_landlord = "RESOLVED"

unfoldable pub status_color : OrderStatus → String
status_color active = "#3DD68C"
status_color settled = "#3DD68C"
status_color dispute_resolved_tenant = "#3DD68C"
status_color dispute_resolved_landlord = "#3DD68C"
status_color rejected = "#FF4D6A"
status_color expired = "#FF4D6A"
status_color disputed = "#FF4D6A"
status_color _ = "#E07840"

unfoldable pub active_orders : List Order → List Order
active_orders = filter (λ o. not (is_terminal o.escrow_status))

-- One button of the list: `index` is its place.
pub record PanelRow : Type 0 where
  pub number : ℕ
  pub label : String
  pub color : String
  pub is_dimmed : Bool
  pub amounts : String
  pub deposit : String

module _ (n : Numbers) where
  abbrev pub panel_row : ℕ → ℕ → Order → PanelRow
  panel_row total index o = record {
    number = total - index;
    label = panel_label o.escrow_status;
    color = status_color o.escrow_status;
    is_dimmed = is_terminal o.escrow_status;
    amounts = to_display_amount n o.rent_amount o.token_mint <> (" " <> o.token_mint);
    deposit =
        to_display_amount n o.deposit_amount o.token_mint <> (" " <> (o.token_mint <> " deposit"));
  }

  abbrev pub rows_from : ℕ → ℕ → List Order → List PanelRow
  rows_from total index [] = []
  rows_from total index (o ∷ os) = panel_row total index o ∷ rows_from total (index + 1) os

  unfoldable pub panel_rows : List Order → List PanelRow
  panel_rows orders = rows_from (length orders) 0 orders

-- The card over the panel: opened by a button, shut by a click beside it and by an update, which is
-- passed on.
unfoldable pub select_order : Order → Option Order → Option Order
select_order o selected = some o

unfoldable pub shut_card : Option Order → Option Order
shut_card selected = none

-- The labels are numbered down to 1.
abbrev pub CountsDown : List PanelRow → Type 0
CountsDown [] = Unit
CountsDown (r ∷ rs) = (r.number ≡ length (r ∷ rs)) × CountsDown rs

length-rows_from :
    (n : Numbers) (total index : ℕ) (os : List Order)
    → length (rows_from n total index os) ≡ length os
length-rows_from n total index [] = refl
length-rows_from n total index (o ∷ os) = ap suc (length-rows_from n total (index + 1) os)

rows-CountsDown :
    (n : Numbers) (total index : ℕ) (os : List Order)
    → index + length os ≡ total
    → CountsDown (rows_from n total index os)
rows-CountsDown n total index [] h = tt
rows-CountsDown n total index (o ∷ os) h = (
  omega (arith, length-rows_from n total (index + 1) os),
  rows-CountsDown n total (index + 1) os (omega arith),
)

pub panel_rows-CountsDown : (n : Numbers) (os : List Order) → CountsDown (panel_rows n os)
unfolding panel_rows
panel_rows-CountsDown n os = rows-CountsDown n (length os) 0 os (omega arith)
