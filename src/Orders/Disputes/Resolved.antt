-- ===== src/Orders/Disputes/Resolved.antt =====
-- What a click on one of the two buttons of a disputed order does.
use decentrarent.Prelude.{ℕ, ◌+◌, ◌≤◌, false, List, ◌≡◌, length}
use decentrarent.Prelude.Outcome.{Result, ok, threw}
use decentrarent.Orders.Types.{Order}
use decentrarent.Orders.Disputes.{Screen}

-- The list after a resolution that the server took, by what it gives on the next request for it.
abbrev pub list_after : Result (List Order) → List Order → List Order
list_after (ok orders) before = orders
list_after (threw e) before = before

abbrev pub toasts_of : Screen → ℕ
toasts_of s = length s.toasts.toasts

-- What the card and the page are after an answer to the call, with the next list.
abbrev pub Ended : Screen → Screen → Result (List Order) → Result (Unit {0}) → Type 0
Ended s t list (ok _) =
    (t.card ≡ record s.card { loading = false })
    × (t.page ≡ record { orders = list_after list s.page.orders; loading = false })
    × (toasts_of s + 1 ≤ toasts_of t)
Ended s t list (threw e) =
    (t.card ≡ record s.card { loading = false })
    × (t.page ≡ s.page)
    × (toasts_of t ≡ toasts_of s + 1)
