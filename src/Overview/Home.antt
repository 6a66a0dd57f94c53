-- ===== src/Overview/Home.antt =====
-- frontend/src/pages/HomePage.tsx: what it loads, its handlers, and the sums that it shows.
use decentrarent.Prelude.{
  ℕ, String, ◌<>◌, Bool, true, false, ◌&&◌, Option, none, some, List, [], ◌∷◌, foldl, filter,
  length, includes, ◌==◌, if◌then◌else◌, truthy, or_text, ltb, take,
}
use decentrarent.Prelude.Slices.{head_slice, tail_slice}
use decentrarent.Prelude.Outcome.{Result, ok, threw}
use decentrarent.Api.{ApiCall}
use decentrarent.Auth.{User, AuthState}
use decentrarent.Chat.{Conversation}
use decentrarent.Properties.{Property, Numbers, to_display_amount}
use decentrarent.Overview.{owl_index, owl_file}

-- The order as this page's request gives it; the two amounts in dollars are only printed.
pub record OrderWithUsdt : Type 0 where
  pub id : String
  pub conversation_id : String
  pub tenant_id : String
  pub landlord_id : String
  pub escrow_status : String
  pub deposit_amount : ℕ
  pub rent_paid_total : ℕ
  pub token_mint : String

-- `sol_price_usdt` is positive or not; `orders` is not an array where it is none.
pub record OrdersResponse (Num : Type 0) : Type 0 where
  pub orders : Option (List OrderWithUsdt)
  pub sol_price_usdt : Num

pub record Home (Num : Type 0) : Type 0 where
  pub listings : List Property
  pub orders : List OrderWithUsdt
  pub sol_price : Num
  pub loading : Bool

-- The effect's guards: the page to sign in, nothing, or the two requests for the user's listings and
-- orders.
pub data Begun : Type 0 where
  to_auth waits : Begun
  asks : String → String → Begun

abbrev begun_with : Option String → Option User → Begun
begun_with none user = waits
begun_with (some token) none = waits
begun_with (some token) (some u) = if truthy token then asks u.id token else waits

unfoldable pub begin_load : AuthState → Begun
begin_load s = if s.is_authenticated then begun_with s.token s.user else to_auth

abbrev pub listings_of : Result (List Property) → List Property
listings_of (ok ps) = ps
listings_of (threw e) = []

abbrev pub array_or_none : Option (List OrderWithUsdt) → List OrderWithUsdt
array_or_none none = []
array_or_none (some os) = os

-- The page's numbers: `zero`, the comparison with it, and addition.
module _ (n : Numbers) (plus : n.Num → n.Num → n.Num) (is_positive : n.Num → Bool) where
  open n use {Num, number, whole}

  abbrev pub initial_home : Home Num
  initial_home = record { listings = []; orders = []; sol_price = whole 0; loading = true }

  abbrev pub orders_data : Result (OrdersResponse Num) → OrdersResponse Num
  orders_data (ok r) = r
  orders_data (threw e) = record { orders = some []; sol_price_usdt = whole 0 }

  -- What both answers make of the page: each failure is caught by itself.
  unfoldable pub end_load :
      Result (List Property) → Result (OrdersResponse Num) → Home Num → Home Num
  end_load props answer h =
      let r : OrdersResponse Num = orders_data answer in
      record {
        listings = listings_of props;
        orders = array_or_none r.orders;
        sol_price = if is_positive r.sol_price_usdt then r.sol_price_usdt else h.sol_price;
        loading = false;
      }

  abbrev pub locked_statuses : List String
  locked_statuses = "active" ∷ "awaiting_deposit" ∷ "awaiting_signatures" ∷ []

  -- `lockedOrders`
  unfoldable pub locked_orders : String → List OrderWithUsdt → List OrderWithUsdt
  locked_orders user_id =
      filter (λ o. o.tenant_id == user_id && includes locked_statuses o.escrow_status)

  abbrev pub sum_amounts : (OrderWithUsdt → ℕ) → List OrderWithUsdt → Num
  sum_amounts amount =
      foldl (λ sum o. plus sum (number (to_display_amount n (amount o) o.token_mint))) (whole 0)

  -- `totalDepositDisplay` and `periodIncomeDisplay`
  unfoldable pub total_deposit : String → List OrderWithUsdt → Num
  unfolding locked_orders
  total_deposit user_id orders = sum_amounts (λ o. o.deposit_amount) (locked_orders user_id orders)

  unfoldable pub period_income : String → List OrderWithUsdt → Num
  period_income user_id orders =
      sum_amounts (λ o. o.rent_paid_total) (filter (λ o. o.landlord_id == user_id) orders)

-- `assetsRented`
unfoldable pub assets_rented : List Property → ℕ
assets_rented listings = length (filter (λ l. l.status == "rented") listings)

-- `handleTransactionClick`: the conversation that the chat is opened with.
abbrev pub conversation_call : Option String → OrderWithUsdt → ApiCall
conversation_call token o = record {
  path = "/conversations/" <> o.conversation_id;
  method = "GET";
  body = none;
  token = token;
}

unfoldable pub on_conversation : Result Conversation → Option Conversation
on_conversation (ok conv) = some conv
on_conversation (threw e) = none

unfoldable pub home_name : User → String
home_name u = or_text u.display_name (or_text (head_slice 8 u.wallet_address) "User")

unfoldable pub wallet_short : User → String
wallet_short u =
    if truthy u.wallet_address
    then head_slice 6 u.wallet_address <> ("..." <> tail_slice 4 u.wallet_address)
    else ""

-- `greeting`, by the hour.
unfoldable pub greeting : ℕ → String
greeting hour =
    if ltb hour 12 then "Good morning" else if ltb hour 18 then "Good afternoon" else "Good evening"

-- The label of an order's row, and the rows: five at most.
unfoldable pub escrow_label : String → String
escrow_label status =
    if status == "new"
    then "New"
    else if status == "awaiting_deposit"
    then "Awaiting Deposit"
    else if status == "awaiting_signatures"
    then "Awaiting Signatures"
    else if status == "active"
    then "Active"
    else if status == "settled"
    then "Settled"
    else if status == "expired"
    then "Expired"
    else if status == "rejected"
    then "Rejected"
    else if status == "disputed"
    then "Disputed"
    else if status == "dispute_resolved_tenant"
    then "Resolved (Tenant)"
    else if status == "dispute_resolved_landlord"
    then "Resolved (Landlord)"
    else "Pending"

unfoldable pub transaction_rows : List OrderWithUsdt → List OrderWithUsdt
transaction_rows = take 5

-- The picture, where a user may be missing.
unfoldable pub home_owl : Option User → String
unfolding owl_index owl_file
home_owl none = owl_file (some 1)
home_owl (some u) = owl_file (owl_index u.id)
