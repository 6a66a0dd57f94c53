-- ===== src/Api/Calls.antt =====
-- The requests of frontend/src/features/orders/api.ts and of features/properties/api.ts.
-- `encode_uri` is `encodeURIComponent`.
use decentrarent.Prelude.{ℕ, String, ◌<>◌, Option, none, some, List, [], ◌∷◌, default}
use decentrarent.Prelude.Dict.{Dict}
use decentrarent.Prelude.Outcome.{Result, ok, ◌>>=◌}
use decentrarent.Api.{Value, text_value, number_value, ApiCall}

abbrev pub get : String → Option String → ApiCall
get path token = record { path = path; method = "GET"; body = none; token = token }

abbrev pub send : String → String → Option (Dict Value) → String → ApiCall
send method path body token = record {
  path = path;
  method = method;
  body = body;
  token = some token;
}

pub record CreateOrderRequest : Type 0 where
  pub conversation_id : String
  pub property_id : String
  pub landlord_id : String
  pub deposit_amount : ℕ
  pub rent_amount : ℕ
  pub token_mint : String
  pub escrow_address : String
  pub rent_start_date : String
  pub rent_end_date : String
  pub sign_deadline_minutes : ℕ

abbrev pub create_order_body : CreateOrderRequest → Dict Value
create_order_body r =
    ("conversation_id", text_value r.conversation_id)
    ∷ ("property_id", text_value r.property_id)
    ∷ ("landlord_id", text_value r.landlord_id)
    ∷ ("deposit_amount", number_value r.deposit_amount)
    ∷ ("rent_amount", number_value r.rent_amount)
    ∷ ("token_mint", text_value r.token_mint)
    ∷ ("escrow_address", text_value r.escrow_address)
    ∷ ("rent_start_date", text_value r.rent_start_date)
    ∷ ("rent_end_date", text_value r.rent_end_date)
    ∷ ("sign_deadline_minutes", number_value r.sign_deadline_minutes)
    ∷ []

unfoldable pub create_order : CreateOrderRequest → String → ApiCall
create_order request token = send "POST" "/orders" (some (create_order_body request)) token

unfoldable pub accept_order : String → String → ApiCall
accept_order id token = send "POST" ("/orders/" <> (id <> "/accept")) none token

unfoldable pub reject_order : String → String → ApiCall
reject_order id token = send "POST" ("/orders/" <> (id <> "/reject")) none token

unfoldable pub get_order : String → String → ApiCall
get_order id token = get ("/orders/" <> id) (some token)

unfoldable pub list_orders_by_conversation : (String → String) → String → String → ApiCall
list_orders_by_conversation encode_uri id token =
    get ("/orders?conversation_id=" <> encode_uri id) (some token)

unfoldable pub list_orders_by_property : (String → String) → String → String → ApiCall
list_orders_by_property encode_uri id token =
    get ("/orders?property_id=" <> encode_uri id) (some token)

-- `.then(res => res.orders ?? [])`, on the member `orders` of the answer.
unfoldable pub orders_of : {Order : Type 0} → Result (Option (List Order)) → Result (List Order)
orders_of answer = answer >>= λ orders. ok (default orders [])

unfoldable pub list_disputed_orders : String → ApiCall
list_disputed_orders token = get "/admin/orders/disputed" (some token)

unfoldable pub resolve_dispute : String → String → String → String → ApiCall
resolve_dispute id winner reason token =
    send "POST" ("/admin/orders/" <> (id <> "/resolve"))
      (some (("winner", text_value winner) ∷ ("reason", text_value reason) ∷ [])) token
