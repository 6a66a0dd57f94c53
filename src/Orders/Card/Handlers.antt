-- ===== src/Orders/Card/Handlers.antt =====
-- The handlers of frontend/src/features/orders/components/OrderCard.tsx.
use decentrarent.Prelude.{ℕ, String, Bool, true, false, Option, none, some, truthy, if◌then◌else◌}
use decentrarent.Prelude.Outcome.{Result, ok, threw, message_of}
use decentrarent.Toast.{ToastState, ToastVariant, ToastRequest, add_toast, error, onchain}
use decentrarent.Orders.{Order}
use decentrarent.Api.{ApiCall}
use decentrarent.Api.Calls.{accept_order, reject_order}
use decentrarent.Properties.{Property}
use decentrarent.Escrow.{
  Chain, TxState, Hook, LockDepositParams, lock_deposit, tenant_sign, landlord_sign, run_from,
}
use decentrarent.Escrow.Solo.{outcome}
use decentrarent.Orders.Card.{Card, EscrowAccountData, is_tenant, period_seconds, refetch_escrow}

pub data Answer : Type 0 where
  accept reject : Answer

abbrev pub answer_call : Answer → Order → String → ApiCall
answer_call accept o token = accept_order o.id token
answer_call reject o token = reject_order o.id token

abbrev started : Answer → Order → Card → Option String → Card × Option ApiCall
started a o k none = (k, none)
started a o k (some token) =
    if truthy token then (record k { loading = true }, some (answer_call a o token)) else (k, none)

-- `handleAccept` and `handleReject` up to their await.
unfoldable pub begin_answer : Answer → Option String → Order → Card → Card × Option ApiCall
begin_answer a token o k = started a o k token

abbrev pub toast : ToastVariant → String → String → ToastRequest
toast variant title message = record {
  variant = variant;
  title = title;
  message = some message;
  duration = none;
}

abbrev pub failed_title : Answer → String
failed_title accept = "Failed to accept"
failed_title reject = "Failed to reject"

-- The rest, on what the request gave; the flag says whether `onUpdated` was called.
unfoldable pub end_answer :
    {A : Type 0} → ℕ → Answer → Result A → Card × ToastState → Card × ToastState × Bool
end_answer now a (ok _) (k, ts) = (record k { loading = false }, ts, true)
end_answer now a (threw e) (k, ts) = (
  record k { loading = false },
  add_toast now (toast error (failed_title a) (message_of e "")) ts,
  false,
)

-- The two handlers that go to the chain: `number` is an amount as the hooks take it, `seconds` is
-- `Math.floor(new Date(·).getTime() / 1000)`, and `authority` the key in the build's environment.
pub data ChainAction : Type 0 where
  lock sign : ChainAction

module _ (c : Chain) (number : ℕ → c.Number) (seconds : String → c.Number)
    (authority : String) where
  abbrev pub lock_params : Order → Option Property → LockDepositParams c
  lock_params o property = record {
    order_id = o.id;
    landlord_pubkey = o.landlord_pk;
    authority_pubkey = authority;
    deposit_lamports = number o.deposit_amount;
    deadline_ts = seconds o.sign_deadline;
    period = number (period_seconds property);
    start_date = seconds o.rent_start_date;
    end_date = seconds o.rent_end_date;
    price_rent = number o.rent_amount;
  }

  -- The hook that is called, after `setLoading(true)`.
  unfoldable pub hook_of : ChainAction → String → Order → Option Property → Hook c
  hook_of lock user o property = lock_deposit c (lock_params o property)
  hook_of sign user o property =
      if is_tenant user o
      then tenant_sign c (record { landlord_pubkey = o.landlord_pk; order_id = o.id })
      else landlord_sign c (record { tenant_pubkey = o.tenant_pk; order_id = o.id })

  abbrev pub success_toast : ChainAction → ToastRequest
  success_toast lock = toast onchain "Deposit Locked" "Transaction confirmed"
  success_toast sign = toast onchain "Order Signed" "Transaction confirmed"

  abbrev pub error_title : ChainAction → String
  error_title lock = "Deposit failed"
  error_title sign = "Signing failed"

  -- The account data after the hook: signing reads it again.
  abbrev pub data_after :
      (c.Key → Result EscrowAccountData)
      → ChainAction
      → Option c.Key
      → Order
      → Card
      → Option EscrowAccountData
  data_after read lock wallet o k = k.escrow_data
  data_after read sign wallet o k = refetch_escrow c read wallet o k.escrow_data

  -- The part after the hook, on what it gave.
  unfoldable pub end_chain :
      ℕ
      → (c.Key → Result EscrowAccountData)
      → ChainAction
      → Option c.Key
      → Order
      → Result String
      → Card × ToastState
      → Card × ToastState × Bool
  end_chain now read a wallet o (ok sig) (k, ts) = (
    record k { loading = false; escrow_data = data_after read a wallet o k },
    add_toast now (success_toast a) ts,
    true,
  )
  end_chain now read a wallet o (threw e) (k, ts) = (
    record k { loading = false },
    add_toast now (toast error (error_title a) (message_of e "")) ts,
    false,
  )

  pub record World : Type 0 where
    pub card : Card
    pub tx : TxState
    pub toasts : ToastState

  abbrev pub finish :
      ℕ
      → (c.Key → Result EscrowAccountData)
      → ChainAction
      → Option c.Key
      → Order
      → Option (Result String)
      → World
      → World × Bool
  finish now read a wallet o none w = (w, false)
  finish now read a wallet o (some r) w =
      let (k, ts, updated) = end_chain now read a wallet o r (w.card, w.toasts) in
      (record w { card = k; toasts = ts }, updated)

  -- A click on one of the two buttons, with no other call of a hook between its parts.
  unfoldable pub handle_chain :
      ℕ
      → (c.Key → Result EscrowAccountData)
      → ChainAction
      → String
      → Option Property
      → Option c.Key
      → Order
      → Result String
      → Result String
      → Result String
      → World
      → World × Bool
  unfolding hook_of end_chain
  handle_chain now read a user property wallet o r₁ r₂ r₃ w =
      let (p, tx) = run_from (hook_of a user o property wallet w.tx) r₁ r₂ r₃ in
      finish now read a wallet o (outcome p)
        (record w { card = record w.card { loading = true }; tx = tx })
