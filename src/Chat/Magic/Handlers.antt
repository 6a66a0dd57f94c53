-- ===== src/Chat/Magic/Handlers.antt =====
-- The handlers of frontend/src/features/chat/components/MagicDogButton.tsx: each in its part before
-- the await and its part after it.
use decentrarent.Prelude.{
  ℕ, String, ◌<>◌, Bool, true, false, not, Option, none, some, if◌then◌else◌, truthy, trim,
}
use decentrarent.Prelude.Outcome.{Result, ok, threw, message_of}
use decentrarent.Orders.{Order}
use decentrarent.Toast.{ToastRequest, ToastState, add_toast, error, onchain}
use decentrarent.Escrow.{
  Chain, TxState, Hook, run_from, PartiesParams, release_deposit as release_hook,
  expire_escrow as expire_hook, pay_rent as pay_hook,
}
use decentrarent.Escrow.Solo.{outcome}
use decentrarent.Chat.Magic.{
  ActionType, pay_rent, release_deposit, open_dispute, expire_escrow, MagicAction,
}

pub record DogState : Type 0 where
  pub is_open : Bool
  pub loading : Option String
  pub dispute_action : Option MagicAction
  pub dispute_reason : String

abbrev pub parties_of : Order → PartiesParams
parties_of o = record {
  landlord_pubkey = o.landlord_id;
  tenant_pubkey = o.tenant_id;
  order_id = o.id;
}

-- The hook call of each case of `handleAction`'s `switch`; `number` is an amount as the hooks take it.
module _ (c : Chain) (number : ℕ → c.Number) where
  unfoldable pub perform : ActionType → Order → Option (Hook c)
  perform release_deposit o = some (release_hook c (parties_of o))
  perform pay_rent o = some (
      pay_hook c (record {
        landlord_pubkey = o.landlord_pk;
        order_id = o.id;
        amount_lamports = number o.rent_amount;
      }))
  perform expire_escrow o = some (expire_hook c (parties_of o))
  perform open_dispute o = none

  -- The part before the await: the new state, and the hook that is called.
  unfoldable pub begin_action : MagicAction → DogState → DogState × Option (Hook c)
  unfolding perform
  begin_action a d = elim (perform a.action_type a.order) [
    | none ↦ (record d { dispute_action = some a }, none)
    | some hook ↦ (record d { loading = some a.id }, some hook)
  ]

abbrev pub onchain_toast : String → String → ToastRequest
onchain_toast title message = record {
  variant = onchain;
  title = title;
  message = some message;
  duration = none;
}

abbrev pub error_toast : String → String → ToastRequest
error_toast title message = record {
  variant = error;
  title = title;
  message = some message;
  duration = none;
}

abbrev pub success_toast : ActionType → Option ToastRequest
success_toast release_deposit = some (onchain_toast "Deposit Released" "Deposit returned to tenant")
success_toast pay_rent = some (onchain_toast "Rent Paid" "Transaction confirmed")
success_toast expire_escrow = some (onchain_toast "Escrow Expired" "Deposit refunded to tenant")
success_toast open_dispute = none

abbrev pub show : ℕ → Option ToastRequest → ToastState → ToastState
show now none ts = ts
show now (some r) ts = add_toast now r ts

-- The part after the await, on what the hook gave: the state, the toasts, and whether
-- `onActionComplete` was called.
unfoldable pub end_action :
    ℕ → ActionType → Result String → DogState × ToastState → DogState × ToastState × Bool
end_action now type (ok sig) (d, ts) =
    (record d { is_open = false; loading = none }, show now (success_toast type) ts, true)
end_action now type (threw e) (d, ts) = (
  record d { loading = none },
  add_toast now (error_toast "Action failed" (message_of e "Transaction failed")) ts,
  false,
)

-- `handleDisputeSubmit` up to its await: the path and reason that are posted.
unfoldable pub begin_dispute : DogState → DogState × Option (String × String)
begin_dispute d = elim d.dispute_action [
  | none ↦ (d, none)
  | some a ↦
      if truthy (trim d.dispute_reason)
      then (
        record d { loading = some a.id },
        some ("/orders/" <> (a.order.id <> "/dispute"), trim d.dispute_reason),
      )
      else (d, none)
]

unfoldable pub end_dispute :
    ℕ → Result (Unit {0}) → DogState × ToastState → DogState × ToastState × Bool
end_dispute now (ok _) (d, ts) = (
  record { is_open = false; loading = none; dispute_action = none; dispute_reason = "" },
  add_toast now (onchain_toast "Dispute Opened" "Deposit frozen pending resolution") ts,
  true,
)
end_dispute now (threw e) (d, ts) = (
  record d { loading = none },
  add_toast now (error_toast "Dispute failed" (message_of e "Transaction failed")) ts,
  false,
)

-- The click on the dog, with the number of actions offered tested.
unfoldable pub toggle : Bool → DogState → DogState
toggle offers_any d =
    if not offers_any
    then d
    else if d.is_open
    then record d { is_open = false; dispute_action = none; dispute_reason = "" }
    else record d { is_open = true }

-- The field of the reason.
unfoldable pub enter_reason : String → DogState → DogState
enter_reason text d = record d { dispute_reason = text }

-- A click outside, or Escape.
unfoldable pub dismiss : DogState → DogState
dismiss d = record d { is_open = false; dispute_action = none; dispute_reason = "" }

-- The whole of `handleAction` for one click, with no other call of a hook between its parts: what
-- the three awaited promises give, and the time at which the toast is shown, are arguments.
pub record World : Type 0 where
  pub dog : DogState
  pub tx : TxState
  pub toasts : ToastState

abbrev pub finish :
    ℕ → ActionType → Option (Result String) → DogState → TxState → ToastState → World × Bool
finish now type none d tx ts = (record { dog = d; tx = tx; toasts = ts }, false)
finish now type (some r) d tx ts =
    let (d', ts', done) = end_action now type r (d, ts) in
    (record { dog = d'; tx = tx; toasts = ts' }, done)

module _ (c : Chain) (number : ℕ → c.Number) where
  abbrev pub run_hook :
      ℕ
      → ActionType
      → Option (Hook c)
      → Option c.Key
      → Result String
      → Result String
      → Result String
      → DogState
      → World
      → World × Bool
  run_hook now type none wallet r₁ r₂ r₃ d w = (record w { dog = d }, false)
  run_hook now type (some hook) wallet r₁ r₂ r₃ d w =
      let (p, tx) = run_from (hook wallet w.tx) r₁ r₂ r₃ in
      finish now type (outcome p) d tx w.toasts

  unfoldable pub handle_action :
      ℕ
      → MagicAction
      → Option c.Key
      → Result String
      → Result String
      → Result String
      → World
      → World × Bool
  unfolding begin_action end_action
  handle_action now a wallet r₁ r₂ r₃ w =
      let (d, hook) = begin_action c number a w.dog in
      run_hook now a.action_type hook wallet r₁ r₂ r₃ d w
