-- ===== src/Chat/Magic/Clicks.antt =====
-- What a click on a quick action leads to.
use decentrarent.Prelude.{
  ℕ, ◌+◌, String, Bool, true, false, Option, none, some, ◌≡◌, ◌≢◌, refl, length, length-append, ap,
}
use mathlib.Core.Option
use decentrarent.Prelude.Outcome.{Result, ok, threw, Thrown}
use decentrarent.Orders.{Order}
use decentrarent.Toast.{ToastState, add_toast, ToastRequest}
use decentrarent.Escrow.{
  Chain, TxState, confirmed, error, Phase, at_blockhash, at_rpc, at_confirm, returned, failed,
  transaction, release_deposit as release_hook, expire_escrow as expire_hook, pay_rent as pay_hook,
}
use decentrarent.Escrow.Solo.{Settled, outcome, run_settles}
use decentrarent.Chat.Magic.{
  ActionType, pay_rent, release_deposit, open_dispute, expire_escrow, MagicAction,
}
use decentrarent.Chat.Magic.Handlers.{
  DogState, World, perform, finish, end_action, handle_action, success_toast,
}

-- The return of the deposit and the expiry of an escrow pass the parties' user ids where the hooks
-- want public keys: for every order whose landlord's id is no public key, each of the two calls
-- fails before anything is sent, with the error that the key gives.
pub ids_are_no_keys :
    (c : Chain) (number : ℕ → c.Number) (o : Order) (wallet : c.Key) (s : TxState) (e : Thrown)
    → c.get_program wallet ≡ ok tt
    → c.parse_key o.landlord_id ≡ threw e
    → (Option.map (λ h. (h (some wallet) s).0) (perform c number release_deposit o)
        ≡ some (failed e))
      × (Option.map (λ h. (h (some wallet) s).0) (perform c number expire_escrow o)
          ≡ some (failed e))
unfolding perform release_hook expire_hook transaction
ids_are_no_keys c number o wallet s e hp hk = (rw (hp, hk) refl, rw (hp, hk) refl)

-- What a finished click leaves: the button is free again and one more toast is shown; the action
-- counts as complete exactly when the transaction store says confirmed, and then the menu is shut.
pub record Ended (before after : World) (done : Bool) : Type 0 where
  pub free : after.dog.loading ≡ none
  pub told : length after.toasts.toasts ≡ length before.toasts.toasts + 1
  pub complete : done ≡ true → (after.tx.status ≡ confirmed) × (after.dog.is_open ≡ false)
  pub incomplete :
      done ≡ false → (after.tx.status ≡ error) × (after.dog.is_open ≡ before.dog.is_open)

count-added :
    (now : ℕ) (r : ToastRequest) (ts : ToastState)
    → length (add_toast now r ts).toasts ≡ length ts.toasts + 1
unfolding add_toast
count-added now r ts = length-append ts.toasts _

finish-Ended :
    {Ix : Type 0} (now : ℕ) (type : ActionType) (toast : ToastRequest) (d : DogState) (w : World)
    (p : Phase Ix) (tx : TxState)
    → success_toast type ≡ some toast
    → d.is_open ≡ w.dog.is_open
    → Settled (p, tx)
    → let (after, done) = finish now type (outcome p) d tx w.toasts in Ended w after done
unfolding end_action
finish-Ended now type toast d w (returned sig) tx shown same settled = record {
  free = refl;
  told = rw shown (count-added now toast w.toasts);
  complete = λ _. (ap (λ t. t.status) settled, refl);
  incomplete = λ no_way. cc;
}
finish-Ended now type toast d w (failed e) tx shown same settled = record {
  free = refl;
  told = count-added now _ w.toasts;
  complete = λ no_way. cc;
  incomplete = λ _. (settled.0, same);
}
finish-Ended now type toast d w (at_blockhash _) tx shown same settled = absurd settled
finish-Ended now type toast d w (at_rpc _ _) tx shown same settled = absurd settled
finish-Ended now type toast d w (at_confirm _ _) tx shown same settled = absurd settled

-- A click on any action but the dispute ends, whatever the wallet and the chain answer, with the
-- button free, one more toast, and the menu shut exactly on success.
pub click_ends :
    (c : Chain) (number : ℕ → c.Number) (now : ℕ) (a : MagicAction) (wallet : Option c.Key)
    (r₁ r₂ r₃ : Result String) (w : World)
    → a.action_type ≢ open_dispute
    → let (after, done) = handle_action c number now a wallet r₁ r₂ r₃ w in Ended w after done
unfolding handle_action release_hook pay_hook expire_hook
click_ends c number now a wallet r₁ r₂ r₃ w ne = ends a.action_type refl
  where
    d : DogState
    d = record w.dog { loading = some a.id }

    ends :
        (type : ActionType)
        → a.action_type ≡ type
        → let (after, done) = handle_action c number now a wallet r₁ r₂ r₃ w in Ended w after done
    ends release_deposit e = rw e (
        finish-Ended now release_deposit _ d w _ _ refl refl
          (run_settles c _ wallet w.tx r₁ r₂ r₃).0)
    ends pay_rent e =
        rw e
          (finish-Ended now pay_rent _ d w _ _ refl refl (run_settles c _ wallet w.tx r₁ r₂ r₃).0)
    ends expire_escrow e = rw e (
        finish-Ended now expire_escrow _ d w _ _ refl refl (run_settles c _ wallet w.tx r₁ r₂ r₃).0)
    ends open_dispute e = absurd (ne e)
