-- ===== src/Escrow/Solo.antt =====
-- A call of a hook by itself: how it ends, and what it sends.
use decentrarent.Prelude.{String, Option, none, some, ◌≡◌, refl, ap, ◌∙◌}
use decentrarent.Prelude.Outcome.{Result, ok, threw, error_object, message_of, ◌>>=◌}
use decentrarent.Escrow.Store.{
  TxState, confirmed, error, set_signing, set_confirming, set_confirmed, set_error, reset,
}
use decentrarent.Escrow.Instructions.{Chain}
use decentrarent.Escrow.Run.{
  Phase, at_blockhash, at_rpc, at_confirm, returned, failed, resume, run_from, transaction, Prepare,
  prepared,
}

-- How a settled call has left the store.
abbrev pub Settled : {Ix : Type 0} → Phase Ix × TxState → Type 0
Settled (returned sig, s) = s ≡ record { status = confirmed; signature = some sig; message = none }
Settled (failed e, s) = (s.status ≡ error) × (s.message ≡ some (message_of e "Transaction failed"))
Settled (at_blockhash _, s) = ⊥
Settled (at_rpc _ _, s) = ⊥
Settled (at_confirm _ _, s) = ⊥

-- The straight line of a hook's `try` block: its value, or what it throws.
abbrev pub connected : {Key : Type 0} → Option Key → Result Key
connected none = threw (error_object "Wallet not connected")
connected (some w) = ok w

abbrev pub awaited {ℓ} :
    {Ix : Type ℓ}
    → Result (Result Ix)
    → Result String
    → Result String
    → Result String
    → Result String
awaited prepared r₁ r₂ r₃ = do
  later ← prepared
  blockhash ← r₁
  ix ← later
  sig ← r₂
  confirmation ← r₃
  ok sig

-- What a settled phase gives to the caller of the hook.
abbrev pub outcome : {Ix : Type 0} → Phase Ix → Option (Result String)
outcome (returned sig) = some (ok sig)
outcome (failed e) = some (threw e)
outcome (at_blockhash _) = none
outcome (at_rpc _ _) = none
outcome (at_confirm _ _) = none

prepared_settles :
    {Ix : Type 0} (m : Result (Result Ix)) (s : TxState) (r₁ r₂ r₃ : Result String)
    → Settled (run_from (prepared m s) r₁ r₂ r₃)
      × (outcome (run_from (prepared m s) r₁ r₂ r₃).0 ≡ some (awaited m r₁ r₂ r₃))
unfolding prepared run_from resume set_confirming set_confirmed set_error
prepared_settles (threw e) s r₁ r₂ r₃ = ((refl, refl), refl)
prepared_settles (ok later) s (threw e) r₂ r₃ = ((refl, refl), refl)
prepared_settles (ok (threw e)) s (ok h) r₂ r₃ = ((refl, refl), refl)
prepared_settles (ok (ok ix)) s (ok h) (threw e) r₃ = ((refl, refl), refl)
prepared_settles (ok (ok ix)) s (ok h) (ok sig) (threw e) = ((refl, refl), refl)
prepared_settles (ok (ok ix)) s (ok h) (ok sig) (ok _) = (refl, refl)

module _ (c : Chain) where
  open c use {Key, get_program}

  -- A call of a hook that no other call interrupts settles after its three awaits, whatever the
  -- wallet, the network and the chain answer: it returns a signature, and the store says that this
  -- signature is confirmed with no error; or it throws, and the store holds the error's message.
  -- What it returns or throws is what its steps, written in a line, give.
  pub run_settles :
      (prepare : Prepare c) (wallet : Option Key) (s : TxState) (r₁ r₂ r₃ : Result String)
      → let end = run_from (transaction c prepare wallet s) r₁ r₂ r₃ in
        Settled end
        × (outcome end.0
            ≡ some (do w ← connected wallet; program ← get_program w; awaited (prepare w) r₁ r₂ r₃))
  unfolding transaction
  run_settles prepare none s r₁ r₂ r₃ = unfold run_from resume set_error in ((refl, refl), refl)
  run_settles prepare (some w) s r₁ r₂ r₃ =
      let (settled, same) =
        prepared_settles (get_program w >>= λ _. prepare w) (set_signing (reset s)) r₁ r₂ r₃ in
      (settled, same ∙ ap some (after_program (get_program w)))
    where
      after_program :
          (g : Result (Unit {0}))
          → awaited (g >>= λ _. prepare w) r₁ r₂ r₃ ≡ (do program ← g; awaited (prepare w) r₁ r₂ r₃)
      after_program (ok _) = refl
      after_program (threw e) = refl
