-- ===== src/Orders/Card/Accounts.antt =====
-- The chain's side of a card: which account its actions and its reading address, and how they end.
use decentrarent.Prelude.{
  ℕ, ◌+◌, String, Bool, true, false, Option, some, ◌≡◌, refl, length, length-append, truthy, ◌==◌,
  ◌&&◌, ap, eq_refl, Bool-cases, inl, inr,
}
use decentrarent.Prelude.Outcome.{Result, ok}
use decentrarent.Toast.{add_toast}
use decentrarent.Orders.{Order}
use decentrarent.Properties.{Property}
use decentrarent.Escrow.{
  Chain, TxState, confirmed, error, Phase, at_blockhash, at_rpc, at_confirm, returned, failed,
  get_escrow_pda, lock_deposit, tenant_sign, landlord_sign, PayRentParams, Ix,
}
use decentrarent.Escrow.Solo.{Settled, outcome, run_settles}
use decentrarent.Escrow.Address.{WaitsFor, hooks_agree_on_escrow}
use decentrarent.Orders.Card.{
  EscrowAccountData, should_read_chain, read_escrow, data_of, refetch_escrow, is_tenant,
}
use decentrarent.Orders.Card.Handlers.{
  ChainAction, lock, sign, hook_of, lock_params, end_chain, World, finish, handle_chain,
}

module _ (c : Chain) (number : ℕ → c.Number) (seconds : String → c.Number)
    (authority : String) where
  open c use {Key, parse_key, get_program}

  -- On one order, the tenant's lock and signature, the landlord's signature and the reading of the
  -- account all address the escrow account that is derived from the order's two public keys and its
  -- id. The keys parse, the derivation succeeds and the program object can be made; the reading is
  -- that of an order whose status asks for it.
  pub card_agrees :
      (read : Key → Result EscrowAccountData) (o : Order) (property : Option Property)
      (landlord_user : String) (k l t a w : Key) (s : TxState) (old : Option EscrowAccountData)
      → landlord_user == o.tenant_id ≡ false
      → parse_key authority ≡ ok k
      → parse_key o.landlord_pk ≡ ok l
      → parse_key o.tenant_pk ≡ ok t
      → get_escrow_pda c l t o.id ≡ ok a
      → ((x : Key) → get_program x ≡ ok tt)
      → should_read_chain o && truthy o.landlord_pk && truthy o.tenant_pk && truthy o.id ≡ true
      → WaitsFor c a (hook_of c number seconds authority lock o.tenant_id o property (some t) s).0
        × WaitsFor c a (hook_of c number seconds authority sign o.tenant_id o property (some t) s).0
        × WaitsFor c a
            (hook_of c number seconds authority sign landlord_user o property (some l) s).0
        × (refetch_escrow c read (some w) o old ≡ data_of (read a))
  unfolding hook_of refetch_escrow read_escrow
  card_agrees read o property landlord_user k l t a w s old other hk hl ht ha hp asks =
      let rent : PayRentParams c = record {
        landlord_pubkey = o.landlord_pk;
        order_id = o.id;
        amount_lamports = number o.rent_amount;
      } in
      let agreed =
        hooks_agree_on_escrow c o.landlord_pk o.tenant_pk o.id "" l t a w s
          (lock_params c number seconds authority o property) rent refl refl refl refl k hk hl ht ha
          hp in
      (
        agreed.0,
        rw (eq_refl o.tenant_id) agreed.1,
        rw other agreed.2,
        rw (asks, hp w, hl, ht, ha) refl,
      )

  -- What a finished click leaves: the button is free again and one more toast is shown; the list of
  -- orders is asked for again exactly when the transaction store says confirmed, and a click that
  -- failed leaves what the card knows of the account.
  pub record Ended (before after : World c number seconds authority) (updated : Bool) : Type 0 where
    pub free : after.card.loading ≡ false
    pub told : length after.toasts.toasts ≡ length before.toasts.toasts + 1
    pub complete : updated ≡ true → after.tx.status ≡ confirmed
    pub incomplete :
        updated ≡ false
        → (after.tx.status ≡ error) × (after.card.escrow_data ≡ before.card.escrow_data)

  finish-Ended :
      (now : ℕ) (read : Key → Result EscrowAccountData) (a : ChainAction) (wallet : Option Key)
      (o : Order) (w : World c number seconds authority) (p : Phase (Ix c)) (tx : TxState)
      → Settled (p, tx)
      → let (after, updated) =
          finish c number seconds authority now read a wallet o
            (outcome p)
            (record w { card = record w.card { loading = true }; tx = tx }) in
        Ended w after updated
  unfolding end_chain add_toast
  finish-Ended now read a wallet o w (returned sig) tx settled = record {
    free = refl;
    told = length-append w.toasts.toasts _;
    complete = λ _. ap (λ t. t.status) settled;
    incomplete = λ never. cc;
  }
  finish-Ended now read a wallet o w (failed e) tx settled = record {
    free = refl;
    told = length-append w.toasts.toasts _;
    complete = λ never. cc;
    incomplete = λ _. (settled.0, refl);
  }
  finish-Ended now read a wallet o w (at_blockhash _) tx settled = absurd settled
  finish-Ended now read a wallet o w (at_rpc _ _) tx settled = absurd settled
  finish-Ended now read a wallet o w (at_confirm _ _) tx settled = absurd settled

  -- A click on the lock or on the signature ends, whatever the wallet, the network and the chain
  -- answer, with the button free, one more toast, and an update exactly on success.
  pub chain_click_ends :
      (now : ℕ) (read : Key → Result EscrowAccountData) (a : ChainAction) (user : String)
      (property : Option Property) (wallet : Option Key) (o : Order) (r₁ r₂ r₃ : Result String)
      (w : World c number seconds authority)
      → let (after, updated) =
          handle_chain c number seconds authority now read a user property wallet o r₁ r₂ r₃ w in
        Ended w after updated
  unfolding handle_chain hook_of lock_deposit tenant_sign landlord_sign
  chain_click_ends now read lock user property wallet o r₁ r₂ r₃ w =
      finish-Ended now read lock wallet o w _ _ (run_settles c _ wallet w.tx r₁ r₂ r₃).0
  chain_click_ends now read sign user property wallet o r₁ r₂ r₃ w =
      elim (Bool-cases (is_tenant user o)) [
        | inl tenant ↦
            rw tenant
              (finish-Ended now read sign wallet o w _ _ (run_settles c _ wallet w.tx r₁ r₂ r₃).0)
        | inr landlord ↦
            rw landlord
              (finish-Ended now read sign wallet o w _ _ (run_settles c _ wallet w.tx r₁ r₂ r₃).0)
      ]
