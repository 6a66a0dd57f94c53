-- ===== src/Orders/Card/Tests.antt =====
-- The card's theorems at concrete inputs, on the chain of the escrow's tests: any text but the empty
-- one is a key.
use decentrarent.Prelude.{
  ℕ, String, true, false, ◌&&◌, none, some, ◌≡◌, refl, any, truthy, if◌then◌else◌,
}
use decentrarent.Prelude.Outcome.{ok, threw, error_object}
use decentrarent.Toast.{initial_toasts}
use decentrarent.Orders.{Order, awaiting_signatures}
use decentrarent.Escrow.{Chain, initial_tx, units, get_escrow_pda}
use decentrarent.Escrow.Address.{WaitsFor}
use decentrarent.Orders.Card.{
  EscrowAccountData, initial_card, controls, data_of, refetch_escrow, should_read_chain,
}
use decentrarent.Orders.Card.Offers.{signing, shows, same, permitted, enabled, controls_exactly}
use decentrarent.Orders.Card.Handlers.{World, lock, sign, hook_of, handle_chain}
use decentrarent.Orders.Card.Accounts.{card_agrees, Ended, chain_click_ends}

abbrev lease : Order
lease = record {
  id = "00";
  conversation_id = "c1";
  property_id = "p1";
  tenant_id = "u2";
  landlord_id = "u1";
  landlord_pk = "L";
  tenant_pk = "T";
  created_by = "u2";
  deposit_amount = 10;
  rent_amount = 5;
  token_mint = "SOL";
  escrow_status = awaiting_signatures;
  escrow_address = "";
  tenant_signed = true;
  landlord_signed = true;
  sign_deadline = "1";
  rent_start_date = "2";
  rent_end_date = "3";
  dispute_reason = "";
  created_at = "0";
  updated_at = "0";
  tenant_signed_onchain = false;
  landlord_signed_onchain = true;
}

abbrev chain : Chain
chain = record {
  Key = String;
  Big = ℕ;
  Number = ℕ;
  parse_key = λ s. if truthy s then ok s else threw (error_object "Invalid public key input");
  key_bytes = units;
  big_number = λ n. ok n;
  get_program = λ k. ok tt;
  find_address = λ seeds. ok "escrow";
}

abbrev account : EscrowAccountData
account = record { landlord_signed = true; tenant_signed = false }

controls_exactly_example : any (shows signing true) (controls "u2" lease initial_card) ≡ (
    initial_card.visible
    && (permitted "u2" lease initial_card lease.escrow_status signing
        && same true (enabled "u2" lease initial_card signing)))
controls_exactly_example = controls_exactly "u2" lease initial_card signing true

card_agrees_example :
    WaitsFor chain "escrow"
      (hook_of chain (λ n. n) (λ t. 0) "A" lock "u2" lease none (some "T") initial_tx).0
    × WaitsFor chain "escrow"
        (hook_of chain (λ n. n) (λ t. 0) "A" sign "u2" lease none (some "T") initial_tx).0
    × WaitsFor chain "escrow"
        (hook_of chain (λ n. n) (λ t. 0) "A" sign "u1" lease none (some "L") initial_tx).0
    × (refetch_escrow chain (λ k. ok account) (some "W") lease none ≡ data_of (ok account))
card_agrees_example =
    card_agrees chain (λ n. n) (λ t. 0) "A" (λ k. ok account) lease none "u1" "A" "L" "T" "escrow"
      "W" initial_tx none refl refl refl refl (unfold get_escrow_pda in refl) (λ k. refl)
      (unfold should_read_chain in refl)

abbrev screen : World chain (λ n. n) (λ t. 0) "A"
screen = record { card = initial_card; tx = initial_tx; toasts = initial_toasts }

chain_click_ends_example :
    let (after, updated) =
      handle_chain chain
        (λ n. n)
        (λ t. 0)
        "A"
        0
        (λ k. ok account)
        sign
        "u2"
        none
        (some "T")
        lease
        (ok "hash")
        (ok "sig")
        (ok "")
        screen in
    Ended chain (λ n. n) (λ t. 0) "A" screen after updated
chain_click_ends_example =
    chain_click_ends chain (λ n. n) (λ t. 0) "A" 0 (λ k. ok account) sign "u2" none (some "T") lease
      (ok "hash") (ok "sig") (ok "") screen
