-- ===== src/Chat/Magic/Tests.antt =====
-- The quick actions' theorems at concrete inputs.
use decentrarent.Prelude.{
  ℕ, String, true, ◌&&◌, none, some, [], ◌∷◌, ◌≡◌, refl, any, ◌==◌, if◌then◌else◌,
}
use mathlib.Core.Option
use decentrarent.Prelude.Outcome.{Result, ok, threw, error_object}
use decentrarent.Orders.{Order, active}
use decentrarent.Toast.{initial_toasts}
use decentrarent.Escrow.{Chain, initial_tx, failed, units}
use decentrarent.Chat.Magic.{
  pay_rent, release_deposit, expire_escrow, rent_action, get_magic_actions,
}
use decentrarent.Chat.Magic.Offers.{is_offer, entitled, offered_exactly}
use decentrarent.Chat.Magic.Handlers.{World, perform, handle_action}
use decentrarent.Chat.Magic.Clicks.{Ended, ids_are_no_keys, click_ends}

abbrev lease : Order
lease = record {
  id = "o1";
  conversation_id = "c1";
  property_id = "p1";
  tenant_id = "u2";
  landlord_id = "u1";
  landlord_pk = "LPK";
  tenant_pk = "TPK";
  created_by = "u2";
  deposit_amount = 10;
  rent_amount = 5;
  token_mint = "SOL";
  escrow_status = active;
  escrow_address = "";
  tenant_signed = true;
  landlord_signed = true;
  sign_deadline = "1";
  rent_start_date = "2";
  rent_end_date = "3";
  dispute_reason = "";
  created_at = "0";
  updated_at = "0";
  tenant_signed_onchain = true;
  landlord_signed_onchain = true;
}

abbrev key : String → Result String
key s = if s == "u1" then threw (error_object "Invalid public key input") else ok s

abbrev toy : Chain
toy = record {
  Key = String;
  Big = ℕ;
  Number = ℕ;
  parse_key = key;
  key_bytes = units;
  big_number = λ n. ok n;
  get_program = λ k. ok tt;
  find_address = λ seeds. ok "escrow";
}

offered_exactly_example :
    any (is_offer pay_rent "o1") (get_magic_actions (λ s. none) 5 "u2" (lease ∷ []))
    ≡ any (λ o. o.id == "o1" && entitled (λ s. none) 5 "u2" pay_rent o) (lease ∷ [])
offered_exactly_example = offered_exactly (λ s. none) 5 "u2" pay_rent "o1" (lease ∷ [])

ids_are_no_keys_example :
    (Option.map (λ h. (h (some "W") initial_tx).0) (perform toy (λ n. n) release_deposit lease)
      ≡ some (failed (error_object "Invalid public key input")))
    × (Option.map (λ h. (h (some "W") initial_tx).0) (perform toy (λ n. n) expire_escrow lease)
        ≡ some (failed (error_object "Invalid public key input")))
ids_are_no_keys_example =
    ids_are_no_keys toy (λ n. n) lease "W" initial_tx (error_object "Invalid public key input") refl
      refl

abbrev screen : World
screen = record {
  dog = record { is_open = true; loading = none; dispute_action = none; dispute_reason = "" };
  tx = initial_tx;
  toasts = initial_toasts;
}

click_ends_example :
    let (after, done) =
      handle_action toy
        (λ n. n)
        5
        (rent_action lease)
        (some "T")
        (ok "hash")
        (ok "sig")
        (ok "")
        screen in
    Ended screen after done
click_ends_example =
    click_ends toy (λ n. n) 5 (rent_action lease) (some "T") (ok "hash") (ok "sig") (ok "") screen
      (λ e. cc)
