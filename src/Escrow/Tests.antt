-- ===== src/Escrow/Tests.antt =====
-- The escrow's theorems at concrete inputs, over a chain whose keys are texts: any text but the empty
-- one is a key, and one address serves all seeds.
use decentrarent.Prelude.{
  ℕ, String, true, false, none, some, List, [], ◌∷◌, ◌≡◌, refl, arith, truthy, if◌then◌else◌, foldl,
}
use decentrarent.Prelude.Outcome.{Result, ok, threw, error_object, other}
use decentrarent.Escrow.Store.{initial_tx, confirmed}
use decentrarent.Escrow.Pda.{units, uuid_to_bytes, bytes_to_uuid}
use decentrarent.Escrow.Instructions.{
  Chain, get_escrow_pda, LockDepositParams, PayRentParams, PartiesParams, DisputeParams,
}
use decentrarent.Escrow.Run.{
  Phase, at_confirm, at_blockhash, returned, resume, run_from, transaction, Prepare, Ix,
  lock_deposit, tenant_sign, landlord_sign, pay_rent, release_deposit, expire_escrow, open_dispute,
  resolve_dispute_tenant, resolve_dispute_landlord,
}
use decentrarent.Escrow.Bytes.{uuid_round_trip}
use decentrarent.Escrow.Solo.{Settled, outcome, run_settles}
use decentrarent.Escrow.Address.{WaitsFor, hooks_agree_on_escrow}
use decentrarent.Escrow.Shared.{
  Pair, Turn, take_turn, advance, interleaving_keeps_calls, overlap_loses_signature,
}

abbrev sixteen : List ℕ
sixteen = 0 ∷ 1 ∷ 2 ∷ 3 ∷ 4 ∷ 5 ∷ 6 ∷ 7 ∷ 8 ∷ 9 ∷ 10 ∷ 171 ∷ 205 ∷ 239 ∷ 254 ∷ 255 ∷ []

uuid_text : bytes_to_uuid sixteen ≡ units "00010203-0405-0607-0809-0aabcdeffeff"
unfolding bytes_to_uuid
uuid_text = refl

uuid_round_trip_example : uuid_to_bytes (bytes_to_uuid sixteen) ≡ sixteen
uuid_round_trip_example = uuid_round_trip sixteen refl (omega arith)

abbrev toy_key : String → Result String
toy_key s = if truthy s then ok s else threw (error_object "Invalid public key input")

abbrev toy : Chain
toy = record {
  Key = String;
  Big = ℕ;
  Number = ℕ;
  parse_key = toy_key;
  key_bytes = units;
  big_number = λ n. ok n;
  get_program = λ k. ok tt;
  find_address = λ seeds. ok "escrow";
}

abbrev sign : Prepare toy
sign wallet = threw other

run_settles_example :
    let end =
      run_from (transaction toy sign (some "T") initial_tx) (ok "hash") (ok "sig") (ok "") in
    Settled end × (outcome end.0 ≡ some (threw other))
run_settles_example = run_settles toy sign (some "T") initial_tx (ok "hash") (ok "sig") (ok "")

abbrev lock_params : LockDepositParams toy
lock_params = record {
  order_id = "00";
  landlord_pubkey = "L";
  authority_pubkey = "A";
  deposit_lamports = 10;
  deadline_ts = 1;
  period = 2;
  start_date = 3;
  end_date = 4;
  price_rent = 5;
}

abbrev rent_params : PayRentParams toy
rent_params = record { landlord_pubkey = "L"; order_id = "00"; amount_lamports = 5 }

abbrev both : PartiesParams
both = record { landlord_pubkey = "L"; tenant_pubkey = "T"; order_id = "00" }

abbrev quarrel : DisputeParams
quarrel = record { landlord_pubkey = "L"; tenant_pubkey = "T"; order_id = "00"; reason = "noise" }

hooks_agree_on_escrow_example :
    WaitsFor toy "escrow" (lock_deposit toy lock_params (some "T") initial_tx).0
    × WaitsFor toy "escrow"
        (tenant_sign toy
          (record { landlord_pubkey = "L"; order_id = "00" })
          (some "T")
          initial_tx).0
    × WaitsFor toy "escrow"
        (landlord_sign toy
          (record { tenant_pubkey = "T"; order_id = "00" })
          (some "L")
          initial_tx).0
    × WaitsFor toy "escrow" (pay_rent toy rent_params (some "T") initial_tx).0
    × WaitsFor toy "escrow" (release_deposit toy both (some "W") initial_tx).0
    × WaitsFor toy "escrow" (expire_escrow toy both (some "W") initial_tx).0
    × WaitsFor toy "escrow" (open_dispute toy quarrel (some "W") initial_tx).0
    × WaitsFor toy "escrow" (resolve_dispute_tenant toy quarrel (some "W") initial_tx).0
    × WaitsFor toy "escrow" (resolve_dispute_landlord toy quarrel (some "W") initial_tx).0
hooks_agree_on_escrow_example =
    hooks_agree_on_escrow toy "L" "T" "00" "noise" "L" "T" "escrow" "W" initial_tx lock_params
      rent_params refl refl refl refl "A" refl refl refl (unfold get_escrow_pda in refl) (λ k. refl)

abbrev waiting_left : Phase (Ix toy)
waiting_left = at_confirm "sig" "hash"

abbrev waiting_right : Phase (Ix toy)
waiting_right = at_blockhash (threw other)

abbrev confirming_pair : Pair (Ix toy)
confirming_pair = record { left = waiting_left; right = waiting_right; store = initial_tx }

abbrev turns : List Turn
turns = (false, ok "hash") ∷ (true, ok "") ∷ []

interleaving_keeps_calls_example :
    ((foldl take_turn confirming_pair turns).left ≡ foldl advance waiting_left (ok "" ∷ []))
    × ((foldl take_turn confirming_pair turns).right ≡ foldl advance waiting_right (ok "hash" ∷ []))
interleaving_keeps_calls_example = interleaving_keeps_calls turns confirming_pair

overlap_loses_signature_example :
    resume {Ix = Ix toy}
      (at_confirm "sig" "hash")
      (ok "")
      (transaction toy (λ k. ok (threw other)) (some "T") initial_tx).1
    ≡ (returned "sig", record { status = confirmed; signature = none; message = none })
overlap_loses_signature_example =
    overlap_loses_signature toy (λ k. ok (threw other)) "T" (threw other) "sig" "hash" "" initial_tx
      refl refl
