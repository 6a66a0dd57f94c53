-- ===== src/Orders/Disputes/Tests.antt =====
-- The theorem on disputes at a concrete input.
use decentrarent.Prelude.{true, false, [], ◌∷◌, ◌≡◌, refl}
use decentrarent.Toast.{initial_toasts}
use decentrarent.Orders.Types.{Order, disputed}
use decentrarent.Orders.Disputes.{Screen, initial_page, escrow_text}

abbrev quarrel : Order
quarrel = record {
  id = "o1";
  conversation_id = "c1";
  property_id = "p1";
  tenant_id = "u2";
  landlord_id = "u1";
  landlord_pk = "L";
  tenant_pk = "T";
  created_by = "u1";
  deposit_amount = 10;
  rent_amount = 5;
  token_mint = "SOL";
  escrow_status = disputed;
  escrow_address = "abcdefghijkl";
  tenant_signed = true;
  landlord_signed = true;
  sign_deadline = "9";
  rent_start_date = "1";
  rent_end_date = "5";
  dispute_reason = "";
  created_at = "0";
  updated_at = "0";
  tenant_signed_onchain = true;
  landlord_signed_onchain = true;
}

abbrev court : Screen
court = record {
  card = record { loading = false; nav_loading = false; reason = " broken door " };
  page = record initial_page { orders = quarrel ∷ [] };
  toasts = initial_toasts;
}

shortened : escrow_text quarrel ≡ "abcdef...ijkl ↗"
unfolding escrow_text
shortened = refl
