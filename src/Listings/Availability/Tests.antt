-- ===== src/Listings/Availability/Tests.antt =====
-- The availability's theorem at a concrete input: a lease over three days of February 2024.
use decentrarent.Prelude.{
  ℕ, ◌+◌, ◌-◌, String, true, some, [], ◌∷◌, ◌==◌, ◌≡◌, refl, arith, any, get_elem?, ltb,
  if◌then◌else◌,
}
use decentrarent.Orders.{Order, active}
use decentrarent.Orders.Draft.Calendar.{day_number, start_offset}
use decentrarent.Listings.Availability.{availability, covers, availability-covers}

abbrev lease : Order
lease = record {
  id = "o1";
  conversation_id = "c1";
  property_id = "p1";
  tenant_id = "u2";
  landlord_id = "u1";
  landlord_pk = "L";
  tenant_pk = "T";
  created_by = "u2";
  deposit_amount = 10;
  rent_amount = 5;
  token_mint = "SOL";
  escrow_status = active;
  escrow_address = "";
  tenant_signed = true;
  landlord_signed = true;
  sign_deadline = "1";
  rent_start_date = "27";
  rent_end_date = "29";
  dispute_reason = "";
  created_at = "0";
  updated_at = "0";
  tenant_signed_onchain = true;
  landlord_signed_onchain = true;
}

abbrev day_of : String → ℕ
day_of t = if t == "27" then 738942 else 738944

leap_day : day_number 2024 1 29 ≡ 738944
unfolding day_number
leap_day = refl

availability-covers_example :
    get_elem? (availability day_of (lease ∷ []) 738940 2024 1) (start_offset 2024 1 + (29 - 1))
    ≡ some (record {
      day = 29;
      booked = any (covers day_of (day_number 2024 1 29)) (lease ∷ []);
      past = ltb (day_number 2024 1 29) 738940;
    })
availability-covers_example =
    availability-covers day_of (lease ∷ []) 738940 2024 1 29 (omega arith) (omega arith)
