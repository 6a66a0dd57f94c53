-- ===== src/Listings/Detail/Tests.antt =====
-- The page's theorem at a concrete input: a status that the server refuses to change.
use decentrarent.Prelude.{false, none, some, [], ◌≡◌, refl}
use decentrarent.Prelude.Outcome.{ok, threw, error_object}
use decentrarent.Properties.{Property}
use decentrarent.Listings.Detail.{Detail, Answers, new_status}

abbrev home : Property
home = record {
  id = "p1";
  landlord_id = "u1";
  title = "Home";
  description = "";
  location = "Here";
  price = 5;
  deposit_price = 10;
  token_mint = "SOL";
  period_type = "month";
  status = "available";
  verification_status = "verified";
  media = [];
  created_at = "0";
  updated_at = "0";
}

to_archive : new_status home ≡ "archive"
unfolding new_status
to_archive = refl

abbrev page : Detail
page = record {
  property = some home;
  error = none;
  editing = false;
  edit_form = record { title = "Home"; description = ""; location = "Here"; price = "5" };
  saving = false;
  deleting = false;
  toggling_status = false;
  uploading = false;
  deleting_media = none;
  contacting = false;
}

abbrev refusals : Answers
refusals = record {
  property_answer = threw (error_object "forbidden");
  delete_answer = ok tt;
  conversation_answer = ok "c1";
}
