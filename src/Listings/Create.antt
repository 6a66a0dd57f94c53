-- ===== src/Listings/Create.antt =====
-- frontend/src/pages/CreateListingPage.tsx: its form, the checks of `handleSave`, and the upload of the
-- images. What the network answers is an argument; the calls are a trace.
pub mod Uploads
pub mod Previews
pub mod Held
pub mod Progress
mod Tests
use Prim.Native.Nat.{◌^◌}
use decentrarent.Prelude.{
  ℕ, String, Bool, true, false, not, ◌||◌, Option, none, some, List, [], ◌∷◌, ◌++◌, if◌then◌else◌,
  truthy, length,
}
use decentrarent.Prelude.Outcome.{Result, ok, threw, Thrown, message_of}
use decentrarent.Properties.{Numbers}

pub data TokenMint : Type 0 where
  sol usdc usdt : TokenMint

-- `decimals` of TOKEN_INFO in frontend/src/features/properties/utils.ts.
unfoldable pub token_decimals : TokenMint → ℕ
token_decimals sol = 9
token_decimals usdc = 6
token_decimals usdt = 6

pub data PeriodType : Type 0 where
  minute hour day month : PeriodType

pub record ListingForm : Type 0 where
  pub title : String
  pub location : String
  pub description : String
  pub price : String
  pub security_deposit : String
  pub token_mint : TokenMint
  pub period_type : PeriodType

pub record CreatePropertyRequest : Type 0 where
  pub title : String
  pub description : String
  pub location : String
  pub price : ℕ
  pub deposit_price : ℕ
  pub token_mint : TokenMint
  pub period_type : PeriodType

unfoldable pub initial_form : ListingForm
initial_form = record {
  title = "";
  location = "";
  description = "";
  price = "";
  security_deposit = "";
  token_mint = sol;
  period_type = month;
}

-- A key of the form with a value for it.
pub data FormEntry : Type 0 where
  title_entry location_entry description_entry price_entry deposit_entry : String → FormEntry
  token_entry : TokenMint → FormEntry
  period_entry : PeriodType → FormEntry

-- `set(k, v)`
unfoldable pub set_entry : FormEntry → ListingForm → ListingForm
set_entry (title_entry v) p = record p { title = v }
set_entry (location_entry v) p = record p { location = v }
set_entry (description_entry v) p = record p { description = v }
set_entry (price_entry v) p = record p { price = v }
set_entry (deposit_entry v) p = record p { security_deposit = v }
set_entry (token_entry v) p = record p { token_mint = v }
set_entry (period_entry v) p = record p { period_type = v }

-- The file of an image preview, by its name.
abbrev pub Image : Type 0
Image = String

-- What is called, in order.
pub data Call : Type 0 where
  created : CreatePropertyRequest → Call
  asked_url : String → Image → Call
  put_file : String → Image → Call
  registered : String → String → Call

-- What the three awaits of one image give: the address and key for the upload, then nothing, twice.
pub record ImageAnswers : Type 0 where
  pub url : Result (String × String)
  pub put : Result (Unit {0})
  pub register : Result (Unit {0})

abbrev pub register_one :
    String → String → ImageAnswers → Result (Unit {0}) → List Call × Result (Unit {0})
register_one id key a (threw e) = ([], threw e)
register_one id key a (ok _) = (registered id key ∷ [], a.register)

abbrev pub put_one :
    String → Image → ImageAnswers → Result (String × String) → List Call × Result (Unit {0})
put_one id img a (threw e) = ([], threw e)
put_one id img a (ok (upload_url, file_key)) =
    let (calls, r) = register_one id file_key a a.put in (put_file upload_url img ∷ calls, r)

abbrev pub upload_one : String → Image × ImageAnswers → List Call × Result (Unit {0})
upload_one id (img, a) = let (calls, r) = put_one id img a a.url in (asked_url id img ∷ calls, r)

abbrev pub go_on :
    List Call × Result (Unit {0}) → List Call × Result (Unit {0}) → List Call × Result (Unit {0})
go_on (calls, threw e) rest = (calls, threw e)
go_on (calls, ok _) (more, r) = (calls ++ more, r)

-- `uploadImages`: the loop stops at the first image of which something throws.
unfoldable pub upload_images : String → List (Image × ImageAnswers) → List Call × Result (Unit {0})
upload_images id [] = ([], ok tt)
upload_images id (i ∷ is) = let rest = upload_images id is in go_on (upload_one id i) rest

pub record SaveState : Type 0 where
  pub saving : Bool
  pub success : Bool
  pub error : Option String

-- After the `try`; a failure leaves `success` as it was.
abbrev pub saved : SaveState → List Call × Result (Unit {0}) → SaveState × List Call
saved s (calls, ok _) = (record { saving = false; success = true; error = none }, calls)
saved s (calls, threw e) =
    (record s { saving = false; error = some (message_of e "Failed to create listing.") }, calls)

abbrev pub after_create :
    SaveState
    → CreatePropertyRequest
    → List (Image × ImageAnswers)
    → Result String
    → SaveState × List Call
after_create s r images (threw e) = saved s (created r ∷ [], threw e)
after_create s r images (ok id) =
    let (calls, result) = upload_images id images in saved s (created r ∷ calls, result)

abbrev pub save_checked :
    SaveState
    → List (Image × ImageAnswers)
    → Result String
    → Result CreatePropertyRequest
    → SaveState × List Call
save_checked s images answer (threw e) = (record s { error = some (message_of e "") }, [])
save_checked s images answer (ok r) = after_create s r images answer

module _ (n : Numbers) (parse_float : String → Option n.Num)
    (is_positive is_negative : n.Num → Bool) where
  open n use {Num, times, round}

  unfoldable pub smallest : Num → TokenMint → ℕ
  unfolding token_decimals
  smallest amount mint = round (times amount (10 ^ token_decimals mint))

  abbrev pub checked_deposit : ListingForm → Num → Option Num → Result CreatePropertyRequest
  checked_deposit f price none =
      threw (Thrown.error_object "Security deposit must be a positive number.")
  checked_deposit f price (some deposit) =
      if is_negative deposit
      then threw (Thrown.error_object "Security deposit must be a positive number.")
      else ok (record {
        title = f.title;
        description = f.description;
        location = f.location;
        price = smallest price f.token_mint;
        deposit_price = smallest deposit f.token_mint;
        token_mint = f.token_mint;
        period_type = f.period_type;
      })

  abbrev pub checked_price : ListingForm → Option Num → Result CreatePropertyRequest
  checked_price f none = threw (Thrown.error_object "Monthly rent must be a positive number.")
  checked_price f (some price) =
      if is_positive price
      then checked_deposit f price (parse_float f.security_deposit)
      else threw (Thrown.error_object "Monthly rent must be a positive number.")

  -- The checks before the request, with the text of the first that fails.
  unfoldable pub checked : ListingForm → Result CreatePropertyRequest
  checked f =
      if not (truthy f.title)
        || not (truthy f.location)
        || not (truthy f.price)
        || not (truthy f.security_deposit)
      then threw
          (Thrown.error_object "Title, location, monthly rent, and security deposit are required.")
      else checked_price f (parse_float f.price)

  -- `handleSave`, on what the creation gives (the property's id) and on what each image's awaits give.
  unfoldable pub handle_save :
      Option String
      → ListingForm
      → List (Image × ImageAnswers)
      → Result String
      → SaveState
      → SaveState × List Call
  unfolding checked upload_images
  handle_save none f images answer s =
      (record s { error = some "You must be logged in to create a listing." }, [])
  handle_save (some token) f images answer s =
      if truthy token
      then save_checked s images answer (checked f)
      else (record s { error = some "You must be logged in to create a listing." }, [])
