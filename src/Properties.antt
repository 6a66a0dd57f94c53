-- ===== src/Properties.antt =====
-- The data of frontend/src/features/properties/types.ts, and the amounts of frontend/src/lib/tokenAmount.ts.
-- A number of the language that may have a fraction is a value of the interface `Numbers`.
use Prim.Native.Nat.{◌^◌}
use decentrarent.Prelude.{
  ℕ, String, Bool, List, ◌==◌, ◌≡◌, if◌then◌else◌, arith, eq_iff, refl, Bool-cases, inl, inr,
}

pub record PropertyMedia : Type 0 where
  pub id : String
  pub url : String
  pub sort_order : ℕ

pub record Property : Type 0 where
  pub id : String
  pub landlord_id : String
  pub title : String
  pub description : String
  pub location : String
  pub price : ℕ
  pub deposit_price : ℕ
  pub token_mint : String
  pub period_type : String
  pub status : String
  pub verification_status : String
  pub media : List PropertyMedia
  pub created_at : String
  pub updated_at : String

-- IEEE numbers: `Number(text)`, `String(x)`, a product and a quotient with a whole number, and
-- `Math.round` of what is not negative.
pub record Numbers : Type 1 where
  pub Num : Type 0
  pub number : String → Num
  pub text_of : Num → String
  pub whole : ℕ → Num
  pub times : Num → ℕ → Num
  pub over : Num → ℕ → Num
  pub round : Num → ℕ

-- `DECIMALS[tokenMint] ?? 1_000_000_000`
unfoldable pub decimals_for : String → ℕ
decimals_for token_mint =
    if token_mint == "SOL"
    then 1000000000
    else if token_mint == "USDC"
    then 1000000
    else if token_mint == "USDT"
    then 1000000
    else 1000000000

module _ (n : Numbers) where
  open n use {Num, text_of, whole, times, over, round}

  unfoldable pub to_display_amount : ℕ → String → String
  to_display_amount base_units token_mint =
      text_of (over (whole base_units) (decimals_for token_mint))

  unfoldable pub to_base_units : Num → String → ℕ
  to_base_units amount token_mint = round (times amount (decimals_for token_mint))

-- `TOKEN_INFO[tokenMint] || TOKEN_INFO['SOL']` of frontend/src/features/properties/utils.ts.
unfoldable pub info_decimals : String → ℕ
info_decimals token_mint = if token_mint == "USDC" then 6 else if token_mint == "USDT" then 6 else 9

-- `is_integer` is `amount % 1 === 0`, `to_fixed` the method of its name.
module _ (n : Numbers) (is_integer : n.Num → Bool) (to_fixed : n.Num → ℕ → String) where
  open n use {whole, over}

  unfoldable pub format_price : ℕ → String → String
  unfolding info_decimals
  format_price price_smallest token_mint =
      let amount = over (whole price_smallest) (10 ^ info_decimals token_mint) in
      if is_integer amount then to_fixed amount 0 else to_fixed amount 2

-- The two tables of the tokens agree: prices and the amounts of orders are told in the same units.
pub info_decimals-agree :
    (token_mint : String) → 10 ^ info_decimals token_mint ≡ decimals_for token_mint
unfolding info_decimals decimals_for
info_decimals-agree token_mint = elim (Bool-cases (token_mint == "SOL")) [
  | inl sol ↦ rw ((eq_iff token_mint "SOL").0 sol) refl
  | inr other ↦ ground arith
]
