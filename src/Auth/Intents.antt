-- ===== src/Auth/Intents.antt =====
-- The wallet buttons of frontend/src/features/auth/components/ConnectWallet.tsx, and the steps of
-- frontend/src/pages/OnboardingNewbiePage.tsx and OnboardingWalletPage.tsx.
pub mod Wallets
pub mod Steps
mod Tests
use decentrarent.Prelude.{
  ℕ, suc, ◌+◌, ◌-◌, ◌*◌, String, Bool, true, false, ◌&&◌, Option, none, some, List, [], ◌∷◌,
  if◌then◌else◌, length, take, ltb, leb, eqb, truthy, ◌<>◌,
}
use decentrarent.Prelude.Slices.{head_slice, tail_slice}
use decentrarent.Prelude.Outcome.{Result, ok, threw}
use decentrarent.Auth.{
  AuthState, AuthResponse, WalletAuthResult, signed_in, wallet_not_registered, SignInState,
}

-- The two references, and whether the wallet dialog is shown.
pub record Intents : Type 0 where
  pub wallet_connect_intent : Bool
  pub wallet_sign_in_intent : Bool
  pub visible : Bool

unfoldable pub no_intents : Intents
no_intents = record {
  wallet_connect_intent = false;
  wallet_sign_in_intent = false;
  visible = false;
}

-- What a click or the effect does: nothing, a change of the page, or a call of `walletSignIn`.
pub data Move : Type 0 where
  stays signs_in : Move
  goes : String → Move

-- The effect on the wallet; `connected && publicKey` is one flag.
unfoldable pub on_wallet : Bool → Intents → Intents × Move
on_wallet connected i =
    if connected
    then (if i.wallet_connect_intent
        then (record i { wallet_connect_intent = false }, goes "/onboarding/wallet")
        else if i.wallet_sign_in_intent
        then (record i { wallet_sign_in_intent = false }, signs_in)
        else (i, stays))
    else (i, stays)

-- `handleWalletSignIn`, and the click on the button for who has a wallet.
unfoldable pub handle_wallet_sign_in : Bool → Intents → Intents × Move
handle_wallet_sign_in connected i =
    if connected
    then (i, signs_in)
    else (record i { wallet_sign_in_intent = true; visible = true }, stays)

unfoldable pub have_wallet_click : Bool → Intents → Intents × Move
have_wallet_click connected i =
    if connected
    then (i, goes "/onboarding/wallet")
    else (record i { wallet_connect_intent = true; visible = true }, stays)

-- The dialog is shut; `connects` says whether a wallet was chosen in it.
unfoldable pub shut_dialog : Intents → Intents
shut_dialog i = record i { visible = false }

-- The callbacks on `walletSignIn()`: the page that is gone to.
unfoldable pub after_sign_in : Result WalletAuthResult → Option String
after_sign_in (ok signed_in) = some "/home"
after_sign_in (ok wallet_not_registered) = some "/onboarding/wallet"
after_sign_in (threw e) = none

-- OnboardingNewbiePage.tsx: `lineIndex` of `CHAT_LINES`, of which there are four.
abbrev pub line_count : ℕ
line_count = 4

unfoldable pub handle_next_line : ℕ → ℕ
handle_next_line line_index = if ltb line_index (line_count - 1) then line_index + 1 else line_count

unfoldable pub show_all_lines : ℕ → Bool
show_all_lines line_index = leb line_count line_index

unfoldable pub visible_lines : List String → ℕ → List String
visible_lines chat_lines line_index = take (line_index + 1) chat_lines

-- The steps of the two pages: the way back, and the way on.
pub data Guide : Type 0 where
  newbie wallet : Guide

abbrev pub last_step : Guide → ℕ
last_step newbie = 4
last_step wallet = 2

-- The arrow: the step, the page, and whether the wallet is disconnected.
unfoldable pub step_back : Guide → ℕ → ℕ × Option String × Bool
step_back newbie step = if eqb step 1 then (step, some "/auth", false) else (step - 1, none, false)
step_back wallet step = if eqb step 1 then (step, some "/auth", true) else (1, none, false)

-- The buttons of the steps after the signup; the last one leads to the listings.
unfoldable pub step_on : Guide → ℕ → ℕ × Option String
step_on newbie step =
    if eqb step 2
    then (3, none)
    else if eqb step 3
    then (4, none)
    else if eqb step 4
    then (step, some "/listings")
    else (step, none)
step_on wallet step = if eqb step 2 then (step, some "/listings") else (step, none)

-- `progress`, in percent of the bar.
unfoldable pub progress : Guide → ℕ → ℕ
progress newbie step = step * 25
progress wallet step = step * 50

-- OnboardingWalletPage.tsx: the effect that goes back without a wallet, and the balance, where an
-- error counts as none; `over` divides lamports by those of one SOL.
unfoldable pub on_connected : Bool → Option String
on_connected connected = if connected then none else some "/auth"

unfoldable pub on_balance : {Num : Type 0} → (ℕ → Num) → Result ℕ → Num
on_balance over (ok bal) = over bal
on_balance over (threw e) = over 0

unfoldable pub onboarding_short : String → String
onboarding_short address =
    if truthy address then head_slice 6 address <> ("..." <> tail_slice 4 address) else ""
