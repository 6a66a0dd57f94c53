-- ===== src/Overview/WalletCard.antt =====
-- The wallet on frontend/src/pages/HomePage.tsx: the copied address with its timers, and the balance.
-- A balance is a number of lamports; the page divides it where it prints it.
use decentrarent.Prelude.{
  ℕ, ◌+◌, ◌-◌, ◌≤◌, String, Bool, true, false, Option, none, some, ◌≡◌, refl, arith, truthy,
  if◌then◌else◌, Bool-cases, inl, inr,
}
use decentrarent.Prelude.Outcome.{Result, ok, threw}

-- The flag `walletCopied`, what the clipboard holds, and how many timers are out.
pub record WalletCopy : Type 0 where
  pub wallet_copied : Bool
  pub clipboard : Option String
  pub timers : ℕ

unfoldable pub initial_copy : Option String → WalletCopy
initial_copy held = record { wallet_copied = false; clipboard = held; timers = 0 }

-- `handleCopyWallet`, on the user's address.
unfoldable pub handle_copy_wallet : String → WalletCopy → WalletCopy
handle_copy_wallet address w =
    if truthy address
    then record { wallet_copied = true; clipboard = some address; timers = w.timers + 1 }
    else w

-- A timer after its two seconds.
unfoldable pub copy_timer : WalletCopy → WalletCopy
copy_timer w = record w { wallet_copied = false; timers = w.timers - 1 }

pub data Step : WalletCopy → WalletCopy → Type 0 where
  copied : (address : String) (w : WalletCopy) → Step w (handle_copy_wallet address w)
  timed : (w : WalletCopy) → 1 ≤ w.timers → Step w (copy_timer w)

pub data Reach : WalletCopy → Type 0 where
  start : (held : Option String) → Reach (initial_copy held)
  next : {v w : WalletCopy} → Reach v → Step v w → Reach w

abbrev pub WillHide : WalletCopy → Type 0
WillHide w = w.wallet_copied ≡ true → 1 ≤ w.timers

Step-WillHide : {v w : WalletCopy} → Step v w → WillHide v → WillHide w
unfolding handle_copy_wallet copy_timer
Step-WillHide (copied address w) v = elim (Bool-cases (truthy address)) [
  | inl there ↦ rw there (λ shown. omega arith)
  | inr blank ↦ rw blank v
]
Step-WillHide (timed w out) v = λ shown. cc shown

-- Whenever the card tells that the address was copied, a timer is out that takes this back.
pub Reach-WillHide : {w : WalletCopy} → Reach w → WillHide w
unfolding initial_copy
Reach-WillHide (start held) = λ shown. cc shown
Reach-WillHide (next r st) = Step-WillHide st (Reach-WillHide r)

-- After two copies the timer of the first takes the notice of the second back, while that of the
-- second is still out.
pub first_timer-hides :
    (a b : String) (held : Option String)
    → truthy a ≡ true
    → truthy b ≡ true
    → copy_timer (handle_copy_wallet b (handle_copy_wallet a (initial_copy held)))
      ≡ record { wallet_copied = false; clipboard = some b; timers = 1 }
unfolding initial_copy handle_copy_wallet copy_timer
first_timer-hides a b held ha hb = rw (ha, hb) refl

-- The balance on the card after an answer; it stays until one comes, also without a wallet.
unfoldable pub on_wallet_balance : Result ℕ → Option ℕ
on_wallet_balance (ok bal) = some bal
on_wallet_balance (threw e) = none
