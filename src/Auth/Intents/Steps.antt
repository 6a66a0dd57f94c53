-- ===== src/Auth/Intents/Steps.antt =====
-- The guides of the onboarding stay within their steps, and their lines come to an end.
use decentrarent.Prelude.{
  ℕ, zero, suc, ◌+◌, ◌≤◌, String, List, [], ◌∷◌, ◌≡◌, refl, arith, leb, eqb, length, take,
  if◌then◌else◌,
}
use decentrarent.Auth.Forms.{Form, signup_form, wallet_signup_form, next_step}
use decentrarent.Auth.Intents.{
  handle_next_line, show_all_lines, visible_lines, line_count, Guide, newbie, wallet, last_step,
  step_back, step_on, progress,
}

abbrev form_of : Guide → Form
form_of newbie = signup_form
form_of wallet = wallet_signup_form "W"

-- The steps that a page can show: the first, that after the signup on it, and those to which the
-- buttons lead.
pub data Reach (g : Guide) : ℕ → Type 0 where
  first : Reach g 1
  signed : Reach g 1 → Reach g (next_step (form_of g) 1)
  on : {step : ℕ} → Reach g step → Reach g (step_on g step).0
  back : {step : ℕ} → Reach g step → Reach g (step_back g step).0

abbrev Inside : Guide → ℕ → Type 0
Inside g step = (1 ≤ step) × (step ≤ last_step g)

on-Inside : (g : Guide) (step : ℕ) → Inside g step → Inside g (step_on g step).0
unfolding step_on
on-Inside newbie step h = ground arith
on-Inside wallet step h = ground arith

back-Inside : (g : Guide) (step : ℕ) → Inside g step → Inside g (step_back g step).0
unfolding step_back
back-Inside newbie step h = ground arith
back-Inside wallet step h = ground arith

Reach-Inside : (g : Guide) {step : ℕ} → Reach g step → Inside g step
Reach-Inside newbie first = (omega arith, omega arith)
Reach-Inside wallet first = (omega arith, omega arith)
Reach-Inside newbie (signed r) = (omega arith, omega arith)
Reach-Inside wallet (signed r) = (omega arith, omega arith)
Reach-Inside g (on r) = on-Inside g _ (Reach-Inside g r)
Reach-Inside g (back r) = back-Inside g _ (Reach-Inside g r)

-- Whatever buttons are used, a guide shows one of its steps, its bar is filled to 100 percent at
-- most, and to 100 percent exactly at the last step.
pub Reach-progress :
    (g : Guide) {step : ℕ}
    → Reach g step
    → (1 ≤ step)
      × (step ≤ last_step g)
      × (progress g step ≤ 100)
      × (eqb (progress g step) 100 ≡ eqb step (last_step g))
unfolding progress
Reach-progress newbie r = ground (arith, Reach-Inside newbie r)
Reach-progress wallet r = ground (arith, Reach-Inside wallet r)

-- The line after that many clicks.
abbrev pub clicked : ℕ → ℕ
clicked zero = 0
clicked (suc n) = handle_next_line (clicked n)

clicked-min : (n : ℕ) → clicked n ≡ (if leb n 4 then n else 4)
unfolding handle_next_line
clicked-min zero = refl
clicked-min (suc n) = ground (arith, clicked-min n)

length-take :
    (n : ℕ) (xs : List String) → length (take n xs) ≡ (if leb n (length xs) then n else length xs)
length-take zero xs = ground arith
length-take (suc n) [] = ground arith
length-take (suc n) (x ∷ xs) = ground (arith, length-take n xs)

-- After `n` clicks the first `n + 1` of the four lines are shown, and from the fourth click on all of
-- them, with the way to the form open.
pub clicked-shows :
    (n : ℕ) (lines : List String)
    → length lines ≡ line_count
    → (show_all_lines (clicked n) ≡ leb 4 n)
      × (length (visible_lines lines (clicked n)) ≡ (if leb 4 n then 4 else n + 1))
unfolding show_all_lines visible_lines
clicked-shows n lines four = ground (arith, clicked-min n, length-take (clicked n + 1) lines)
