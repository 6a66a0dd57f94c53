-- ===== src/Prelude/Slices.antt =====
-- `slice` and `includes` on texts. The texts that are sliced are ids and wallet addresses, whose
-- characters are single code units.
use Prim.Native.Nat.{ℕ, zero, suc, ◌-◌}
use Prim.Native.Char.{Char, code}
use Prim.Native.String.{String, ◌++◌ as ◌<>◌}
use Prim.Native.String.append
use mathlib.Core.Path.{◌≡◌, refl, sym, ap, ◌∙◌}
use mathlib.Core.Logic.{inl, inr}
use mathlib.Core.Bool.{Bool, true, false, not, ◌||◌}
use native.Mathlib.Omega.{arith}
use text.Mathlib.Text.{◌==◌}
use text.Mathlib.TextEquality.{eq_iff, Char-path}
use text.Mathlib.TextLemmas.{append-eq-nil_iff}
use decentrarent.Prelude.Tests.{if◌then◌else◌, eqb, Bool-cases}

abbrev pub unit_count : String → ℕ
unit_count String.[] = 0
unit_count (String.◌∷◌ c s) = suc (unit_count s)

-- `text.slice(0, n)` and `text.slice(n)`
abbrev pub head_slice : ℕ → String → String
head_slice zero s = String.[]
head_slice (suc n) String.[] = String.[]
head_slice (suc n) (String.◌∷◌ c s) = String.◌∷◌ c (head_slice n s)

abbrev pub slice_from : ℕ → String → String
slice_from zero s = s
slice_from (suc n) String.[] = String.[]
slice_from (suc n) (String.◌∷◌ c s) = slice_from n s

-- `text.slice(-n)`
abbrev pub tail_slice : ℕ → String → String
tail_slice n s = slice_from (unit_count s - n) s

-- `text.startsWith(q)` and `text.includes(q)`
abbrev pub starts_with : String → String → Bool
starts_with String.[] s = true
starts_with (String.◌∷◌ c q) String.[] = false
starts_with (String.◌∷◌ c q) (String.◌∷◌ d s) =
    let rest = starts_with q s in if eqb (code c) (code d) then rest else false

abbrev pub has_text : String → String → Bool
has_text q String.[] = starts_with q String.[]
has_text q (String.◌∷◌ c s) =
    let rest = has_text q s in if starts_with q (String.◌∷◌ c s) then true else rest

-- `${wallet.slice(0, 4)}...${wallet.slice(-4)}`
abbrev pub short_wallet : String → String
short_wallet wallet = head_slice 4 wallet <> ("..." <> tail_slice 4 wallet)

-- Text is no longer empty once something is put before or behind it.
pub append_filled :
    (s t : String) → (not (s == "") || not (t == "")) ≡ true → (s <> t == "") ≡ false
append_filled s t h = elim (Bool-cases (s <> t == "")) [
  | inr filled ↦ filled
  | inl blank ↦
      let (no_s, no_t) = append-eq-nil_iff.0 ((eq_iff (s <> t) "").0 blank) in
      absurd (ground (arith, eq_iff s "", eq_iff t ""))
]

eqb→eq : (a b : ℕ) → eqb a b ≡ true → a ≡ b
eqb→eq a b h = ground arith

starts_with-append : (q post : String) → starts_with q (q <> post) ≡ true
starts_with-append String.[] post = refl
starts_with-append (String.◌∷◌ c q) post =
    rw (append.cons c q post) (ground (arith, starts_with-append q post))

-- Every text is found where it stands.
pub has_text-append : (pre q post : String) → has_text q (pre <> (q <> post)) ≡ true
has_text-append String.[] q post =
    rw (append.nil (q <> post)) (found (q <> post) (starts_with-append q post))
  where
    found : (s : String) → starts_with q s ≡ true → has_text q s ≡ true
    found String.[] h = h
    found (String.◌∷◌ c s) h = rw h refl
has_text-append (String.◌∷◌ c pre) q post =
    rw (append.cons c pre (q <> post)) (ground (arith, has_text-append pre q post))

starts_with-splits : (q s : String) → starts_with q s ≡ true → (post : String) × (s ≡ q <> post)
starts_with-splits String.[] s h = (s, sym (append.nil s))
starts_with-splits (String.◌∷◌ c q) String.[] h = absurd (ground arith)
starts_with-splits (String.◌∷◌ c q) (String.◌∷◌ d s) h = elim (Bool-cases (eqb (code c) (code d))) [
  | inr differ ↦ absurd (ground (arith, rw differ at h))
  | inl same ↦
      let (post, e) = starts_with-splits q s (rw same at h) in
      (
        post,
        ap (λ (x : Char). String.◌∷◌ x s) (sym (Char-path c d (eqb→eq (code c) (code d) same)))
            ∙ (ap (λ v. String.◌∷◌ c v) e ∙ sym (append.cons c q post)),
      )
]

-- What is found in a text is a part of it.
pub has_text-splits :
    (q s : String)
    → has_text q s ≡ true
    → (pre : String) × (post : String) × (s ≡ pre <> (q <> post))
has_text-splits q String.[] h =
    let (post, e) = starts_with-splits q String.[] h in
    (String.[], post, e ∙ sym (append.nil (q <> post)))
has_text-splits q (String.◌∷◌ c s) h = elim (Bool-cases (starts_with q (String.◌∷◌ c s))) [
  | inl here ↦
      let (post, e) = starts_with-splits q (String.◌∷◌ c s) here in
      (String.[], post, e ∙ sym (append.nil (q <> post)))
  | inr later ↦
      let (pre, post, e) = has_text-splits q s (rw later at h) in
      (String.◌∷◌ c pre, post, ap (λ v. String.◌∷◌ c v) e ∙ sym (append.cons c pre (q <> post)))
]
