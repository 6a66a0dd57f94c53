-- ===== src/Escrow/Bytes.antt =====
-- The two conversions between an order's id and its bytes.
use decentrarent.Prelude.{
  ℕ, zero, suc, ◌+◌, ◌/◌, ◌%◌, ◌<◌, ◌≡◌, refl, arith, List, [], ◌∷◌, ◌++◌, not, true, false, eqb,
  filter, length, All, ap, sym, ◌∙◌, take, drop, is_space, some, Bool,
}
use native.Mathlib.Nat.{zero-add}
use decentrarent.Escrow.Pda.{
  hex_value, hex_digit, hex_byte, hex_of, read_bytes, parse_digits, parse_int, uuid_to_bytes,
  bytes_to_uuid, dash,
}

abbrev keep : ℕ → Bool
keep c = not (eqb c dash)

hex_value-digit : (d : ℕ) → d < 16 → hex_value (hex_digit d) ≡ some d
unfolding hex_value hex_digit
hex_value-digit d h = ground arith

keep-digit : (d : ℕ) → d < 16 → keep (hex_digit d) ≡ true
unfolding hex_digit
keep-digit d h = ground arith

plain-digit : (d : ℕ) → d < 16 → is_space (hex_digit d) ≡ false
unfolding hex_digit
plain-digit d h = ground arith

not_plus-digit : (d : ℕ) → d < 16 → eqb (hex_digit d) 43 ≡ false
unfolding hex_digit
not_plus-digit d h = ground arith

digits-byte : (b : ℕ) → b < 256 → parse_digits (hex_byte b) 0 ≡ b
unfolding parse_digits
digits-byte b h =
    rw
      (parse_digits, hex_value-digit (b / 16) (omega arith), hex_value-digit (b % 16) (omega arith))
      (omega arith)

byte-round : (b : ℕ) → b < 256 → parse_int (hex_byte b) % 256 ≡ b
unfolding parse_int
byte-round b h =
    rw (plain-digit (b / 16) (omega arith), not_plus-digit (b / 16) (omega arith))
      (omega (arith, digits-byte b h))

filter-hex : (bs : List ℕ) → All (λ b. b < 256) bs → filter keep (hex_of bs) ≡ hex_of bs
unfolding hex_of
filter-hex [] h = refl
filter-hex (b ∷ bs) h =
    rw (keep-digit (b / 16) (omega arith), keep-digit (b % 16) (omega arith), filter-hex bs h.1)
      refl

read-hex : (bs : List ℕ) → All (λ b. b < 256) bs → read_bytes (length bs) (hex_of bs) ≡ bs
unfolding read_bytes hex_of
read-hex [] h = refl
read-hex (b ∷ bs) h = rw (byte-round b h.0, read-hex bs h.1) refl

split-filter :
    (n : ℕ) (hex rest : List ℕ)
    → filter keep rest ≡ filter keep (drop n hex)
    → filter keep (take n hex ++ dash ∷ rest) ≡ filter keep hex
split-filter zero hex rest e = e
split-filter (suc n) [] rest e = e
split-filter (suc n) (c ∷ hex) rest e = ground (arith, split-filter n hex rest e)

drop-nil : (n : ℕ) → drop {A = ℕ} n [] ≡ []
drop-nil zero = refl
drop-nil (suc n) = refl

suc-add : (n m : ℕ) → suc n + m ≡ suc (n + m)
suc-add n m = omega arith

drop-drop : (n m : ℕ) (hex : List ℕ) → drop m (drop n hex) ≡ drop (n + m) hex
drop-drop zero m hex = rw zero-add
drop-drop (suc n) m [] = drop-nil m ∙ sym (drop-nil (suc n + m))
drop-drop (suc n) m (c ∷ hex) = rw (suc-add n m) (drop-drop n m hex)

-- The dashes that the template puts in are those that the regular expression takes out.
filter-template :
    (hex : List ℕ)
    → filter keep (
        take 8 hex
        ++ (dash
            ∷ (take 4 (drop 8 hex)
                ++ (dash
                    ∷ (take 4 (drop 12 hex)
                        ++ (dash ∷ (take 4 (drop 16 hex) ++ (dash ∷ drop 20 hex))))))))
      ≡ filter keep hex
filter-template hex = split-filter 8 hex _ (
    split-filter 4 (drop 8 hex) _ (
      rw (drop-drop 8 4 hex) (
        split-filter 4 (drop 12 hex) _ (
          rw (drop-drop 12 4 hex)
            (split-filter 4 (drop 16 hex) _ (rw (drop-drop 16 4 hex) refl))))))

-- The bytes of an order's id survive the way to the text of a UUID and back, as the devtools print
-- them and `getEscrowPDA` reads them.
pub uuid_round_trip :
    (bytes : List ℕ)
    → length bytes ≡ 16
    → All (λ b. b < 256) bytes
    → uuid_to_bytes (bytes_to_uuid bytes) ≡ bytes
unfolding uuid_to_bytes bytes_to_uuid
uuid_round_trip bytes n h =
    ap (read_bytes 16) (filter-template (hex_of bytes) ∙ filter-hex bytes h)
    ∙ (ap (λ k. read_bytes k (hex_of bytes)) (sym n) ∙ read-hex bytes h)
