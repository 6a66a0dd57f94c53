-- ===== src/Escrow/Pda.antt =====
-- frontend/src/features/escrow/pda.ts, and `bytesToUuid` of frontend/src/devtools.ts. A text is the
-- list of its code units; a `Uint8Array` is a list of bytes.
use Prim.Native.Char.{code}
use decentrarent.Prelude.{
  ℕ, zero, suc, ◌+◌, ◌-◌, ◌*◌, ◌/◌, ◌%◌, String, not, ◌&&◌, Option, none, some, List, [], ◌∷◌, ◌++◌,
  if◌then◌else◌, leb, ltb, eqb, filter, take, drop, is_space,
}

-- The code units of a text: one for a character of the basic plane, else a surrogate pair.
abbrev pub units_of : ℕ → List ℕ
units_of c =
    if ltb c 65536 then c ∷ [] else (55296 + (c - 65536) / 1024) ∷ (56320 + (c - 65536) % 1024) ∷ []

abbrev pub units : String → List ℕ
units String.[] = []
units (String.◌∷◌ c s) = units_of (code c) ++ units s

-- The value of a hexadecimal digit, in either case.
unfoldable pub hex_value : ℕ → Option ℕ
hex_value c =
    if leb 48 c && leb c 57
    then some (c - 48)
    else if leb 97 c && leb c 102
    then some (c - 87)
    else if leb 65 c && leb c 70
    then some (c - 55)
    else none

-- `parseInt(·, 16)` on a slice of at most two code units: white space and a plus sign are skipped,
-- then the longest run of digits is read. NaN, where no digit stands there, is stored in a
-- `Uint8Array` as 0; so is what `0x` alone gives. (The caller has taken out every minus sign.)
unfoldable pub parse_digits : List ℕ → ℕ → ℕ
parse_digits [] acc = acc
parse_digits (c ∷ cs) acc = elim (hex_value c) [
  | none ↦ acc
  | some d ↦ parse_digits cs (acc * 16 + d)
]

unfoldable pub parse_signed : List ℕ → ℕ
unfolding parse_digits
parse_signed [] = 0
parse_signed (c ∷ cs) = if eqb c 43 then parse_digits cs 0 else parse_digits (c ∷ cs) 0

unfoldable pub parse_int : List ℕ → ℕ
unfolding parse_signed
parse_int [] = 0
parse_int (c ∷ cs) = let rest = parse_int cs in if is_space c then rest else parse_signed (c ∷ cs)

-- `bytes[i] = parseInt(hex.slice(i * 2, i * 2 + 2), 16)` for the `n` next indices; `hex` is what is
-- left of the digits.
unfoldable pub read_bytes : ℕ → List ℕ → List ℕ
unfolding parse_int
read_bytes zero hex = []
read_bytes (suc n) hex = parse_int (take 2 hex) % 256 ∷ read_bytes n (drop 2 hex)

abbrev pub dash : ℕ
dash = 45

unfoldable pub uuid_to_bytes : List ℕ → List ℕ
unfolding read_bytes hex_value
uuid_to_bytes uuid = read_bytes 16 (filter (λ c. not (eqb c dash)) uuid)

-- A digit of `b.toString(16)`.
unfoldable pub hex_digit : ℕ → ℕ
hex_digit d = if ltb d 10 then 48 + d else 87 + d

-- `b.toString(16).padStart(2, '0')` for a byte.
abbrev pub hex_byte : ℕ → List ℕ
hex_byte b = hex_digit (b / 16) ∷ hex_digit (b % 16) ∷ []

unfoldable pub hex_of : List ℕ → List ℕ
hex_of [] = []
hex_of (b ∷ bs) = hex_byte b ++ hex_of bs

-- The template of `bytesToUuid`: slices at 0, 8, 12, 16 and 20, with dashes between them.
unfoldable pub bytes_to_uuid : List ℕ → List ℕ
unfolding hex_of hex_digit
bytes_to_uuid bytes =
    let hex = hex_of bytes in
    take 8 hex
    ++ (dash
        ∷ (take 4 (drop 8 hex)
            ++ (dash
                ∷ (take 4 (drop 12 hex)
                    ++ (dash ∷ (take 4 (drop 16 hex) ++ (dash ∷ drop 20 hex)))))))
