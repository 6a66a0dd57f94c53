-- ===== src/Prelude/Outcome.antt =====
-- What an awaited promise gives: a value, or what was thrown.
use Prim.Native.String.{String}

-- A thrown value is an `Error` with its message, or anything else.
pub data Thrown : Type 0 where
  error_object : String → Thrown
  other : Thrown

pub data Result {ℓ} (A : Type ℓ) : Type ℓ where
  ok : A → Result A
  threw : Thrown → Result A

-- `err instanceof Error ? err.message : fallback`
abbrev pub message_of : Thrown → String → String
message_of (error_object m) fallback = m
message_of other fallback = fallback

infixl 5 ◌>>=◌
abbrev pub ◌>>=◌ {ℓ κ} : {A : Type ℓ} {B : Type κ} → Result A → (A → Result B) → Result B
ok a >>= f = f a
threw e >>= f = threw e
