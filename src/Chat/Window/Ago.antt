-- ===== src/Chat/Window/Ago.antt =====
-- `timeAgo` of frontend/src/features/chat/components/ChatWindow.tsx, with what it says as data: how it
-- is printed is a template of the number, or the date of a library.
use decentrarent.Prelude.{
  ℕ, ◌+◌, ◌-◌, ◌*◌, ◌/◌, ◌≤◌, ◌<◌, String, true, false, Option, none, some, ◌≡◌, arith,
  if◌then◌else◌, ltb, truthy, Bool-cases, inl, inr, ltb→lt,
}

pub data Ago : Type 0 where
  nothing just_now : Ago
  minutes hours days : ℕ → Ago
  on_date : String → Ago

abbrev ago_of : String → ℕ → Ago
ago_of at diff =
    let mins = diff / 60000 in
    let hrs = mins / 60 in
    let ds = hrs / 24 in
    if ltb mins 1
    then just_now
    else if ltb mins 60
    then minutes mins
    else if ltb hrs 24
    then hours hrs
    else if ltb ds 7
    then days ds
    else on_date at

-- `Math.max(0, now - then)` is the difference on natural numbers.
unfoldable pub time_ago : (String → ℕ) → ℕ → Option String → Ago
time_ago time_of now none = nothing
time_ago time_of now (some at) = if truthy at then ago_of at (now - time_of at) else nothing

not_ltb : (a b : ℕ) → ltb a b ≡ false → b ≤ a
not_ltb a b h = ground arith

-- A span of a number of units of a length, both ends of which are known.
abbrev pub Spans : ℕ → ℕ → ℕ → Type 0
Spans n unit diff = (n * unit ≤ diff) × (diff < (n + 1) * unit)

-- What is said of a time that lies `diff` milliseconds back.
abbrev pub IsRight : Ago → ℕ → Type 0
IsRight nothing diff = ⊥
IsRight just_now diff = diff < 60000
IsRight (minutes n) diff = (1 ≤ n) × (n < 60) × Spans n 60000 diff
IsRight (hours n) diff = (1 ≤ n) × (n < 24) × Spans n 3600000 diff
IsRight (days n) diff = (1 ≤ n) × (n < 7) × Spans n 86400000 diff
IsRight (on_date at) diff = 604800000 ≤ diff

-- A time is told in the largest unit of which a whole one has passed, rounded down: minutes below an
-- hour, hours below a day, days below a week, and else the date; a time to come is told as now.
pub time_ago-IsRight :
    (time_of : String → ℕ) (now : ℕ) (at : String)
    → truthy at ≡ true
    → IsRight (time_ago time_of now (some at)) (now - time_of at)
unfolding time_ago
time_ago-IsRight time_of now at h = rw h (right (now - time_of at))
  where
    right : (diff : ℕ) → IsRight (ago_of at diff) diff
    right diff = elim (Bool-cases (ltb (diff / 60000) 1)) [
      | inl lt ↦ rw lt (omega (arith, ltb→lt (diff / 60000) 1 lt))
      | inr ge ↦ elim (Bool-cases (ltb (diff / 60000) 60)) [
        | inl lt ↦
            rw (ge, lt)
              (
                omega (arith, not_ltb _ _ ge),
                omega (arith, ltb→lt _ _ lt),
                (omega arith, omega arith),
              )
        | inr ge₂ ↦ elim (Bool-cases (ltb (diff / 60000 / 60) 24)) [
          | inl lt ↦
              rw (ge, ge₂, lt)
                (
                  omega (arith, not_ltb _ _ ge₂),
                  omega (arith, ltb→lt _ _ lt),
                  (omega arith, omega arith),
                )
          | inr ge₃ ↦ elim (Bool-cases (ltb (diff / 60000 / 60 / 24) 7)) [
            | inl lt ↦
                rw (ge, ge₂, ge₃, lt)
                  (
                    omega (arith, not_ltb _ _ ge₃),
                    omega (arith, ltb→lt _ _ lt),
                    (omega arith, omega arith),
                  )
            | inr ge₄ ↦ rw (ge, ge₂, ge₃, ge₄) (omega (arith, not_ltb _ _ ge₄))
          ]
        ]
      ]
    ]
