-- ===== src/Toast/Timers.antt =====
-- Toasts and their timers: ids are never reused, and every toast on the screen has its timer.
use decentrarent.Prelude.{
  ℕ, ◌+◌, ◌≤◌, ◌<◌, Bool, true, false, not, List, [], ◌∷◌, ◌++◌, ◌≡◌, refl, arith, any, All,
  All-append, inl, inr, Bool-cases,
}
use decentrarent.Toast.{
  Toast, ToastId, ToastRequest, Timer, ToastState, initial_toasts, same_id, without, add_toast,
  remove_toast, fire_timer,
}

-- Some pending timer will remove the toast `id`.
abbrev pub pending : ToastId → List Timer → Bool
pending id = any (λ t. same_id t.id id)

-- The ids of the toasts grow along the list, above `low` and up to `high`.
abbrev pub Ascending : ℕ → List Toast → ℕ → Type 0
Ascending low [] high = low ≤ high
Ascending low (t ∷ ts) high = (low < t.id.count) × Ascending t.id.count ts high

pub record IsValid (s : ToastState) : Type 0 where
  pub ids : Ascending 0 s.toasts s.toast_counter
  pub timed : All (λ t. pending t.id s.timers ≡ true) s.toasts

-- What the application and the event loop may do to the store.
pub data Step : ToastState → ToastState → Type 0 where
  added : (now : ℕ) (r : ToastRequest) (s : ToastState) → Step s (add_toast now r s)
  removed : (id : ToastId) (s : ToastState) → Step s (remove_toast id s)
  fired :
      (t : Timer) (before after : List Timer) (s : ToastState)
      → s.timers ≡ before ++ t ∷ after
      → Step s (fire_timer t (before ++ after) s)

pub data Reach : ToastState → Type 0 where
  start : Reach initial_toasts
  next : {s t : ToastState} → Reach s → Step s t → Reach t

Ascending-le : (low high : ℕ) (ts : List Toast) → Ascending low ts high → low ≤ high
Ascending-le low high [] h = h
Ascending-le low high (t ∷ ts) h = omega (arith, Ascending-le t.id.count high ts h.1)

Ascending-lower :
    (low low' high : ℕ) (ts : List Toast)
    → low' ≤ low
    → Ascending low ts high
    → Ascending low' ts high
Ascending-lower low low' high [] l h = omega arith
Ascending-lower low low' high (t ∷ ts) l h = (omega arith, h.1)

Ascending-append :
    (low high : ℕ) (ts : List Toast) (t : Toast)
    → t.id.count ≡ high + 1
    → Ascending low ts high
    → Ascending low (ts ++ t ∷ []) (high + 1)
Ascending-append low high [] t e h = omega arith
Ascending-append low high (u ∷ ts) t e h = (h.0, Ascending-append u.id.count high ts t e h.1)

Ascending-without :
    (low high : ℕ) (id : ToastId) (ts : List Toast)
    → Ascending low ts high
    → Ascending low (without id ts) high
Ascending-without low high id [] h = h
Ascending-without low high id (t ∷ ts) h = elim (Bool-cases (not (same_id t.id id))) [
  | inl kept ↦ rw kept (h.0, Ascending-without t.id.count high id ts h.1)
  | inr gone ↦ rw gone (
      Ascending-lower t.id.count low high (without id ts) (omega arith)
        (Ascending-without t.id.count high id ts h.1))
]

pending-append_left :
    (id : ToastId) (ts us : List Timer) → pending id ts ≡ true → pending id (ts ++ us) ≡ true
pending-append_left id [] us h = cc
pending-append_left id (t ∷ ts) us h = ground (arith, pending-append_left id ts us)

pending-append_last :
    (id : ToastId) (ts : List Timer) (t : Timer)
    → same_id t.id id ≡ true
    → pending id (ts ++ t ∷ []) ≡ true
pending-append_last id [] t h = ground arith
pending-append_last id (u ∷ ts) t h = ground (arith, pending-append_last id ts t h)

-- Taking a timer out leaves the timers of the other ids.
pending-remove :
    (id : ToastId) (before after : List Timer) (t : Timer)
    → same_id id t.id ≡ false
    → pending id (before ++ t ∷ after) ≡ true
    → pending id (before ++ after) ≡ true
pending-remove id [] after t ne h = ground arith
pending-remove id (u ∷ before) after t ne h = ground (arith, pending-remove id before after t)

timed-added :
    (ts : List Timer) (us : List Timer) (toasts : List Toast)
    → All (λ t. pending t.id ts ≡ true) toasts
    → All (λ t. pending t.id (ts ++ us) ≡ true) toasts
timed-added ts us [] h = tt
timed-added ts us (t ∷ toasts) h =
    (pending-append_left t.id ts us h.0, timed-added ts us toasts h.1)

timed-without :
    (id : ToastId) (ts : List Timer) (toasts : List Toast)
    → All (λ t. pending t.id ts ≡ true) toasts
    → All (λ t. pending t.id ts ≡ true) (without id toasts)
timed-without id ts [] h = tt
timed-without id ts (t ∷ toasts) h = elim (Bool-cases (not (same_id t.id id))) [
  | inl kept ↦ rw kept (h.0, timed-without id ts toasts h.1)
  | inr gone ↦ rw gone (timed-without id ts toasts h.1)
]

timed-fired :
    (t : Timer) (before after : List Timer) (toasts : List Toast)
    → All (λ u. pending u.id (before ++ t ∷ after) ≡ true) toasts
    → All (λ u. pending u.id (before ++ after) ≡ true) (without t.id toasts)
timed-fired t before after [] h = tt
timed-fired t before after (u ∷ toasts) h = elim (Bool-cases (same_id u.id t.id)) [
  | inl gone ↦ rw gone (timed-fired t before after toasts h.1)
  | inr kept ↦
      rw kept (pending-remove u.id before after t kept h.0, timed-fired t before after toasts h.1)
]

Step-IsValid : {s t : ToastState} → Step s t → IsValid s → IsValid t
unfolding add_toast remove_toast fire_timer
Step-IsValid (added now r s) v = record {
  ids = Ascending-append 0 s.toast_counter s.toasts _ refl v.ids;
  timed =
      All-append _ s.toasts _ (timed-added s.timers _ s.toasts v.timed)
        (pending-append_last _ s.timers _ (ground arith), tt);
}
Step-IsValid (removed id s) v = record {
  ids = Ascending-without 0 s.toast_counter id s.toasts v.ids;
  timed = timed-without id s.timers s.toasts v.timed;
}
Step-IsValid (fired t before after s e) v = record {
  ids = Ascending-without 0 s.toast_counter t.id s.toasts v.ids;
  timed = timed-fired t before after s.toasts (rw e at v.timed);
}

-- In every state that calls and timers can reach, the toasts are in the order in which they were
-- added with ids that differ, none above the counter, and each one on the screen has a timer that
-- will remove it.
pub Reach-IsValid : {s : ToastState} → Reach s → IsValid s
unfolding initial_toasts
Reach-IsValid start = record { ids = omega arith; timed = tt }
Reach-IsValid (next r st) = Step-IsValid st (Reach-IsValid r)

no_timers-no_toasts : (ts : List Toast) → All (λ t. pending t.id [] ≡ true) ts → ts ≡ []
no_timers-no_toasts [] h = refl
no_timers-no_toasts (t ∷ ts) h = cc (h.0)

-- Once every timer has fired, no toast is left on the screen, whatever was added or removed by hand
-- before.
pub all_fired-no_toasts : {s : ToastState} → Reach s → s.timers ≡ [] → s.toasts ≡ []
all_fired-no_toasts {s} r e = no_timers-no_toasts s.toasts (rw e at (Reach-IsValid r).timed)

without-append :
    (low high : ℕ) (id : ToastId) (ts : List Toast) (t : Toast)
    → id.count ≡ high + 1
    → same_id t.id id ≡ true
    → Ascending low ts high
    → without id (ts ++ t ∷ []) ≡ ts
without-append low high id [] t e same h = ground arith
without-append low high id (u ∷ ts) t e same h =
    let below = Ascending-le u.id.count high ts h.1 in
    ground (arith, without-append u.id.count high id ts t e same h.1)

-- Removing the toast that was added last, by the id that it was given, takes off that toast and no
-- other: the list is again what it was.
pub remove-add_toast :
    (now : ℕ) (r : ToastRequest) {s : ToastState}
    → Reach s
    → (remove_toast
        (record { count = s.toast_counter + 1; stamp = now })
        (add_toast now r s)).toasts
      ≡ s.toasts
unfolding remove_toast add_toast
remove-add_toast now r {s} reach =
    without-append 0 s.toast_counter _ s.toasts _ refl (ground arith) (Reach-IsValid reach).ids
