-- ===== src/Toast.antt =====
-- The toast store: frontend/src/features/toast/store.ts. `setTimeout` is a list of timers that the
-- event loop fires; the time of a call is an argument.
pub mod Timers
mod Tests
use decentrarent.Prelude.{
  ℕ, ◌+◌, String, Bool, ◌&&◌, not, Option, none, some, List, [], ◌∷◌, ◌++◌, eqb, filter, default,
}

pub data ToastVariant : Type 0 where
  success error info onchain : ToastVariant

-- The text `toast-${count}-${stamp}`, by its two numbers: a decimal numeral holds no dash, so two
-- such texts are equal exactly when the numbers are.
pub record ToastId : Type 0 where
  pub count : ℕ
  pub stamp : ℕ

-- `Omit<Toast, 'id'>`
pub record ToastRequest : Type 0 where
  pub variant : ToastVariant
  pub title : String
  pub message : Option String
  pub duration : Option ℕ

pub record Toast : Type 0 where
  pub id : ToastId
  pub request : ToastRequest

-- A pending `setTimeout` whose callback removes the toast `id`.
pub record Timer : Type 0 where
  pub due : ℕ
  pub id : ToastId

-- The store, with the module's `toastCounter` and the timers that it has set.
pub record ToastState : Type 0 where
  pub toasts : List Toast
  pub toast_counter : ℕ
  pub timers : List Timer

unfoldable pub initial_toasts : ToastState
initial_toasts = record { toasts = []; toast_counter = 0; timers = [] }

abbrev pub same_id : ToastId → ToastId → Bool
same_id a b = eqb a.count b.count && eqb a.stamp b.stamp

abbrev pub default_duration : ℕ
default_duration = 5000

-- `toasts.filter((t) => t.id !== id)`
abbrev pub without : ToastId → List Toast → List Toast
without id = filter (λ t. not (same_id t.id id))

unfoldable pub add_toast : ℕ → ToastRequest → ToastState → ToastState
add_toast now r s =
    let id : ToastId = record { count = s.toast_counter + 1; stamp = now } in
    record {
      toasts = s.toasts ++ record { id = id; request = r } ∷ [];
      toast_counter = s.toast_counter + 1;
      timers = s.timers ++ record { due = now + default r.duration default_duration; id = id } ∷ [];
    }

unfoldable pub remove_toast : ToastId → ToastState → ToastState
remove_toast id s = record s { toasts = without id s.toasts }

-- The event loop runs the callback of a timer that it has taken off its list.
unfoldable pub fire_timer : Timer → List Timer → ToastState → ToastState
fire_timer t rest s = record s { toasts = without t.id s.toasts; timers = rest }
