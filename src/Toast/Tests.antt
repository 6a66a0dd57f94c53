-- ===== src/Toast/Tests.antt =====
-- The toast store's theorems at concrete inputs.
use decentrarent.Prelude.{◌+◌, none, some, [], ◌≡◌, refl}
use decentrarent.Toast.{
  ToastState, ToastRequest, ToastId, Timer, success, initial_toasts, add_toast, remove_toast,
  fire_timer,
}
use decentrarent.Toast.Timers.{
  IsValid, added, fired, Reach, start, next, Reach-IsValid, all_fired-no_toasts, remove-add_toast,
}

abbrev saved : ToastRequest
saved = record { variant = success; title = "Saved"; message = none; duration = some 100 }

abbrev first_id : ToastId
first_id = record { count = 1; stamp = 7 }

abbrev shown : ToastState
shown = add_toast 7 saved initial_toasts

abbrev later : Timer
later = record { due = 107; id = first_id }

shown-Reach : Reach shown
shown-Reach = next start (added 7 saved initial_toasts)

gone-Reach : Reach (fire_timer later [] shown)
gone-Reach = next shown-Reach (fired later [] [] shown (unfold add_toast initial_toasts in refl))

Reach-IsValid_example : IsValid shown
Reach-IsValid_example = Reach-IsValid shown-Reach

all_fired-no_toasts_run : (fire_timer later [] shown).toasts ≡ []
all_fired-no_toasts_run = all_fired-no_toasts gone-Reach (unfold fire_timer in refl)

remove-add_toast_run :
    (remove_toast
      (record { count = shown.toast_counter + 1; stamp = 9 })
      (add_toast 9 saved shown)).toasts
    ≡ shown.toasts
remove-add_toast_run = remove-add_toast 9 saved shown-Reach
