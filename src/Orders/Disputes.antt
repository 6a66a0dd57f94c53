-- ===== src/Orders/Disputes.antt =====
-- frontend/src/pages/AdminDisputePage.tsx: the list of disputed orders, and the card of one of them.
pub mod Resolved
pub mod Admins
mod Tests
use decentrarent.Prelude.{
  ℕ, ◌+◌, String, ◌<>◌, Bool, true, false, Option, none, some, List, [], ◌∷◌, ◌++◌, if◌then◌else◌,
  truthy, present, trim,
}
use decentrarent.Prelude.Slices.{head_slice, tail_slice}
use decentrarent.Prelude.Outcome.{Result, ok, threw, message_of}
use decentrarent.Toast.{ToastState, ToastVariant, ToastRequest, add_toast, error, onchain}
use decentrarent.Api.{ApiCall}
use decentrarent.Api.Calls.{list_disputed_orders, resolve_dispute}
use decentrarent.Auth.{User}
use decentrarent.Chat.{Conversation}
use decentrarent.Orders.Types.{Order}

pub data Winner : Type 0 where
  tenant landlord : Winner

abbrev pub winner_text : Winner → String
winner_text tenant = "tenant"
winner_text landlord = "landlord"

-- The state of a `DisputeCard`.
pub record DisputeCard : Type 0 where
  pub loading : Bool
  pub nav_loading : Bool
  pub reason : String

-- The state of the page.
pub record DisputePage : Type 0 where
  pub orders : List Order
  pub loading : Bool

unfoldable pub initial_page : DisputePage
initial_page = record { orders = []; loading = true }

abbrev dispute_notice : ToastVariant → String → Option String → ToastRequest
dispute_notice variant title message = record {
  variant = variant;
  title = title;
  message = message;
  duration = none;
}

-- `handleViewChat`: the request, and what its answer makes; the page that is gone to is given with the
-- conversation that it opens.
abbrev asked_chat : Order → DisputeCard → Option String → DisputeCard × Option ApiCall
asked_chat o d none = (d, none)
asked_chat o d (some token) =
    if truthy token
    then (
      record d { nav_loading = true },
      some (record {
        path = "/conversations/" <> o.conversation_id;
        method = "GET";
        body = none;
        token = some token;
      }),
    )
    else (d, none)

unfoldable pub begin_view_chat : Option String → Order → DisputeCard → DisputeCard × Option ApiCall
begin_view_chat token o d = asked_chat o d token

unfoldable pub end_view_chat :
    ℕ
    → Result Conversation
    → DisputeCard × ToastState
    → DisputeCard × ToastState × Option Conversation
end_view_chat now (ok conv) (d, ts) = (record d { nav_loading = false }, ts, some conv)
end_view_chat now (threw e) (d, ts) = (
  record d { nav_loading = false },
  add_toast now (dispute_notice error "Failed to open conversation" none) ts,
  none,
)

-- `load`
unfoldable pub begin_load : Option String → DisputePage → DisputePage × Bool
begin_load token p = if present token then (record p { loading = true }, true) else (p, false)

unfoldable pub end_load :
    ℕ → Result (List Order) → DisputePage × ToastState → DisputePage × ToastState
end_load now (ok orders) (p, ts) = (record { orders = orders; loading = false }, ts)
end_load now (threw e) (p, ts) = (
  record p { loading = false },
  add_toast now (dispute_notice error "Failed to load disputes" none) ts,
)

pub record Screen : Type 0 where
  pub card : DisputeCard
  pub page : DisputePage
  pub toasts : ToastState

-- `handleResolve` up to its await; the call reads `token!`, which is the token of the session.
unfoldable pub begin_resolve : ℕ → Winner → String → Order → Screen → Screen × Option ApiCall
begin_resolve now winner token o s =
    if truthy (trim s.card.reason)
    then (
      record s { card = record s.card { loading = true } },
      some (resolve_dispute o.id (winner_text winner) (trim s.card.reason) token),
    )
    else (
      record s {
        toasts =
            add_toast now
              (dispute_notice error "Reason required" (some "Enter a resolution reason")) s.toasts;
      },
      none,
    )

abbrev reloaded : ℕ → Result (List Order) → DisputeCard → DisputePage × Bool → ToastState → Screen
reloaded now answer d (p, false) ts = record { card = d; page = p; toasts = ts }
reloaded now answer d (p, true) ts =
    let (q, us) = end_load now answer (p, ts) in record { card = d; page = q; toasts = us }

-- The rest: a success tells it and calls `onResolved`, which is `load`; `list` is what that gives.
unfoldable pub end_resolve :
    ℕ → Winner → Option String → Result (Unit {0}) → Result (List Order) → Screen → Screen
unfolding begin_load end_load
end_resolve now winner token (ok _) list s =
    reloaded now list (record s.card { loading = false }) (begin_load token s.page)
      (add_toast now
        (dispute_notice onchain "Resolve submitted"
          (some ("Resolving in favour of " <> winner_text winner)))
        s.toasts)
end_resolve now winner token (threw e) list s = record s {
  card = record s.card { loading = false };
  toasts = add_toast now (dispute_notice error "Failed" (some (message_of e ""))) s.toasts;
}

abbrev pub after_call :
    ℕ
    → Winner
    → String
    → (ApiCall → Result (Unit {0}))
    → Result (List Order)
    → Screen × Option ApiCall
    → Screen
after_call now winner token answer list (s, none) = s
after_call now winner token answer list (s, some call) =
    end_resolve now winner (some token) (answer call) list s

-- A whole click, where the server answers the resolution as `answer` says.
unfoldable pub resolve_click :
    ℕ
    → Winner
    → String
    → (ApiCall → Result (Unit {0}))
    → Result (List Order)
    → Order
    → Screen
    → Screen
unfolding begin_resolve end_resolve
resolve_click now winner token answer list o s =
    after_call now winner token answer list (begin_resolve now winner token o s)

-- What the page shows: nothing of the disputes to who is no administrator.
pub data Shown : Type 0 where
  access_denied : Shown
  disputes : ℕ → Bool → List Order → Shown

abbrev count_orders : {A : Type 0} → List A → ℕ
count_orders [] = 0
count_orders (x ∷ xs) = count_orders xs + 1

unfoldable pub show_page : Option User → DisputePage → Shown
show_page none p = access_denied
show_page (some u) p =
    if u.is_admin then disputes (count_orders p.orders) p.loading p.orders else access_denied

-- The text of the escrow's link.
unfoldable pub escrow_text : Order → String
escrow_text o = head_slice 6 o.escrow_address <> ("..." <> (tail_slice 4 o.escrow_address <> " ↗"))
