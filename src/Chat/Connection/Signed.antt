-- ===== src/Chat/Connection/Signed.antt =====
-- The session, the window of the chat and the client of the broker: the hook stands in
-- frontend/src/features/chat/components/ChatWindow.tsx alone, whose route is behind `ProtectedRoute`.
use decentrarent.Prelude.{
  String, Bool, true, false, Option, none, some, List, [], ◌∷◌, ◌≡◌, refl, ◌∙◌, sym, ap, present,
  truthy, Bool-cases, inl, inr, eq_iff, arith,
}
use decentrarent.Prelude.Outcome.{Result}
use decentrarent.Api.{ApiCall}
use decentrarent.Navigation.{protected_page, chat, render, shown}
use decentrarent.Auth.{
  User, AuthState, initial_auth, login, logout, verify_token, rehydrate, partialize,
}
use decentrarent.Auth.Session.{Step, IsConsistent, Reach-IsConsistent}
use decentrarent.Auth.Session
use decentrarent.Chat.Connection.{
  Client, connected_client, Hooked, mounted, on_session, clean_up, same_token, same_flag, rerender,
}
use decentrarent.Chat.Connection.Clients
use decentrarent.Chat.Connection.Clients.{live, wanted, Reach-live}

abbrev pub deps : AuthState → Option String × Bool
deps s = (s.token, s.is_authenticated)

-- A change of the session in a page that stays.
pub data Change : AuthState → AuthState → Type 0 where
  logs_in :
      (token : String) (u : User) (s : AuthState) → truthy token ≡ true → Change s (login token u s)
  logs_out : (s : AuthState) → Change s (logout s)
  verifies : (send : ApiCall → Result (Unit {0})) (s : AuthState) → Change s (verify_token send s).1

Change-Step : {s t : AuthState} → Change s t → Step s t
Change-Step (logs_in token u s h) = Session.Step.logs_in token u s h
Change-Step (logs_out s) = Session.Step.logs_out s
Change-Step (verifies send s) = Session.Step.verifies send s

-- The chat's page is shown for a session.
abbrev pub ShowsChat : AuthState → Type 0
ShowsChat s = render s.is_authenticated (protected_page chat) ≡ shown chat

-- The session, whether the window of the chat is on the screen, and the hook of its component, or of
-- the last one that this page had. The window comes only where its route shows it, and goes when the
-- user leaves, or when the session no longer lets the route show it; else it is rendered again after
-- a change. A new start of the page takes its session from the storage and has no component and no
-- client.
pub data Runs : AuthState → Bool → Hooked → Type 0 where
  begins : Runs initial_auth false mounted
  opens :
      {s : AuthState} {h : Hooked}
      → Runs s false h
      → ShowsChat s
      → Runs s true (on_session s.token s.is_authenticated h)
  leaves : {s : AuthState} {h : Hooked} → Runs s true h → Runs s false (clean_up h)
  stays :
      {s t : AuthState} {h : Hooked}
      → Runs s true h
      → Change s t
      → ShowsChat t
      → Runs t true (rerender (deps s) (deps t) h)
  redirected :
      {s t : AuthState} {h : Hooked}
      → Runs s true h
      → Change s t
      → ¬ ShowsChat t
      → Runs t false (clean_up h)
  elsewhere : {s t : AuthState} {h : Hooked} → Runs s false h → Change s t → Runs t false h
  restarts :
      {s : AuthState} {on : Bool} {h : Hooked}
      → Runs s on h
      → Runs (rehydrate (partialize s)) false mounted

same_token-eq : (a b : Option String) → same_token a b ≡ true → a ≡ b
same_token-eq none none h = refl
same_token-eq (some a) (some b) h = ap some ((eq_iff a b).0 h)
same_token-eq none (some b) h = absurd (ground (arith, h))
same_token-eq (some a) none h = absurd (ground (arith, h))

same_flag-eq : (a b : Bool) → same_flag a b ≡ true → a ≡ b
same_flag-eq true true h = refl
same_flag-eq false false h = refl
same_flag-eq true false h = absurd (ground (arith, h))
same_flag-eq false true h = absurd (ground (arith, h))

rerender-Reach :
    (token token' : Option String) (signed signed' : Bool) (h : Hooked)
    → Clients.Reach h (token, signed)
    → Clients.Reach (rerender (token, signed) (token', signed') h) (token', signed')
unfolding rerender
rerender-Reach token token' signed signed' h r = elim (Bool-cases (same_token token token')) [
  | inr other ↦ rw other (Clients.Reach.session token' signed' r)
  | inl same ↦ elim (Bool-cases (same_flag signed signed')) [
    | inr other ↦ rw (same, other) (Clients.Reach.session token' signed' r)
    | inl both ↦
        rw (same, both)
          (rw (sym (same_token-eq token token' same), sym (same_flag-eq signed signed' both)) r)
  ]
]

abbrev seen : Bool → AuthState → Option String × Bool
seen true s = deps s
seen false s = (none, false)

both_reach :
    {s : AuthState} {on : Bool} {h : Hooked}
    → Runs s on h
    → Session.Reach s × Clients.Reach h (seen on s)
both_reach begins = (Session.Reach.start, Clients.Reach.mounts)
both_reach (opens {s} {h} r shows) =
    let (signed, held) = both_reach r in
    (signed, Clients.Reach.session s.token s.is_authenticated held)
both_reach (leaves r) = let (signed, held) = both_reach r in (signed, Clients.Reach.unmounts held)
both_reach (stays {s} {t} {h} r ch shows) =
    let (signed, held) = both_reach r in
    (
      Session.Reach.next signed (Change-Step ch),
      rerender-Reach s.token t.token s.is_authenticated t.is_authenticated h held,
    )
both_reach (redirected r ch hides) =
    let (signed, held) = both_reach r in
    (Session.Reach.next signed (Change-Step ch), Clients.Reach.unmounts held)
both_reach (elsewhere r ch) =
    let (signed, held) = both_reach r in (Session.Reach.next signed (Change-Step ch), held)
both_reach (restarts {s} r) =
    let (signed, held) = both_reach r in
    (Session.Reach.next signed (Session.Step.restarts s), Clients.Reach.mounts)

shows-signed : (b : Bool) → render b (protected_page chat) ≡ shown chat → b ≡ true
unfolding render
shows-signed true h = refl
shows-signed false h = cc h

on-signed : {s : AuthState} {h : Hooked} → Runs s true h → s.is_authenticated ≡ true
on-signed (opens {s} r shows) = shows-signed s.is_authenticated shows
on-signed (stays {s} {t} r ch shows) = shows-signed t.is_authenticated shows

-- What is connected: on the screen, one client with the token of the session, and else none.
abbrev pub Connected : Bool → AuthState → List Client → Type 0
Connected false s clients = clients ≡ []
Connected true s clients =
    (s.is_authenticated ≡ true)
    × ((token : String) × (s.token ≡ some token) × (clients ≡ connected_client token ∷ []))

by_screen : (on : Bool) {s : AuthState} {h : Hooked} → Runs s on h → Connected on s (live h.clients)
by_screen false r = let (signed, held) = both_reach r in (Reach-live held).0
by_screen true {s} {h} r =
    let (signed, held) = both_reach r in
    let c = (Reach-IsConsistent signed).0 in
    let auth = on-signed r in (auth, of s.token (sym c.by_token ∙ auth) auth (Reach-live held).0)
  where
    of :
        (t : Option String)
        → present t ≡ true
        → s.is_authenticated ≡ true
        → live h.clients ≡ wanted (t, s.is_authenticated)
        → (token : String) × (t ≡ some token) × (live h.clients ≡ connected_client token ∷ [])
    of none p auth only = absurd (ground (arith, p))
    of (some token) p auth only = (token, refl, only ∙ rw (auth, p) refl)

-- Through every run of visits to the chat, sign-ins, sign-outs, checks of the token and new starts of
-- the page, exactly one client is connected while the window of the chat is on the screen, where
-- somebody is signed in, with the token of the session; and none is while it is not.
pub Runs-Connected :
    {s : AuthState} {on : Bool} {h : Hooked} → Runs s on h → Connected on s (live h.clients)
Runs-Connected {s} {on} r = by_screen on r
