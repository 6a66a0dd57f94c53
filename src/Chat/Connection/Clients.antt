-- ===== src/Chat/Connection/Clients.antt =====
-- At most one client is connected, and it is that of the session.
use decentrarent.Prelude.{
  String, Bool, false, ◌&&◌, Option, none, some, List, [], ◌∷◌, ◌++◌, ◌≡◌, refl, ◌∙◌, sym, ap,
  if◌then◌else◌, present, default, length, filter, Bool-cases, inl, inr, filter-append, get_elem?,
}
use decentrarent.Chat.Connection.{
  Client, connected_client, disconnect, Hooked, mounted, clean_up, run_effect, on_session,
}

abbrev pub live : List Client → List Client
live = filter (λ c. c.is_connected)

-- What may happen to the component, with the session that it was rendered with last; none when it
-- is not on the page.
pub data Reach : Hooked → Option String × Bool → Type 0 where
  mounts : Reach mounted (none, false)
  session :
      {h : Hooked} {s : Option String × Bool} (token : Option String) (is_authenticated : Bool)
      → Reach h s
      → Reach (on_session token is_authenticated h) (token, is_authenticated)
  unmounts : {h : Hooked} {s : Option String × Bool} → Reach h s → Reach (clean_up h) (none, false)

-- The client that a session asks for.
abbrev pub wanted : Option String × Bool → List Client
wanted (token, is_authenticated) =
    if is_authenticated && present token then connected_client (default token "") ∷ [] else []

disconnect-last :
    (cs : List Client) (c : Client)
    → disconnect (length cs) (cs ++ c ∷ []) ≡ cs ++ record c { is_connected = false } ∷ []
disconnect-last [] c = refl
disconnect-last (d ∷ cs) c = ap (λ r. d ∷ r) (disconnect-last cs c)

abbrev at_rest : List Client → Hooked
at_rest cs = record { clients = cs; client_ref = none; cleanup = none }

abbrev running : List Client → String → Hooked
running cs token = record {
  clients = cs ++ connected_client token ∷ [];
  client_ref = some (length cs);
  cleanup = some (length cs);
}

-- Either nothing is connected and there is nothing to clean up, or the newest client alone is.
data Shape : Hooked → Option String × Bool → Type 0 where
  idle :
      {s : Option String × Bool} (cs : List Client)
      → live cs ≡ []
      → wanted s ≡ []
      → Shape (at_rest cs) s
  busy :
      {s : Option String × Bool} (cs : List Client) (token : String)
      → live cs ≡ []
      → wanted s ≡ connected_client token ∷ []
      → Shape (running cs token) s

clean-Shape :
    {h : Hooked} {s : Option String × Bool}
    → Shape h s
    → (cs : List Client) × (live cs ≡ []) × (clean_up h ≡ at_rest cs)
unfolding clean_up
clean-Shape (idle cs l w) = (cs, l, refl)
clean-Shape (busy cs token l w) =
    let off : Client = record { token = token; is_connected = false } in
    (
      cs ++ off ∷ [],
      filter-append (λ (c : Client). c.is_connected) cs (off ∷ []) ∙ rw l refl,
      ap at_rest (disconnect-last cs (connected_client token)),
    )

Reach-Shape : {h : Hooked} {s : Option String × Bool} → Reach h s → Shape h s
unfolding on_session mounted run_effect
Reach-Shape mounts = idle [] refl refl
Reach-Shape (unmounts r) = let (cs, l, e) = clean-Shape (Reach-Shape r) in rw e (idle cs l refl)
Reach-Shape (session token is_authenticated r) =
    let (cs, l, e) = clean-Shape (Reach-Shape r) in
    rw e (elim (Bool-cases (is_authenticated && present token)) [
      | inl asks ↦ rw asks (busy cs (default token "") l (rw asks refl))
      | inr none_asked ↦ rw none_asked (idle cs l (rw none_asked refl))
    ])

-- What `clientRef.current` holds.
abbrev pub referred : Hooked → Option Client
referred h = elim h.client_ref [ none ↦ none | some i ↦ get_elem? h.clients i ]

abbrev pub newest : List Client → Option Client
newest [] = none
newest (c ∷ cs) = some c

last_elem : (cs : List Client) (c : Client) → get_elem? (cs ++ c ∷ []) (length cs) ≡ some c
last_elem [] c = refl
last_elem (d ∷ cs) c = last_elem cs c

-- Through every run of sessions, mounted or not, the clients that are connected are exactly that
-- of the session rendered last, with its token, or none where nobody is signed in or the component
-- is gone; and the reference holds it.
pub Reach-live :
    {h : Hooked} {s : Option String × Bool}
    → Reach h s
    → (live h.clients ≡ wanted s) × (referred h ≡ newest (wanted s))
Reach-live r = of (Reach-Shape r)
  where
    of :
        {h : Hooked} {s : Option String × Bool}
        → Shape h s
        → (live h.clients ≡ wanted s) × (referred h ≡ newest (wanted s))
    of (idle cs l w) = (l ∙ sym w, ap newest (sym w))
    of (busy cs token l w) = (
      filter-append (λ (c : Client). c.is_connected) cs (connected_client token ∷ [])
          ∙ (rw l refl ∙ sym w),
      last_elem cs (connected_client token) ∙ ap newest (sym w),
    )
