-- ===== src/Escrow/Shared.antt =====
-- Two calls that share the store, in any interleaving of their parts.
use decentrarent.Prelude.{
  String, Bool, true, false, none, some, List, [], ◌∷◌, ◌≡◌, refl, ap, ◌∙◌, foldl,
}
use decentrarent.Prelude.Outcome.{Result, ok, threw}
use decentrarent.Escrow.Store.{TxState, idle, confirmed, set_signing, set_confirmed}
use decentrarent.Escrow.Instructions.{Chain}
use decentrarent.Escrow.Run.{
  Phase, at_blockhash, at_rpc, at_confirm, returned, failed, resume, transaction, Prepare, Ix,
}

-- Two calls and the store. A turn says which of the two is resumed, and with what its promise gave.
pub record Pair (Ix : Type 0) : Type 0 where
  pub left : Phase Ix
  pub right : Phase Ix
  pub store : TxState

abbrev pub Turn : Type 0
Turn = Bool × Result String

-- The answers of one side, in order.
abbrev pub answers : Bool → List Turn → List (Result String)
answers side [] = []
answers true ((true, r) ∷ ts) = r ∷ answers true ts
answers true ((false, r) ∷ ts) = answers true ts
answers false ((true, r) ∷ ts) = answers false ts
answers false ((false, r) ∷ ts) = r ∷ answers false ts

module _ {Ix : Type 0} where
  pub take_turn : Pair Ix → Turn → Pair Ix
  take_turn w (true, r) = let (p, s) = resume w.left r w.store in record w { left = p; store = s }
  take_turn w (false, r) =
      let (p, s) = resume w.right r w.store in record w { right = p; store = s }

  -- The phase after a part does not read the store.
  abbrev pub advance : Phase Ix → Result String → Phase Ix
  advance p r = (resume p r (record { status = idle; signature = none; message = none })).0

  resume-advance : (p : Phase Ix) (r : Result String) (s : TxState) → (resume p r s).0 ≡ advance p r
  unfolding resume
  resume-advance (at_blockhash (ok ix)) (ok h) s = refl
  resume-advance (at_blockhash (threw e)) (ok h) s = refl
  resume-advance (at_blockhash later) (threw e) s = refl
  resume-advance (at_rpc ix h) (ok sig) s = refl
  resume-advance (at_rpc ix h) (threw e) s = refl
  resume-advance (at_confirm sig h) (ok _) s = refl
  resume-advance (at_confirm sig h) (threw e) s = refl
  resume-advance (returned sig) r s = refl
  resume-advance (failed e) r s = refl

  -- However the parts of two calls are interleaved, each call takes the course that it takes alone on
  -- its own answers: sharing the store changes no signature returned, no error thrown and no
  -- instruction sent.
  pub interleaving_keeps_calls :
      (ts : List Turn) (w : Pair Ix)
      → ((foldl take_turn w ts).left ≡ foldl advance w.left (answers true ts))
        × ((foldl take_turn w ts).right ≡ foldl advance w.right (answers false ts))
  unfolding take_turn
  interleaving_keeps_calls [] w = (refl, refl)
  interleaving_keeps_calls ((true, r) ∷ ts) w =
      let (l, q) = interleaving_keeps_calls ts (take_turn w (true, r)) in
      (l ∙ ap (λ p. foldl advance p (answers true ts)) (resume-advance w.left r w.store), q)
  interleaving_keeps_calls ((false, r) ∷ ts) w =
      let (l, q) = interleaving_keeps_calls ts (take_turn w (false, r)) in
      (l, q ∙ ap (λ p. foldl advance p (answers false ts)) (resume-advance w.right r w.store))

-- The store does not survive it: if any other hook is called while a call waits for confirmation,
-- with a wallet and keys that it accepts, then the first call's success is shown as confirmed
-- without its signature, although the call returns that signature.
pub overlap_loses_signature :
    (c : Chain) (prepare : Prepare c) (wallet : c.Key) (later : Result (Ix c))
    (sig blockhash answer : String) (s : TxState)
    → c.get_program wallet ≡ ok tt
    → prepare wallet ≡ ok later
    → resume {Ix = Ix c}
        (at_confirm sig blockhash)
        (ok answer)
        (transaction c prepare (some wallet) s).1
      ≡ (returned sig, record { status = confirmed; signature = none; message = none })
unfolding resume transaction set_confirmed set_signing
overlap_loses_signature c prepare wallet later sig blockhash answer s hp hl = rw (hp, hl) refl
