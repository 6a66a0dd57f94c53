-- ===== src/Escrow/Address.antt =====
-- Every hook addresses the same escrow account for the same parties and order.
use decentrarent.Prelude.{String, some, ◌≡◌, refl, ap, ◌∙◌, sym}
use decentrarent.Prelude.Outcome.{Result, ok, threw, ◌>>=◌}
use decentrarent.Escrow.Store.{TxState}
use decentrarent.Escrow.Instructions.{
  Chain, LockDepositParams, PayRentParams, TenantSignParams, LandlordSignParams, PartiesParams,
  DisputeParams, get_escrow_pda,
}
use decentrarent.Escrow.Run.{
  Phase, transaction, at_blockhash, at_rpc, at_confirm, returned, failed, Ix, lock_deposit,
  tenant_sign, landlord_sign, pay_rent, release_deposit, expire_escrow, open_dispute,
  resolve_dispute_tenant, resolve_dispute_landlord,
}

module _ (c : Chain) (a : c.Key) where
  open c use {Key, get_program}

  -- An instruction that is built addresses the account `a`.
  abbrev pub BuildsFor : Result (Ix c) → Type 0
  BuildsFor later = (ix : Ix c) → later ≡ ok ix → ix.accounts.escrow ≡ a

  -- The call waits for a block hash with such an instruction.
  abbrev pub WaitsFor : Phase (Ix c) → Type 0
  WaitsFor (at_blockhash later) = BuildsFor later
  WaitsFor (at_rpc _ _) = ⊥
  WaitsFor (at_confirm _ _) = ⊥
  WaitsFor (returned _) = ⊥
  WaitsFor (failed _) = ⊥

  escrow_of : Ix c → Result (Ix c) → Key
  escrow_of ix (ok x) = x.accounts.escrow
  escrow_of ix (threw e) = ix.accounts.escrow

  BuildsFor-ok : (x : Ix c) → x.accounts.escrow ≡ a → BuildsFor (ok x)
  unfolding escrow_of
  BuildsFor-ok x e ix q = ap (escrow_of ix) (sym q) ∙ e

  BuildsFor-bind :
      {A : Type 0} (m : Result A) (f : A → Result (Ix c))
      → ((x : A) → BuildsFor (f x))
      → BuildsFor (m >>= f)
  BuildsFor-bind (ok x) f h = h x
  BuildsFor-bind (threw e) f h = λ ix q. cc

module _ (c : Chain) (landlord_pk tenant_pk order_id reason : String) (l t a w : c.Key)
    (s : TxState) where
  open c use {Key, get_program, parse_key}

  abbrev parties : PartiesParams
  parties = record { landlord_pubkey = landlord_pk; tenant_pubkey = tenant_pk; order_id = order_id }

  abbrev dispute : DisputeParams
  dispute = record {
    landlord_pubkey = landlord_pk;
    tenant_pubkey = tenant_pk;
    order_id = order_id;
    reason = reason;
  }

  abbrev tenant_params : TenantSignParams
  tenant_params = record { landlord_pubkey = landlord_pk; order_id = order_id }

  abbrev landlord_params : LandlordSignParams
  landlord_params = record { tenant_pubkey = tenant_pk; order_id = order_id }

  -- All hooks that are given the public keys of the same two parties and the same order, each with
  -- the wallet of the party that it is for (any wallet for those of the authority), wait for a block
  -- hash, and the instruction that they then build, if they build one, addresses one escrow account:
  -- the one derived from the landlord, the tenant and the order. The keys parse, the derivation
  -- succeeds and the program object can be made.
  pub hooks_agree_on_escrow :
      (lock : LockDepositParams c) (rent : PayRentParams c)
      → lock.landlord_pubkey ≡ landlord_pk
      → lock.order_id ≡ order_id
      → rent.landlord_pubkey ≡ landlord_pk
      → rent.order_id ≡ order_id
      → (authority : Key) → parse_key lock.authority_pubkey ≡ ok authority
      → parse_key landlord_pk ≡ ok l
      → parse_key tenant_pk ≡ ok t
      → get_escrow_pda c l t order_id ≡ ok a
      → ((k : Key) → get_program k ≡ ok tt)
      → WaitsFor c a (lock_deposit c lock (some t) s).0
        × WaitsFor c a (tenant_sign c tenant_params (some t) s).0
        × WaitsFor c a (landlord_sign c landlord_params (some l) s).0
        × WaitsFor c a (pay_rent c rent (some t) s).0
        × WaitsFor c a (release_deposit c parties (some w) s).0
        × WaitsFor c a (expire_escrow c parties (some w) s).0
        × WaitsFor c a (open_dispute c dispute (some w) s).0
        × WaitsFor c a (resolve_dispute_tenant c dispute (some w) s).0
        × WaitsFor c a (resolve_dispute_landlord c dispute (some w) s).0
  unfolding lock_deposit tenant_sign landlord_sign pay_rent release_deposit expire_escrow
      open_dispute resolve_dispute_tenant resolve_dispute_landlord transaction
  hooks_agree_on_escrow lock rent e₁ e₂ e₃ e₄ authority hau hl ht ha hp = (
    rw (hp t, e₁, e₂, hl, hau, ha)
        (BuildsFor-bind c a (c.big_number lock.deposit_lamports) _ λ x₁.
          BuildsFor-bind c a (c.big_number lock.deadline_ts) _ λ x₂.
            BuildsFor-bind c a (c.big_number lock.period) _ λ x₃.
              BuildsFor-bind c a (c.big_number lock.start_date) _ λ x₄.
                BuildsFor-bind c a (c.big_number lock.end_date) _ λ x₅.
                  BuildsFor-bind c a (c.big_number lock.price_rent) _
                    λ x₆. BuildsFor-ok c a _ refl),
    rw (hp t, hl, ha) (BuildsFor-ok c a _ refl),
    rw (hp l, ht, ha) (BuildsFor-ok c a _ refl),
    rw (hp t, e₃, e₄, hl, ha)
        (BuildsFor-bind c a (c.big_number rent.amount_lamports) _ λ x. BuildsFor-ok c a _ refl),
    rw (hp w, hl, ht, ha) (BuildsFor-ok c a _ refl),
    rw (hp w, hl, ht, ha) (BuildsFor-ok c a _ refl),
    rw (hp w, hl, ht, ha) (BuildsFor-ok c a _ refl),
    rw (hp w, hl, ht, ha) (BuildsFor-ok c a _ refl),
    rw (hp w, hl, ht, ha) (BuildsFor-ok c a _ refl),
  )
