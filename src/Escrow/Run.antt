-- ===== src/Escrow/Run.antt =====
-- The hooks of frontend/src/features/escrow/hooks. Each is an async function with three awaits; a call
-- is its phase between two awaits, and the store is shared by all. `transaction` is the part up to
-- the first await, `resume` each part after one.
use decentrarent.Prelude.{String, Option, none, some}
use decentrarent.Prelude.Outcome.{Result, ok, threw, Thrown, error_object, message_of, ◌>>=◌}
use decentrarent.Escrow.Store.{
  TxState, set_signing, set_confirming, set_confirmed, set_error, reset,
}
use decentrarent.Escrow.Pda.{units, uuid_to_bytes}
use decentrarent.Escrow.Instructions.{
  Chain, Instruction, Accounts, Method, lock_deposit_method, tenant_sign_method,
  landlord_sign_method, pay_rent_method, release_deposit_to_tenant, expire_escrow_method,
  open_dispute_method, resolve_dispute_landlord_method, resolve_dispute_tenant_method,
  LockDepositParams, PayRentParams, get_escrow_pda, TenantSignParams, LandlordSignParams,
  PartiesParams, DisputeParams,
}

-- Where a call stands. The instruction is still to be built at the first await, and is with the
-- wallet at the second; a signature and the block hash are held at the third.
pub data Phase (Ix : Type 0) : Type 0 where
  at_blockhash : Result Ix → Phase Ix
  at_rpc : Ix → String → Phase Ix
  at_confirm : String → String → Phase Ix
  returned : String → Phase Ix
  failed : Thrown → Phase Ix

module _ {Ix : Type 0} where
  -- The `catch`.
  unfoldable pub fail : Thrown → TxState → Phase Ix × TxState
  fail e s = (failed e, set_error (message_of e "Transaction failed") s)

  unfoldable pub prepared : Result (Result Ix) → TxState → Phase Ix × TxState
  unfolding fail
  prepared (ok later) s = (at_blockhash later, s)
  prepared (threw e) s = fail e s

  unfoldable pub built : Result Ix → String → TxState → Phase Ix × TxState
  unfolding fail
  built (ok ix) blockhash s = (at_rpc ix blockhash, s)
  built (threw e) blockhash s = fail e s

  -- The awaited promise gives its text, or throws. A settled call is not resumed.
  unfoldable pub resume : Phase Ix → Result String → TxState → Phase Ix × TxState
  unfolding fail built
  resume (at_blockhash later) (ok blockhash) s = built later blockhash s
  resume (at_blockhash later) (threw e) s = fail e s
  resume (at_rpc ix blockhash) (ok sig) s = (at_confirm sig blockhash, set_confirming sig s)
  resume (at_rpc ix blockhash) (threw e) s = fail e s
  resume (at_confirm sig blockhash) (ok _) s = (returned sig, set_confirmed s)
  resume (at_confirm sig blockhash) (threw e) s = fail e s
  resume (returned sig) r s = (returned sig, s)
  resume (failed e) r s = (failed e, s)

  -- A call with no other between its parts.
  unfoldable pub run_from :
      Phase Ix × TxState → Result String → Result String → Result String → Phase Ix × TxState
  run_from (p, s) r₁ r₂ r₃ =
      let (p₁, s₁) = resume p r₁ s in let (p₂, s₂) = resume p₁ r₂ s₁ in resume p₂ r₃ s₂

module _ (c : Chain) where
  open c use {Key, Big, parse_key, big_number, get_program}

  abbrev pub Ix : Type 0
  Ix = Instruction Key Big

  -- What a hook computes from the connected wallet: outside, before the first await, the keys and
  -- the escrow address; inside, after it, the instruction.
  abbrev pub Prepare : Type 0
  Prepare = Key → Result (Result Ix)

  unfoldable pub transaction : Prepare → Option Key → TxState → Phase Ix × TxState
  unfolding prepared
  transaction prepare none s =
      (failed (error_object "Wallet not connected"), set_error "Wallet not connected" s)
  transaction prepare (some wallet) s =
      prepared (get_program wallet >>= λ _. prepare wallet) (set_signing (reset s))

  -- The function that a hook gives, on the connected wallet and the store.
  abbrev pub Hook : Type 0
  Hook = Option Key → TxState → Phase Ix × TxState

  abbrev pub accounts : Option Key → Option Key → Option Key → Key → Accounts Key
  accounts tenant landlord authority escrow = record {
    tenant = tenant;
    landlord = landlord;
    authority = authority;
    escrow = escrow;
  }

  abbrev pub instruction : Method Big → Accounts Key → Result Ix
  instruction m a = ok (record { method = m; accounts = a })

  unfoldable pub lock_deposit : LockDepositParams c → Hook
  lock_deposit p = transaction λ wallet. do
    landlord ← parse_key p.landlord_pubkey
    authority ← parse_key p.authority_pubkey
    escrow ← get_escrow_pda c landlord wallet p.order_id
    ok (do
      deposit ← big_number p.deposit_lamports
      deadline ← big_number p.deadline_ts
      period ← big_number p.period
      start_date ← big_number p.start_date
      end_date ← big_number p.end_date
      price_rent ← big_number p.price_rent
      instruction
          (lock_deposit_method (uuid_to_bytes (units p.order_id)) deposit deadline period start_date
            end_date price_rent)
          (accounts (some wallet) (some landlord) (some authority) escrow))

  unfoldable pub tenant_sign : TenantSignParams → Hook
  tenant_sign p = transaction λ wallet. do
    landlord ← parse_key p.landlord_pubkey
    escrow ← get_escrow_pda c landlord wallet p.order_id
    ok (instruction tenant_sign_method (accounts (some wallet) none none escrow))

  unfoldable pub landlord_sign : LandlordSignParams → Hook
  landlord_sign p = transaction λ wallet. do
    tenant ← parse_key p.tenant_pubkey
    escrow ← get_escrow_pda c wallet tenant p.order_id
    ok (instruction landlord_sign_method (accounts none (some wallet) none escrow))

  unfoldable pub pay_rent : PayRentParams c → Hook
  pay_rent p = transaction λ wallet. do
    landlord ← parse_key p.landlord_pubkey
    escrow ← get_escrow_pda c landlord wallet p.order_id
    ok (do
      amount ← big_number p.amount_lamports
      instruction (pay_rent_method amount) (accounts (some wallet) (some landlord) none escrow))

  unfoldable pub release_deposit : PartiesParams → Hook
  release_deposit p = transaction λ wallet. do
    landlord ← parse_key p.landlord_pubkey
    tenant ← parse_key p.tenant_pubkey
    escrow ← get_escrow_pda c landlord tenant p.order_id
    ok (
        instruction release_deposit_to_tenant
          (accounts (some tenant) (some landlord) (some wallet) escrow))

  unfoldable pub expire_escrow : PartiesParams → Hook
  expire_escrow p = transaction λ wallet. do
    landlord ← parse_key p.landlord_pubkey
    tenant ← parse_key p.tenant_pubkey
    escrow ← get_escrow_pda c landlord tenant p.order_id
    ok (instruction expire_escrow_method (accounts (some tenant) none (some wallet) escrow))

  unfoldable pub open_dispute : DisputeParams → Hook
  open_dispute p = transaction λ wallet. do
    landlord ← parse_key p.landlord_pubkey
    tenant ← parse_key p.tenant_pubkey
    escrow ← get_escrow_pda c landlord tenant p.order_id
    ok (instruction (open_dispute_method p.reason) (accounts none none (some wallet) escrow))

  unfoldable pub resolve_dispute_tenant : DisputeParams → Hook
  resolve_dispute_tenant p = transaction λ wallet. do
    landlord ← parse_key p.landlord_pubkey
    tenant ← parse_key p.tenant_pubkey
    escrow ← get_escrow_pda c landlord tenant p.order_id
    ok (
        instruction (resolve_dispute_tenant_method p.reason)
          (accounts (some tenant) (some landlord) (some wallet) escrow))

  unfoldable pub resolve_dispute_landlord : DisputeParams → Hook
  resolve_dispute_landlord p = transaction λ wallet. do
    landlord ← parse_key p.landlord_pubkey
    tenant ← parse_key p.tenant_pubkey
    escrow ← get_escrow_pda c landlord tenant p.order_id
    ok (
        instruction (resolve_dispute_landlord_method p.reason)
          (accounts (some tenant) (some landlord) (some wallet) escrow))
