-- ===== src/Escrow/Instructions.antt =====
-- What the hooks of frontend/src/features/escrow/hooks send: the parameters of each, the accounts and
-- arguments of its instruction, and the libraries that they call as an interface.
use decentrarent.Prelude.{ℕ, String, Option, List, [], ◌∷◌}
use decentrarent.Prelude.Outcome.{Result}
use decentrarent.Escrow.Pda.{units, uuid_to_bytes}

-- @solana/web3.js and anchor: `new PublicKey(s)`, `key.toBytes()`, `new BN(n)`, `new Program(…)`
-- and `findProgramAddressSync(seeds, PROGRAM_ID)[0]`. What throws is a `Result`.
pub record Chain : Type 1 where
  pub Key : Type 0
  pub Big : Type 0
  pub Number : Type 0
  pub parse_key : String → Result Key
  pub key_bytes : Key → List ℕ
  pub big_number : Number → Result Big
  pub get_program : Key → Result (Unit {0})
  pub find_address : List (List ℕ) → Result Key

pub data Method (Big : Type 0) : Type 0 where
  lock_deposit_method : List ℕ → Big → Big → Big → Big → Big → Big → Method Big
  tenant_sign_method landlord_sign_method : Method Big
  pay_rent_method : Big → Method Big
  release_deposit_to_tenant expire_escrow_method : Method Big
  open_dispute_method resolve_dispute_landlord_method : String → Method Big
  resolve_dispute_tenant_method : String → Method Big

-- The accounts that `.accounts({ … })` names.
pub record Accounts (Key : Type 0) : Type 0 where
  pub tenant : Option Key
  pub landlord : Option Key
  pub authority : Option Key
  pub escrow : Key

pub record Instruction (Key Big : Type 0) : Type 0 where
  pub method : Method Big
  pub accounts : Accounts Key

module _ (c : Chain) where
  open c use {Key, Big, Number, key_bytes, find_address}

  pub record LockDepositParams : Type 0 where
    pub order_id : String
    pub landlord_pubkey : String
    pub authority_pubkey : String
    pub deposit_lamports : Number
    pub deadline_ts : Number
    pub period : Number
    pub start_date : Number
    pub end_date : Number
    pub price_rent : Number

  pub record PayRentParams : Type 0 where
    pub landlord_pubkey : String
    pub order_id : String
    pub amount_lamports : Number

  -- The first seed is ASCII, so that its bytes are its code units.
  unfoldable pub get_escrow_pda : Key → Key → String → Result Key
  get_escrow_pda landlord tenant order_id =
      find_address (
        units "escrow"
        ∷ key_bytes landlord
        ∷ key_bytes tenant
        ∷ uuid_to_bytes (units order_id)
        ∷ [])

pub record TenantSignParams : Type 0 where
  pub landlord_pubkey : String
  pub order_id : String

pub record LandlordSignParams : Type 0 where
  pub tenant_pubkey : String
  pub order_id : String

-- The parameters of useReleaseDeposit and useExpireEscrow.
pub record PartiesParams : Type 0 where
  pub landlord_pubkey : String
  pub tenant_pubkey : String
  pub order_id : String

-- The parameters of useOpenDispute and of the two useResolveDispute hooks.
pub record DisputeParams : Type 0 where
  pub landlord_pubkey : String
  pub tenant_pubkey : String
  pub order_id : String
  pub reason : String
