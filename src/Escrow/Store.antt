-- ===== src/Escrow/Store.antt =====
-- The transaction store of frontend/src/features/escrow/store.ts. One store serves every hook.
use decentrarent.Prelude.{String, Option, none, some}

pub data TxStatus : Type 0 where
  idle signing confirming confirmed error : TxStatus

pub record TxState : Type 0 where
  pub status : TxStatus
  pub signature : Option String
  pub message : Option String  -- the field `error`

unfoldable pub initial_tx : TxState
initial_tx = record { status = idle; signature = none; message = none }

unfoldable pub set_signing : TxState → TxState
set_signing s = record { status = signing; signature = none; message = none }

unfoldable pub set_confirming : String → TxState → TxState
set_confirming sig s = record { status = confirming; signature = some sig; message = none }

unfoldable pub set_confirmed : TxState → TxState
set_confirmed s = record { status = confirmed; signature = s.signature; message = none }

unfoldable pub set_error : String → TxState → TxState
set_error e s = record { status = error; signature = s.signature; message = some e }

unfoldable pub reset : TxState → TxState
unfolding initial_tx
reset s = initial_tx
