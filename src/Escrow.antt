-- ===== src/Escrow.antt =====
-- The escrow feature: frontend/src/features/escrow. `Store` is the transaction store, `Pda` the seeds
-- of the escrow address, `Instructions` what each hook of hooks/ builds, `Run` the body that the
-- hooks share, in the segments between its awaits.
mod Store
mod Pda
mod Instructions
mod Run
pub mod Bytes
pub mod Solo
pub mod Address
pub mod Shared
mod Tests
unfoldable pub use Store.*
unfoldable pub use Pda.*
unfoldable pub use Instructions.*
unfoldable pub use Run.*
