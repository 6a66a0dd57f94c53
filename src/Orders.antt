-- ===== src/Orders.antt =====
-- The orders feature: frontend/src/features/orders. `Types` has the interfaces of types.ts, `Updates`
-- the hook of hooks/useOrderUpdates.ts; `Merge` proves what it keeps.
mod Types
mod Updates
pub mod Merge
pub mod Draft
pub mod Panel
pub mod Disputes
pub mod Card
mod Tests
unfoldable pub use Types.*
unfoldable pub use Updates.*
