-- ===== src/Chat.antt =====
-- The chat feature: frontend/src/features/chat. `Types` and `Store` are its data and its zustand
-- store, `Hook` the handlers of `useChat`; the other children prove their properties.
mod Types
mod Store
mod Hook
pub mod Spec
pub mod Refine
pub mod Live
pub mod Window
pub mod Magic
pub mod Grouping
pub mod Connection
pub mod Messages
pub mod Subscriptions
mod Tests
pub use Types.*
unfoldable pub use Store.*
unfoldable pub use Hook.*
