-- ===== src/State.antt =====
-- src/mr_hide/state: the state of a conversation, the store of vault files, the repository over it,
-- and the lifecycle of conversations.
pub mod Models
pub mod Store
pub mod Repository
pub mod Leaves
pub mod Codec
pub mod Keys
pub mod Lifecycle
mod Examples
