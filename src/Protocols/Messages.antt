-- ===== src/Protocols/Messages.antt =====
-- src/mr_hide/protocols/messages: the bodies of the Anthropic Messages API.
pub mod Blocks
pub mod JsonBody
pub mod Released
pub mod Rules
pub mod Contents
pub mod Sources
pub mod Fuel
pub mod Asked
pub mod Requests
pub mod Transactions
mod Examples
