-- ===== src/Protocols.antt =====
-- src/mr_hide/protocols: the fields of JSON bodies that are transformed.
pub mod Walk
pub mod Documents
pub mod Tree
pub mod Depth
pub mod Contract
pub mod Released
pub mod Strings
pub mod Transactions
pub mod Messages
pub mod Responses
