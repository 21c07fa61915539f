-- ===== src/Protocols/Responses.antt =====
-- src/mr_hide/protocols/responses: the bodies of the OpenAI Responses API.
pub mod Items
pub mod JsonBody
pub mod Released
pub mod Rules
pub mod Parts
pub mod Calls
pub mod Reasoning
pub mod Kinds
pub mod Asked
pub mod Requests
pub mod Transactions
mod Examples
