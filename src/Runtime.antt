-- ===== src/Runtime.antt =====
-- src/mr_hide/runtime: the transactions of a request.
pub mod Transaction
