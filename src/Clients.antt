-- ===== src/Clients.antt =====
-- src/mr_hide/clients: the arguments and the environment that a client is launched with.
pub mod Base
pub mod Claude
mod Examples
