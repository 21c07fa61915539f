-- ===== src/Proxy.antt =====
-- src/mr_hide/proxy: the headers of forwarded requests and responses.
pub mod Headers
