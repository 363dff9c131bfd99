-- ===== src/Proxy.antt =====
-- internal/runtime/proxy and internal/utils/readonly: where a proxy sends its clients.
pub mod ReadOnly
pub mod Check
