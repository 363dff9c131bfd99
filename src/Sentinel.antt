-- ===== src/Sentinel.antt =====
-- internal/runtime/sentinel: health tracking, the choice of databases and of a new master, and the
-- computation of the next cluster data.
pub mod State
pub mod Health
pub mod Selection
pub mod Leadership
pub mod Update
pub mod Status
pub mod Proxies
