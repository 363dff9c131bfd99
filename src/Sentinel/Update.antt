-- ===== src/Sentinel/Update.antt =====
-- internal/runtime/sentinel/cluster_update.go: the round that computes the next document.
pub mod Decision
pub mod Promotion
pub mod SyncStandbys
pub mod MemberSlots
pub mod Specs
pub mod NewDbs
pub mod Standbys
pub mod Initial
pub mod Rounds
