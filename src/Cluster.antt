-- ===== src/Cluster.antt =====
-- internal/cluster: the cluster-data document, and what its own methods compute.
pub mod Enums
pub mod Settings
pub mod Spec
pub mod Entities
pub mod Document
pub mod Timeline
pub mod Checks
pub mod SlotChecks
pub mod Validate
