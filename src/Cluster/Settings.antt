-- ===== src/Cluster/Settings.antt =====
-- internal/cluster/types_bootstrap.go, types_replication.go and types_enums.go: the small
-- configuration records. A pointer that may be nil is an `Option`.
use hysteron.Base.{Text, Bool, Option, ℕ}
use hysteron.Cluster.Enums.{FollowType, ManualSwitchMode, ReplicationSlotType}

pub record NewConfig : Type 0 where
  pub locale : Text
  pub encoding : Text
  pub data_checksums : Bool

pub record ArchiveRecoverySettings : Type 0 where
  pub restore_command : Text

pub record RecoveryTargetSettings : Type 0 where
  pub recovery_target : Text
  pub recovery_target_lsn : Text
  pub recovery_target_name : Text
  pub recovery_target_time : Text
  pub recovery_target_xid : Text
  pub recovery_target_timeline : Text

pub record StandbySettings : Type 0 where
  pub primary_conninfo : Text
  pub primary_slot_name : Text
  pub recovery_min_apply_delay : Text

pub record PitrConfig : Type 0 where
  pub archive_recovery_settings : Option ArchiveRecoverySettings
  pub recovery_target_settings : Option RecoveryTargetSettings
  pub data_restore_command : Text

pub record ExistingConfig : Type 0 where
  pub keeper_uid : Text

pub record StandbyConfig : Type 0 where
  pub standby_settings : Option StandbySettings
  pub archive_recovery_settings : Option ArchiveRecoverySettings
  pub no_stream : Bool

pub record FollowConfig : Type 0 where
  pub standby_settings : Option StandbySettings
  pub archive_recovery_settings : Option ArchiveRecoverySettings
  pub follow_type : FollowType
  pub db_uid : Text

pub record PostgresBinaryVersion : Type 0 where
  pub maj : ℕ
  pub min : ℕ

pub record ManagedLogicalReplicationSlot : Type 0 where
  pub name : Text
  pub database : Text
  pub plugin : Text

pub record ReplicationSlotMatcher : Type 0 where
  pub name : Text
  pub slot_type : ReplicationSlotType
  pub database : Text
  pub plugin : Text

pub record ManualSwitchRequest : Type 0 where
  pub target_keeper_uid : Text
  pub mode : ManualSwitchMode
