-- ===== src/Cluster/Entities.antt =====
-- internal/cluster/types_runtime_entities.go and member.go: keepers, databases and the proxy
-- object of the document, and what keepers and proxies publish of themselves. `Spec` pointers are
-- never nil in a document that the sentinel wrote; a nil map or slice of a specification, which
-- `reflect.DeepEqual` tells from an empty one, is `none`.
use hysteron.Base.{Text, Map, Bool, Option, ℕ, ℤ, Time, Duration, List, Slice}
use hysteron.Cluster.Enums.{Role, DbInitMode, ReplicationTlsMode}
use hysteron.Cluster.Settings.{
  NewConfig, PitrConfig, FollowConfig, ReplicationSlotMatcher, ManagedLogicalReplicationSlot,
  PostgresBinaryVersion,
}

-- A generation is an int64 that starts at 1 and grows; 0 is `NoGeneration`.
abbrev pub no_generation : ℕ
no_generation = 0

abbrev pub initial_generation : ℕ
initial_generation = 1

pub record KeeperStatus : Type 0 where
  pub last_healthy_time : Time
  pub can_be_master : Option Bool
  pub can_be_synchronous_replica : Option Bool
  pub boot_uuid : Text
  pub hostname : Text
  pub node_name : Text
  pub postgres_binary_version : PostgresBinaryVersion
  pub master_priority : ℤ
  pub healthy : Bool
  pub force_fail : Bool

pub record Keeper : Type 0 where
  pub change_time : Time
  pub uid : Text
  pub status : KeeperStatus
  pub generation : ℕ

pub record DbSpec : Type 0 where
  pub new_config : Option NewConfig
  pub pitr_config : Option PitrConfig
  pub pg_parameters : Option (Map Text)
  pub follow_config : Option FollowConfig
  pub keeper_uid : Text
  pub init_mode : DbInitMode
  pub role : Role
  pub before_stop_command : Text
  pub pre_promote_command : Text
  pub replication_tls_mode : Option ReplicationTlsMode
  pub additional_replication_slots : Slice
  pub ignore_replication_slots : Slice
  pub ignore_replication_slot_matchers : Option (List ReplicationSlotMatcher)
  pub managed_logical_replication_slots : Option (List ManagedLogicalReplicationSlot)
  pub pg_hba : Slice
  pub pg_ident : Slice
  pub followers : Slice
  pub synchronous_standbys : Slice
  pub external_synchronous_standbys : Slice
  pub request_timeout : Duration
  pub max_standbys : ℕ
  pub additional_wal_senders : ℕ
  pub no_stream : Bool
  pub enable_logical_slot_failover : Bool
  pub synchronous_replication : Bool
  pub use_pgrewind : Bool
  pub checkpoint_before_pgrewind : Bool
  pub include_config : Bool

pub record PostgresTimelineHistory : Type 0 where
  pub reason : Text
  pub timeline_id : ℕ
  pub switch_point : ℕ

pub record DbStatus : Type 0 where
  pub pg_parameters : Option (Map Text)
  pub orphan_member_slots : Map Time
  pub managed_logical_slots : Map ℕ
  pub listen_address : Text
  pub port : Text
  pub system_id : Text
  pub older_wal_file : Text
  pub timelines_history : List PostgresTimelineHistory
  pub cur_synchronous_standbys : Slice
  pub synchronous_standbys : Slice
  pub current_generation : ℕ
  pub timeline_id : ℕ
  pub xlog_pos : ℕ
  pub healthy : Bool

pub record Db : Type 0 where
  pub change_time : Time
  pub spec : DbSpec
  pub uid : Text
  pub status : DbStatus
  pub generation : ℕ

pub record ProxySpec : Type 0 where
  pub master_db_uid : Text
  pub enabled_proxies : Slice

pub record Proxy : Type 0 where
  pub change_time : Time
  pub uid : Text
  pub spec : ProxySpec
  pub generation : ℕ

pub record PostgresState : Type 0 where
  pub pg_parameters : Option (Map Text)
  pub managed_logical_slots : Map ℕ
  pub uid : Text
  pub listen_address : Text
  pub port : Text
  pub system_id : Text
  pub older_wal_file : Text
  pub timelines_history : List PostgresTimelineHistory
  pub synchronous_standbys : Slice
  pub generation : ℕ
  pub timeline_id : ℕ
  pub xlog_pos : ℕ
  pub healthy : Bool

pub record KeeperInfo : Type 0 where
  pub postgres_state : Option PostgresState
  pub can_be_master : Option Bool
  pub can_be_synchronous_replica : Option Bool
  pub info_uid : Text
  pub uid : Text
  pub cluster_uid : Text
  pub boot_uuid : Text
  pub hostname : Text
  pub node_name : Text
  pub postgres_binary_version : PostgresBinaryVersion
  pub master_priority : ℤ

pub record ProxyListenerInfo : Type 0 where
  pub mode : Text
  pub address : Text
  pub port : Text
  pub active : Bool

pub record ProxyInfo : Type 0 where
  pub info_uid : Text
  pub uid : Text
  pub hostname : Text
  pub node_name : Text
  pub listeners : List ProxyListenerInfo
  pub generation : ℕ
  pub proxy_timeout : Duration
