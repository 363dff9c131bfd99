-- ===== src/Cluster/Spec.antt =====
-- internal/cluster/types_cluster.go, defaults.go and constants.go: the cluster specification, as
-- it is given (a nil pointer is `none`) and with its defaults filled in.
use mathlib.Core.Option
use hysteron.Base.{
  Text, Map, Bool, true, false, Option, none, ℕ, pos, Duration, List, [], ◌*◌, Slice,
}
use hysteron.Cluster.Enums.{ClusterRole, ClusterInitMode, SuReplAccessMode, ReplicationTlsMode}
use hysteron.Cluster.Settings.{
  NewConfig, PitrConfig, ExistingConfig, StandbyConfig, ManagedLogicalReplicationSlot,
  ReplicationSlotMatcher,
}

pub record ClusterSpec : Type 0 where
  pub sleep_interval : Option Duration
  pub request_timeout : Option Duration
  pub convergence_timeout : Option Duration
  pub init_timeout : Option Duration
  pub sync_timeout : Option Duration
  pub db_wait_ready_timeout : Option Duration
  pub fail_interval : Option Duration
  pub enable_failsafe_mode : Option Bool
  pub failsafe_probe_interval : Option Duration
  pub failsafe_probe_timeout : Option Duration
  pub failsafe_max_missing_peers : Option ℕ
  pub failsafe_ttl : Option Duration
  pub dead_keeper_removal_interval : Option Duration
  pub proxy_check_interval : Option Duration
  pub proxy_timeout : Option Duration
  pub max_standbys : Option ℕ
  pub max_standbys_per_sender : Option ℕ
  pub max_standby_lag : Option ℕ
  pub synchronous_replication : Option Bool
  pub unsafe_auto_failback : Option Bool
  pub auto_failback_min_uptime : Option Duration
  pub auto_failback_cooldown : Option Duration
  pub use_pgrewind : Option Bool
  pub min_synchronous_standbys : Option ℕ
  pub max_synchronous_standbys : Option ℕ
  pub additional_wal_senders : Option ℕ
  pub merge_pg_parameters : Option Bool
  pub default_su_repl_access_mode : Option SuReplAccessMode
  pub role : Option ClusterRole
  pub automatic_pg_restart : Option Bool
  pub replication_tls_mode : Option ReplicationTlsMode
  pub checkpoint_before_pgrewind : Option Bool
  pub init_mode : Option ClusterInitMode
  pub new_config : Option NewConfig
  pub pitr_config : Option PitrConfig
  pub existing_config : Option ExistingConfig
  pub standby_config : Option StandbyConfig
  pub pg_parameters : Option (Map Text)
  pub member_replication_slot_ttl : Option Duration
  pub before_stop_command : Text
  pub pre_promote_command : Text
  pub additional_master_replication_slots : Slice
  pub ignore_master_replication_slots : Slice
  pub ignore_master_replication_slot_matchers : Option (List ReplicationSlotMatcher)
  pub managed_logical_replication_slots : Option (List ManagedLogicalReplicationSlot)
  pub pg_hba : Slice
  pub pg_ident : Slice
  pub enable_logical_slot_failover : Bool

-- The result of `WithDefaults`: the pointers that it sets are never nil.
pub record DefSpec : Type 0 where
  pub sleep_interval : Duration
  pub request_timeout : Duration
  pub convergence_timeout : Duration
  pub init_timeout : Duration
  pub sync_timeout : Duration
  pub db_wait_ready_timeout : Duration
  pub fail_interval : Duration
  pub enable_failsafe_mode : Bool
  pub failsafe_probe_interval : Duration
  pub failsafe_probe_timeout : Duration
  pub failsafe_max_missing_peers : ℕ
  pub failsafe_ttl : Duration
  pub dead_keeper_removal_interval : Duration
  pub proxy_check_interval : Duration
  pub proxy_timeout : Duration
  pub max_standbys : ℕ
  pub max_standbys_per_sender : ℕ
  pub max_standby_lag : ℕ
  pub synchronous_replication : Bool
  pub unsafe_auto_failback : Bool
  pub auto_failback_min_uptime : Duration
  pub auto_failback_cooldown : Duration
  pub use_pgrewind : Bool
  pub min_synchronous_standbys : ℕ
  pub max_synchronous_standbys : ℕ
  pub additional_wal_senders : ℕ
  pub merge_pg_parameters : Bool
  pub default_su_repl_access_mode : SuReplAccessMode
  pub role : ClusterRole
  pub automatic_pg_restart : Bool
  pub replication_tls_mode : Option ReplicationTlsMode
  pub checkpoint_before_pgrewind : Option Bool
  pub init_mode : Option ClusterInitMode
  pub new_config : Option NewConfig
  pub pitr_config : Option PitrConfig
  pub existing_config : Option ExistingConfig
  pub standby_config : Option StandbyConfig
  pub pg_parameters : Option (Map Text)
  pub member_replication_slot_ttl : Option Duration
  pub before_stop_command : Text
  pub pre_promote_command : Text
  pub additional_master_replication_slots : Slice
  pub ignore_master_replication_slots : Slice
  pub ignore_master_replication_slot_matchers : Option (List ReplicationSlotMatcher)
  pub managed_logical_replication_slots : Option (List ManagedLogicalReplicationSlot)
  pub pg_hba : Slice
  pub pg_ident : Slice
  pub enable_logical_slot_failover : Bool

-- Nanoseconds.
abbrev second : ℕ
second = 1_000_000_000

abbrev minute : ℕ
minute = 60 * second

abbrev hour : ℕ
hour = 60 * minute

-- `DefaultMaxStandbyLag`
abbrev pub default_max_standby_lag : ℕ
default_max_standby_lag = 1024 * 1204

unfoldable pub with_defaults : ClusterSpec → DefSpec
with_defaults s = record {
  sleep_interval = Option.get_or s.sleep_interval (pos (5 * second));
  request_timeout = Option.get_or s.request_timeout (pos (10 * second));
  convergence_timeout = Option.get_or s.convergence_timeout (pos (30 * second));
  init_timeout = Option.get_or s.init_timeout (pos (5 * minute));
  sync_timeout = Option.get_or s.sync_timeout (pos 0);
  db_wait_ready_timeout = Option.get_or s.db_wait_ready_timeout (pos (60 * second));
  fail_interval = Option.get_or s.fail_interval (pos (30 * second));
  enable_failsafe_mode = Option.get_or s.enable_failsafe_mode false;
  failsafe_probe_interval = Option.get_or s.failsafe_probe_interval (pos (2 * second));
  failsafe_probe_timeout = Option.get_or s.failsafe_probe_timeout (pos (1 * second));
  failsafe_max_missing_peers = Option.get_or s.failsafe_max_missing_peers 0;
  failsafe_ttl = Option.get_or s.failsafe_ttl (pos (15 * second));
  dead_keeper_removal_interval = Option.get_or s.dead_keeper_removal_interval (pos (48 * hour));
  proxy_check_interval = Option.get_or s.proxy_check_interval (pos (5 * second));
  proxy_timeout = Option.get_or s.proxy_timeout (pos (15 * second));
  max_standbys = Option.get_or s.max_standbys 20;
  max_standbys_per_sender = Option.get_or s.max_standbys_per_sender 3;
  max_standby_lag = Option.get_or s.max_standby_lag default_max_standby_lag;
  synchronous_replication = Option.get_or s.synchronous_replication false;
  unsafe_auto_failback = Option.get_or s.unsafe_auto_failback false;
  auto_failback_min_uptime = Option.get_or s.auto_failback_min_uptime (pos (60 * second));
  auto_failback_cooldown = Option.get_or s.auto_failback_cooldown (pos (5 * minute));
  use_pgrewind = Option.get_or s.use_pgrewind false;
  min_synchronous_standbys = Option.get_or s.min_synchronous_standbys 1;
  max_synchronous_standbys = Option.get_or s.max_synchronous_standbys 1;
  additional_wal_senders = Option.get_or s.additional_wal_senders 5;
  merge_pg_parameters = Option.get_or s.merge_pg_parameters true;
  default_su_repl_access_mode =
      Option.get_or s.default_su_repl_access_mode SuReplAccessMode.everyone;
  role = Option.get_or s.role ClusterRole.master;
  automatic_pg_restart = Option.get_or s.automatic_pg_restart false;
  replication_tls_mode = s.replication_tls_mode;
  checkpoint_before_pgrewind = s.checkpoint_before_pgrewind;
  init_mode = s.init_mode;
  new_config = s.new_config;
  pitr_config = s.pitr_config;
  existing_config = s.existing_config;
  standby_config = s.standby_config;
  pg_parameters = s.pg_parameters;
  member_replication_slot_ttl = s.member_replication_slot_ttl;
  before_stop_command = s.before_stop_command;
  pre_promote_command = s.pre_promote_command;
  additional_master_replication_slots = s.additional_master_replication_slots;
  ignore_master_replication_slots = s.ignore_master_replication_slots;
  ignore_master_replication_slot_matchers = s.ignore_master_replication_slot_matchers;
  managed_logical_replication_slots = s.managed_logical_replication_slots;
  pg_hba = s.pg_hba;
  pg_ident = s.pg_ident;
  enable_logical_slot_failover = s.enable_logical_slot_failover;
}

-- A specification in which nothing is set.
abbrev pub empty_spec : ClusterSpec
empty_spec = record {
  sleep_interval = none;
  request_timeout = none;
  convergence_timeout = none;
  init_timeout = none;
  sync_timeout = none;
  db_wait_ready_timeout = none;
  fail_interval = none;
  enable_failsafe_mode = none;
  failsafe_probe_interval = none;
  failsafe_probe_timeout = none;
  failsafe_max_missing_peers = none;
  failsafe_ttl = none;
  dead_keeper_removal_interval = none;
  proxy_check_interval = none;
  proxy_timeout = none;
  max_standbys = none;
  max_standbys_per_sender = none;
  max_standby_lag = none;
  synchronous_replication = none;
  unsafe_auto_failback = none;
  auto_failback_min_uptime = none;
  auto_failback_cooldown = none;
  use_pgrewind = none;
  min_synchronous_standbys = none;
  max_synchronous_standbys = none;
  additional_wal_senders = none;
  merge_pg_parameters = none;
  default_su_repl_access_mode = none;
  role = none;
  automatic_pg_restart = none;
  replication_tls_mode = none;
  checkpoint_before_pgrewind = none;
  init_mode = none;
  new_config = none;
  pitr_config = none;
  existing_config = none;
  standby_config = none;
  pg_parameters = none;
  member_replication_slot_ttl = none;
  before_stop_command = [];
  pre_promote_command = [];
  additional_master_replication_slots = none;
  ignore_master_replication_slots = none;
  ignore_master_replication_slot_matchers = none;
  managed_logical_replication_slots = none;
  pg_hba = none;
  pg_ident = none;
  enable_logical_slot_failover = false;
}
