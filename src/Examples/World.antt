-- ===== src/Examples/World.antt =====
-- A cluster of a master and two standbys, for the tests and examples.
use hysteron.Base.{Text, text, Bool, true, false, Option, some, none, ℕ, [], ◌∷◌, ℤ, pos}
use hysteron.Cluster.Enums.{internal, ClusterPhase, ClusterInitMode, Role, DbInitMode}
use hysteron.Cluster.Settings.{FollowConfig}
use hysteron.Cluster.Spec.{ClusterSpec, empty_spec}
use hysteron.Cluster.Entities.{Keeper, DbSpec, Db, PostgresTimelineHistory}
use hysteron.Cluster.Document.{ClusterData}
use hysteron.Sentinel.State.{Sentinel}

-- A keeper of the given uid, health and priority.
abbrev pub keeper : Text → Bool → ℤ → Keeper
keeper uid healthy priority = record {
  change_time = 0;
  uid = uid;
  status = record {
    last_healthy_time = 1;
    can_be_master = none;
    can_be_synchronous_replica = none;
    boot_uuid = [];
    hostname = [];
    node_name = [];
    postgres_binary_version = record { maj = 17; min = 2 };
    master_priority = priority;
    healthy = healthy;
    force_fail = false;
  };
  generation = 1;
}

abbrev pub db_spec : Text → Role → Option FollowConfig → DbSpec
db_spec keeper_uid role follow = record {
  new_config = none;
  pitr_config = none;
  pg_parameters = none;
  follow_config = follow;
  keeper_uid = keeper_uid;
  init_mode = DbInitMode.nothing;
  role = role;
  before_stop_command = [];
  pre_promote_command = [];
  replication_tls_mode = none;
  additional_replication_slots = none;
  ignore_replication_slots = none;
  ignore_replication_slot_matchers = none;
  managed_logical_replication_slots = none;
  pg_hba = none;
  pg_ident = none;
  followers = none;
  synchronous_standbys = some (text "db2" ∷ []);
  external_synchronous_standbys = none;
  request_timeout = pos 10;
  max_standbys = 20;
  additional_wal_senders = 5;
  no_stream = false;
  enable_logical_slot_failover = false;
  synchronous_replication = true;
  use_pgrewind = false;
  checkpoint_before_pgrewind = false;
  include_config = false;
}

-- A database on timeline 1 at a log position.
abbrev pub database : Text → DbSpec → ℕ → Bool → Db
database uid spec xlog_pos healthy = record {
  change_time = 0;
  spec = spec;
  uid = uid;
  status = record {
    pg_parameters = none;
    orphan_member_slots = [];
    managed_logical_slots = [];
    listen_address = text "h";
    port = text "5432";
    system_id = text "s";
    older_wal_file = [];
    timelines_history = [];
    cur_synchronous_standbys = none;
    synchronous_standbys = some (text "db2" ∷ []);
    current_generation = 3;
    timeline_id = 1;
    xlog_pos = xlog_pos;
    healthy = healthy;
  };
  generation = 3;
}

abbrev pub follows : Text → Option FollowConfig
follows uid = some (record {
  standby_settings = none;
  archive_recovery_settings = none;
  follow_type = internal;
  db_uid = uid;
})

abbrev pub db1 : Db
db1 = database (text "db1") (db_spec (text "k1") Role.master none) 100 false

abbrev pub db2 : Db
db2 = database (text "db2") (db_spec (text "k2") Role.standby (follows (text "db1"))) 90 true

abbrev pub db3 : Db
db3 = database (text "db3") (db_spec (text "k3") Role.standby (follows (text "db1"))) 95 true

abbrev pub k1 : Keeper
k1 = keeper (text "k1") false (pos 1)

abbrev pub k2 : Keeper
k2 = keeper (text "k2") true (pos 1)

abbrev pub k3 : Keeper
k3 = keeper (text "k3") true (pos 2)

-- The document with a given specification.
abbrev pub document : ClusterSpec → ClusterData
document spec = record {
  change_time = 0;
  cluster = record {
    change_time = 0;
    spec = spec;
    uid = text "c";
    status = record {
      pause_until = none;
      manual_switch = none;
      phase = ClusterPhase.normal;
      master = text "db1";
      pause_reason = [];
      current_generation = 1;
      paused = false;
    };
    generation = 1;
  };
  keepers = (text "k1", k1) ∷ (text "k2", k2) ∷ (text "k3", k3) ∷ [];
  dbs = (text "db1", db1) ∷ (text "db2", db2) ∷ (text "db3", db3) ∷ [];
  proxy = record {
    change_time = 0;
    uid = text "p";
    spec = record { master_db_uid = text "db1"; enabled_proxies = none };
    generation = 1;
  };
  format_version = 1;
}

-- Asynchronous replication, and automatic failback without waiting.
abbrev pub async_cluster : ClusterData
async_cluster = document (record empty_spec {
  unsafe_auto_failback = some true;
  auto_failback_min_uptime = some (pos 0);
  auto_failback_cooldown = some (pos 0);
})

abbrev pub sync_cluster : ClusterData
sync_cluster = document (record empty_spec { synchronous_replication = some true })

-- A sentinel that has seen nothing yet.
abbrev pub fresh_sentinel : Sentinel
fresh_sentinel = record {
  keeper_error_timers = [];
  db_error_timers = [];
  db_not_increasing_xlog_pos = [];
  db_increasing_xlog_pos_observed_at = [];
  keeper_healthy_since = [];
  auto_failback_last_switch_at = 0;
  db_convergence_infos = [];
  leader_race_backoff_timers = [];
  force_failed_keeper_uids = [];
  keeper_info_histories = [];
  proxy_info_histories = [];
  sleep_interval = pos 5;
}

-- An operator has failed the keeper of the master.
abbrev pub forced_sentinel : Sentinel
forced_sentinel = record fresh_sentinel { force_failed_keeper_uids = text "k1" ∷ [] }

-- The third database was seen to advance at instant 900, and its backoff began at 950.
abbrev pub waiting_sentinel : Sentinel
waiting_sentinel = record fresh_sentinel {
  db_increasing_xlog_pos_observed_at = (text "db3", 900) ∷ [];
  leader_race_backoff_timers = (text "db1", 950) ∷ [];
}

-- A timeline that ended at a position.
abbrev pub ended : ℕ → ℕ → PostgresTimelineHistory
ended id point = record { reason = []; timeline_id = id; switch_point = point }

-- Two synchronous standbys are allowed.
abbrev pub pair_cluster : ClusterData
pair_cluster =
    document
      (record empty_spec { synchronous_replication = some true; max_synchronous_standbys = some 2 })

-- A specification that is accepted: a fresh cluster with the defaults.
abbrev pub fresh_spec : ClusterSpec
fresh_spec = record empty_spec { init_mode = some ClusterInitMode.fresh }
