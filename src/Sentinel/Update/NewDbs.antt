-- ===== src/Sentinel/Update/NewDbs.antt =====
-- The databases that `updateCluster` of cluster_update.go creates: the fields that it does not set
-- have Go's zero values.
use hysteron.Base.{Text, false, some, none, [], pos}
use hysteron.Cluster.Enums.{DbInitMode, Role}
use hysteron.Cluster.Entities.{Db, DbSpec, DbStatus, initial_generation}

-- `&cluster.DBSpec{KeeperUID: keeper_uid, InitMode: init_mode, Role: role, Followers: []string{}}`
abbrev pub spec_of_new : Text → DbInitMode → Role → DbSpec
spec_of_new keeper_uid init_mode role = record {
  new_config = none;
  pitr_config = none;
  pg_parameters = none;
  follow_config = none;
  keeper_uid = keeper_uid;
  init_mode = init_mode;
  role = role;
  before_stop_command = [];
  pre_promote_command = [];
  replication_tls_mode = none;
  additional_replication_slots = none;
  ignore_replication_slots = none;
  ignore_replication_slot_matchers = none;
  managed_logical_replication_slots = none;
  pg_hba = none;
  pg_ident = none;
  followers = some [];
  synchronous_standbys = none;
  external_synchronous_standbys = none;
  request_timeout = pos 0;
  max_standbys = 0;
  additional_wal_senders = 0;
  no_stream = false;
  enable_logical_slot_failover = false;
  synchronous_replication = false;
  use_pgrewind = false;
  checkpoint_before_pgrewind = false;
  include_config = false;
}

-- `cluster.DBStatus{}`
abbrev blank_status : DbStatus
blank_status = record {
  pg_parameters = none;
  orphan_member_slots = [];
  managed_logical_slots = [];
  listen_address = [];
  port = [];
  system_id = [];
  older_wal_file = [];
  timelines_history = [];
  cur_synchronous_standbys = none;
  synchronous_standbys = none;
  current_generation = 0;
  timeline_id = 0;
  xlog_pos = 0;
  healthy = false;
}

-- `&cluster.DB{UID: uid, Generation: cluster.InitialGeneration, Spec: spec}`
abbrev pub new_db : Text → DbSpec → Db
new_db uid spec = record {
  change_time = 0;
  spec = spec;
  uid = uid;
  status = blank_status;
  generation = initial_generation;
}
