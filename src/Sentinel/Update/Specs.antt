-- ===== src/Sentinel/Update/Specs.antt =====
-- The end of `updateCluster` in cluster_update.go and `setDBSpecFromClusterSpec` of
-- cluster_init.go: the followers of the master, the settings that every database takes from the
-- cluster, the slots that are left over, and the generations of the databases that changed.
pub mod Changes
pub mod Views
pub mod Settings
pub mod Written
pub mod Settled
pub mod Orders
pub mod Versions
use mathlib.Core.Option
use hysteron.Base.{
  Text, text_eq, Map, lookup, insert, values, Bool, true, false, not, Option, some, none, ℕ, ◌+◌,
  List, [], ◌∷◌, ◌&&◌, Duration, pos, ltb_ℤ, if◌then◌else◌, elems, sort_texts, filter, map, Time,
}
use hysteron.Cluster.Enums.{FollowType, internal, external}
use hysteron.Cluster.Settings.{FollowConfig, StandbyConfig}
use hysteron.Cluster.Spec.{DefSpec}
use hysteron.Cluster.Entities.{Db, DbSpec, DbStatus}
use hysteron.Cluster.Document.{ClusterData, ClusterStatus, Cluster, def_spec}
use hysteron.Sentinel.State.{Result, ok, err}
use hysteron.Sentinel.Selection.{DbType, primary_line, replica_line, db_type}
use hysteron.Sentinel.Update.MemberSlots.{compute_orphan_member_slots}
use hysteron.Sentinel.Update.Specs.Changes.{deep_equal}

-- The database follows the wanted master.
unfoldable pub is_following : Text → Option FollowConfig → Bool
is_following wanted none = false
is_following wanted (some fc) = elim fc.follow_type [
  | external ↦ false
  | internal ↦ text_eq fc.db_uid wanted
]

unfoldable pub is_follower : Text → Text → Db → Bool
is_follower master_uid wanted db =
    not (text_eq master_uid db.uid) && is_following wanted db.spec.follow_config

unfoldable pub followers_of : Text → Text → List Db → List Text
followers_of master_uid wanted dbs =
    sort_texts (map (λ (db : Db). db.uid) (filter (is_follower master_uid wanted) dbs))

-- "Update followers for master DB"; `none` is the panic without a record of the master.
unfoldable pub update_followers : Text → Text → Map Db → Option (Map Db)
update_followers cur_master wanted dbs = elim (lookup cur_master dbs) [
  | none ↦ none
  | some master ↦ some (
      insert cur_master
        (record master {
          spec = record master.spec {
            followers = some (followers_of master.uid wanted (values dbs));
          };
        })
        dbs)
]

-- An external source takes the settings of the cluster; without a `standbyConfig`, a panic.
unfoldable pub follow_settings : DefSpec → Option FollowConfig → Option (Option FollowConfig)
follow_settings c none = some none
follow_settings c (some fc) = elim fc.follow_type [
  | internal ↦ some (some fc)
  | external ↦ elim c.standby_config [
    | none ↦ none
    | some sc ↦ some (
        some (record fc {
          standby_settings = sc.standby_settings;
          archive_recovery_settings = sc.archive_recovery_settings;
        }))
  ]
]

abbrev no_stream_of : Option StandbyConfig → Bool
no_stream_of none = false
no_stream_of (some sc) = sc.no_stream

-- What depends on the type of the database; a type that cannot be determined leaves it as it is.
unfoldable pub slot_settings : DefSpec → Result DbType → DbSpec → DbSpec
slot_settings c (err e) spec = spec
slot_settings c (ok primary_line) spec = record spec {
  additional_replication_slots = c.additional_master_replication_slots;
  ignore_replication_slots = c.ignore_master_replication_slots;
  ignore_replication_slot_matchers = c.ignore_master_replication_slot_matchers;
  managed_logical_replication_slots = c.managed_logical_replication_slots;
  no_stream = false;
}
slot_settings c (ok replica_line) spec = record spec {
  additional_replication_slots = none;
  ignore_replication_slots = none;
  ignore_replication_slot_matchers = none;
  no_stream = no_stream_of c.standby_config;
  managed_logical_replication_slots =
      if c.enable_logical_slot_failover then c.managed_logical_replication_slots else none;
}

-- What every database takes.
unfoldable pub common_settings : DefSpec → Option FollowConfig → DbSpec → DbSpec
common_settings c follow spec = record spec {
  request_timeout = c.request_timeout;
  max_standbys = c.max_standbys;
  use_pgrewind = c.use_pgrewind;
  checkpoint_before_pgrewind = Option.get_or c.checkpoint_before_pgrewind false;
  replication_tls_mode = c.replication_tls_mode;
  pg_parameters = c.pg_parameters;
  pg_hba = c.pg_hba;
  pg_ident = c.pg_ident;
  before_stop_command = c.before_stop_command;
  pre_promote_command = c.pre_promote_command;
  enable_logical_slot_failover = c.enable_logical_slot_failover;
  follow_config = follow;
  additional_wal_senders = c.additional_wal_senders;
}

unfoldable pub db_settings : DefSpec → Result DbType → DbSpec → Option DbSpec
db_settings c t spec = elim (follow_settings c spec.follow_config) [
  | none ↦ none
  | some follow ↦ some (slot_settings c t (common_settings c follow spec))
]

-- The loop over the databases; no round changes what `dbType` reads of another.
unfoldable pub set_db_specs : ClusterData → Map Db → Option (Map Db)
set_db_specs cd [] = some []
set_db_specs cd ((uid, db) ∷ dbs) = elim (db_settings (def_spec cd) (db_type cd db.uid) db.spec) [
  | none ↦ none
  | some spec ↦ elim (set_db_specs cd dbs) [
    | none ↦ none
    | some rest ↦ some ((uid, record db { spec = spec }) ∷ rest)
  ]
]

-- `setDBSpecFromClusterSpec`
unfoldable pub set_db_spec_from_cluster_spec : ClusterData → Option ClusterData
set_db_spec_from_cluster_spec cd = elim (set_db_specs cd cd.dbs) [
  | none ↦ none
  | some dbs ↦ some (record cd { dbs = dbs })
]

is_empty : Text → Bool
is_empty [] = true
is_empty _ = false

abbrev is_positive : Option Duration → Bool
is_positive none = false
is_positive (some d) = ltb_ℤ (pos 0) d

abbrev followers_before : ClusterData → Text → List Text
followers_before cd uid = elim (lookup uid cd.dbs) [ none ↦ [] | some db ↦ elems db.spec.followers ]

-- The slots that the master holds for members which left, with a time to live for them.
unfoldable pub orphan_slots : Time → ClusterData → ClusterData → Db → Map Time
unfolding is_empty
orphan_slots now cd newcd master =
    if is_positive (def_spec newcd).member_replication_slot_ttl
    then (let before = cd.cluster.status.master in
        let uid = newcd.cluster.status.master in
        compute_orphan_member_slots (followers_before cd uid) (elems master.spec.followers)
          master.status.orphan_member_slots (not (is_empty before) && not (text_eq before uid)) now)
    else []

-- The databases with the slots of the master, if it is there.
unfoldable pub put_slots : Time → ClusterData → ClusterData → Option Db → Map Db
put_slots now cd newcd none = newcd.dbs
put_slots now cd newcd (some master) =
    insert newcd.cluster.status.master
      (record master {
        status = record master.status { orphan_member_slots = orphan_slots now cd newcd master };
      })
      newcd.dbs

unfoldable pub update_orphan_slots : Time → ClusterData → ClusterData → ClusterData
unfolding is_empty
update_orphan_slots now cd newcd = record newcd {
  dbs =
      if is_empty newcd.cluster.status.master
      then newcd.dbs
      else put_slots now cd newcd (lookup newcd.cluster.status.master newcd.dbs);
}

-- "Update generation on DBs if they have changed"
unfoldable pub next_generation : Option Db → Db → ℕ
next_generation none db = db.generation
next_generation (some prev) db =
    if deep_equal db.spec prev.spec then db.generation else db.generation + 1

unfoldable pub bump_generations : Map Db → Map Db → Map Db
bump_generations prev [] = []
bump_generations prev ((uid, db) ∷ dbs) =
    (uid, record db { generation = next_generation (lookup uid prev) db })
    ∷ bump_generations prev dbs

-- What follows the phases in `updateCluster`.
unfoldable pub finish_update : Time → ClusterData → ClusterData → Option ClusterData
finish_update now cd newcd = elim (set_db_spec_from_cluster_spec newcd) [
  | none ↦ none
  | some set ↦
      let newcd' = update_orphan_slots now cd set in
      some (record newcd' { dbs = bump_generations cd.dbs newcd'.dbs })
]

-- The end of a round of the normal phase: the followers, and what follows the phases.
unfoldable pub finish_round : Time → ClusterData → Text → Text → ClusterData → Option ClusterData
finish_round now cd cur_master wanted newcd = elim (update_followers cur_master wanted newcd.dbs) [
  | none ↦ none
  | some dbs ↦ finish_update now cd (record newcd { dbs = dbs })
]
