-- ===== src/Sentinel/Update/Standbys.antt =====
-- `updateCluster` of cluster_update.go in the normal phase, once the synchronous standbys are set
-- up: standbys in excess are removed or missing ones added, and every standby is made to follow
-- the wanted master. `good` are the good standbys, `sync` the synchronous ones of the master.
pub mod Removal
use hysteron.Base.{
  Text, text_eq, Map, lookup, has_key, insert, values, Bool, true, false, not, Option, some, none,
  ℕ, zero, suc, ◌+◌, ◌-◌, List, [], ◌∷◌, ◌++◌, ◌&&◌, ◌||◌, leb, ◌==◌, if◌then◌else◌, elems, filter,
  length, map, pos,
}
use hysteron.Cluster.Enums.{internal, DbInitMode, Role}
use hysteron.Cluster.Settings.{FollowConfig}
use hysteron.Cluster.Spec.{DefSpec}
use hysteron.Cluster.Entities.{Db, DbSpec, DbStatus, Keeper, KeeperStatus, initial_generation}
use hysteron.Cluster.Document.{ClusterData, def_spec}
use hysteron.Utils.Slices.{contains}
use hysteron.Sentinel.State.{Result, ok, err}
use hysteron.Sentinel.Selection.{DbType, primary_line, replica_line, db_type}
use hysteron.Sentinel.Update.Decision.{delete_all}
use hysteron.Sentinel.Update.NewDbs.{spec_of_new, new_db}

-- "Clean InitMode for goodStandbys"
unfoldable pub clean_init_mode : List Db → Map Db → Map Db
clean_init_mode [] dbs = dbs
clean_init_mode (db ∷ good) dbs = elim (lookup db.uid dbs) [
  | none ↦ clean_init_mode good dbs
  | some now ↦
      clean_init_mode good (
        insert db.uid (record now { spec = record now.spec { init_mode = DbInitMode.nothing } })
          dbs)
]

-- Without synchronous replication the master waits for nobody.
unfoldable pub forget_standbys : Db → Db
forget_standbys master = record master {
  spec = record master.spec {
    synchronous_replication = false;
    synchronous_standbys = none;
    external_synchronous_standbys = none;
  };
  status = record master.status { synchronous_standbys = none };
}

-- The database is known to be of the replica line; an error of `dbType` skips it.
unfoldable pub is_replica : ClusterData → Db → Bool
is_replica cd db = elim (db_type cd db.uid) [
  | ok replica_line ↦ true
  | ok primary_line ↦ false
  | err e ↦ false
]

-- "Remove all non good standbys", but for the synchronous ones.
unfoldable pub non_good_standbys : ClusterData → Map Db → List Text → List Db
non_good_standbys cd good sync =
    filter (λ db. is_replica cd db && not (contains sync db.uid) && not (has_key db.uid good))
      (values cd.dbs)

-- "Remove good standbys in excess": at most `left` more.
unfoldable pub good_in_excess : List Text → ℕ → List Db → List Db
good_in_excess sync left [] = []
good_in_excess sync zero (db ∷ dbs) = []
good_in_excess sync (suc left) (db ∷ dbs) =
    if contains sync db.uid
    then good_in_excess sync (suc left) dbs
    else db ∷ good_in_excess sync left dbs

unfoldable pub standbys_to_remove : ClusterData → Map Db → List Text → List Text
standbys_to_remove cd good sync =
    map (λ (db : Db). db.uid)
      (non_good_standbys cd good sync
        ++ good_in_excess sync (length good - (def_spec cd).max_standbys_per_sender) (values good))

unfoldable pub remove_standbys : ClusterData → Map Db → List Text → ClusterData
remove_standbys cd good sync = record cd {
  dbs = delete_all (standbys_to_remove cd good sync) cd.dbs;
}

abbrev assigned : Keeper → List Db → Bool
assigned keeper [] = false
assigned keeper (db ∷ dbs) =
    if text_eq db.spec.keeper_uid keeper.uid then true else assigned keeper dbs

-- `freeKeepers`
unfoldable pub free_keepers : ClusterData → List Keeper
free_keepers cd =
    filter (λ (keeper : Keeper). keeper.status.healthy && not (assigned keeper (values cd.dbs)))
      (values cd.keepers)

-- What every standby is made to follow.
unfoldable pub follow_master : Text → FollowConfig
follow_master wanted = record {
  standby_settings = none;
  archive_recovery_settings = none;
  follow_type = internal;
  db_uid = wanted;
}

unfoldable pub new_standby : Text → Text → Keeper → Db
unfolding follow_master
new_standby uid wanted keeper =
    new_db uid (record (spec_of_new keeper.uid DbInitMode.resync Role.standby) {
      follow_config = some (follow_master wanted);
    })

-- Standbys on the free keepers, at most `left` more; `uid_fn n` is what the n-th call of `UIDFn`
-- returns.
unfoldable pub add_on : (ℕ → Text) → ℕ → Text → ℕ → List Keeper → Map Db → Map Db
unfolding new_standby
add_on uid_fn n wanted zero keepers dbs = dbs
add_on uid_fn n wanted (suc left) [] dbs = dbs
add_on uid_fn n wanted (suc left) (keeper ∷ keepers) dbs =
    add_on uid_fn (n + 1) wanted left keepers
      (insert (uid_fn n) (new_standby (uid_fn n) wanted keeper) dbs)

-- "Add missing DBs until MaxStandbysPerSender"; a negative number of them adds none.
unfoldable pub add_standbys : (ℕ → Text) → Text → ℕ → ClusterData → ClusterData
add_standbys uid_fn wanted not_failed cd = record cd {
  dbs =
      add_on uid_fn 0 wanted ((def_spec cd).max_standbys_per_sender - not_failed) (free_keepers cd)
        cd.dbs;
}

unfoldable pub balance_standbys :
    (ℕ → Text) → Text → Map Db → Map Db → List Text → ClusterData → ClusterData
balance_standbys uid_fn wanted good converging sync cd =
    if leb (def_spec cd).max_standbys_per_sender (length good)
    then remove_standbys cd good sync
    else add_standbys uid_fn wanted (length good + length converging) cd

unfoldable pub as_follower : Text → Db → Db
as_follower wanted db = record db {
  spec = record db.spec {
    role = Role.standby;
    followers = some [];
    follow_config = some (follow_master wanted);
    synchronous_replication = false;
    synchronous_standbys = none;
    external_synchronous_standbys = none;
  };
}

-- "Reconfigure all standbys as followers of the current master": a standby stays one, so that no
-- round of the loop changes what `dbType` says of another.
unfoldable pub follow_all : ClusterData → Text → Map Db → Map Db
follow_all cd wanted [] = []
follow_all cd wanted ((uid, db) ∷ dbs) =
    (uid, if is_replica cd db then as_follower wanted db else db) ∷ follow_all cd wanted dbs

unfoldable pub reconfigure_standbys : Text → ClusterData → ClusterData
reconfigure_standbys wanted cd = record cd { dbs = follow_all cd wanted cd.dbs }
