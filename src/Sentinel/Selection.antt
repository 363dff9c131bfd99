-- ===== src/Sentinel/Selection.antt =====
-- internal/runtime/sentinel/selection.go and timeline.go: what each database is, whether it is
-- valid, in sync and healthy, and the candidates for the next master.
pub mod Order
pub mod Status
pub mod Candidates
pub mod NewMasters
pub mod Total
use mathlib.Core.Bool.{◌&&◌}
use hysteron.Base.{
  Text, text_eq, text_lt, Map, lookup, insert, values, elems, Bool, true, false, not, Option, some,
  none, ℕ, ◌-◌, List, [], ◌∷◌, ◌++◌, Time, ltb_ℤ, ltb, ◌==◌, if◌then◌else◌, filter, sort_by, ℤ, pos,
}
use hysteron.Cluster.Enums.{FollowType, internal, external, Role, ClusterRole, DbInitMode}
use hysteron.Cluster.Settings.{FollowConfig}
use hysteron.Cluster.Spec.{DefSpec}
use hysteron.Cluster.Entities.{Db, DbSpec, Keeper, no_generation, initial_generation}
use hysteron.Cluster.Document.{ClusterData, def_spec}
use hysteron.Cluster.Timeline.{detect_timeline_branch_divergence}
use hysteron.Postgres.Wal.{is_required_wal_available, wal_seg_size}
use hysteron.Sentinel.State.{
  Sentinel, Error, unknown_db, invalid_db_role, bad_wal_file_name, Result, ok, err, M, ◌>>=◌,
  return, deref,
}
use hysteron.Sentinel.Health.{
  converged, convergence_failed, ConvergenceState, db_convergence_state, is_db_increasing_xlog_pos,
}

pub data DbType : Type 0 where
  primary_line replica_line : DbType

pub data DbValidity : Type 0 where
  valid invalid unknown : DbValidity

pub data DbStatusClass : Type 0 where
  good failed converging : DbStatusClass

-- The type that a role and a follow configuration stand for.
unfoldable pub classify : Role → Option FollowConfig → Option DbType
classify Role.master fc = some primary_line
classify Role.standby none = some replica_line
classify Role.standby (some fc) = elim fc.follow_type [
  | external ↦ some primary_line
  | internal ↦ some replica_line
]
classify Role.undefined fc = none

-- `dbType`
unfoldable pub db_type : ClusterData → Text → Result DbType
unfolding classify
db_type cd db_uid = elim (lookup db_uid cd.dbs) [
  | none ↦ err (unknown_db db_uid)
  | some db ↦ elim (classify db.spec.role db.spec.follow_config) [
    | none ↦ err (invalid_db_role db_uid)
    | some t ↦ ok t
  ]
]

-- `isDifferentTimelineBranch`
unfoldable pub is_different_timeline_branch : Db → Db → Bool
is_different_timeline_branch followed db =
    (detect_timeline_branch_divergence followed.status.timeline_id followed.status.timelines_history
      followed.status.xlog_pos db.status.timeline_id db.status.timelines_history
      db.status.xlog_pos).different

-- `lag > uint64(MaxStandbyLag)`, with the lag 0 of a standby that is ahead; `-` stops there too.
unfoldable pub is_lag_below_max : ClusterData → Db → Db → Bool
is_lag_below_max cd cur_master db =
    not (ltb (def_spec cd).max_standby_lag (cur_master.status.xlog_pos - db.status.xlog_pos))

is_empty : Text → Bool
is_empty [] = true
is_empty _ = false

-- Validity against the current master.
unfoldable pub validity_against : Option Db → Db → DbValidity
unfolding is_empty
validity_against none db = unknown
validity_against (some master) db =
    if not (is_empty db.status.system_id)
      && not (text_eq db.status.system_id master.status.system_id)
    then invalid
    else if is_different_timeline_branch master db
    then invalid
    else valid

-- `dbValidity`
unfoldable pub db_validity : ClusterData → Text → Result DbValidity
unfolding validity_against
db_validity cd db_uid = elim (lookup db_uid cd.dbs) [
  | none ↦ err (unknown_db db_uid)
  | some db ↦
      if db.status.current_generation == no_generation
      then ok unknown
      else ok (validity_against (lookup cd.cluster.status.master cd.dbs) db)
]

-- The last steps of `dbCanSync`, for a healthy replica behind the master.
can_sync_stalled : Db → Db → Bool → Result Bool
can_sync_stalled master db increasing =
    if db.status.xlog_pos == master.status.xlog_pos
    then ok true
    else if increasing
    then ok true
    else elim (is_required_wal_available db.status.xlog_pos master.status.older_wal_file
        wal_seg_size) [ none ↦ err bad_wal_file_name | some available ↦ ok available ]

can_sync_with : ClusterData → Text → Db → Db → Sentinel → Result Bool
unfolding is_empty can_sync_stalled
can_sync_with cd db_uid master db s =
    if is_empty master.status.older_wal_file
    then ok true
    else if text_eq db_uid master.uid
    then ok true
    else elim (db_type cd db.uid) [
      | err e ↦ err e
      | ok primary_line ↦ ok true
      | ok replica_line ↦
          if db.generation == initial_generation
          then ok true
          else if not db.status.healthy
          then ok true
          else can_sync_stalled master db (is_db_increasing_xlog_pos db s)
    ]

-- `dbCanSync`
unfoldable pub db_can_sync : ClusterData → Text → Sentinel → Result Bool
unfolding can_sync_with
db_can_sync cd db_uid s = elim (lookup db_uid cd.dbs) [
  | none ↦ err (unknown_db db_uid)
  | some db ↦ elim (lookup cd.cluster.status.master cd.dbs) [
    | none ↦ ok true
    | some master ↦ can_sync_with cd db_uid master db s
  ]
]

abbrev is_resync : DbInitMode → Bool
is_resync DbInitMode.resync = true
is_resync _ = false

status_of : ConvergenceState → Bool → DbStatusClass
status_of convergence_failed healthy = failed
status_of ConvergenceState.converging healthy = DbStatusClass.converging
status_of converged true = good
status_of converged false = failed

-- `dbStatus`; a database whose keeper is not in the document makes it panic.
unfoldable pub db_status : Time → ClusterData → Text → M (Result DbStatusClass)
unfolding status_of
db_status now cd db_uid s = elim (lookup db_uid cd.dbs) [
  | none ↦ some (err (unknown_db db_uid), s)
  | some db ↦ elim (lookup db.spec.keeper_uid cd.keepers) [
    | none ↦ none
    | some keeper ↦
        if not keeper.status.healthy
        then some (ok failed, s)
        else let spec = def_spec cd in
          let timeout =
            if db.generation == initial_generation && is_resync db.spec.init_mode
            then spec.sync_timeout
            else spec.convergence_timeout in
          let (state, s') = db_convergence_state now db timeout s in
          some (ok (status_of state db.status.healthy), s')
  ]
]

-- The three maps of `validDBsByStatus`.
pub record DbsByStatus : Type 0 where
  pub good_dbs : Map Db
  pub failed_dbs : Map Db
  pub converging_dbs : Map Db

abbrev file_under : DbStatusClass → Db → DbsByStatus → DbsByStatus
file_under good db r = record r { good_dbs = insert db.uid db r.good_dbs }
file_under failed db r = record r { failed_dbs = insert db.uid db r.failed_dbs }
file_under DbStatusClass.converging db r = record r {
  converging_dbs = insert db.uid db r.converging_dbs;
}

abbrev same_type : DbType → DbType → Bool
same_type primary_line primary_line = true
same_type replica_line replica_line = true
same_type _ _ = false

-- `valid != dbValidityValid || dt != wantType` decides against a database, an error too.
unfoldable pub is_wanted : ClusterData → DbType → Text → Bool
is_wanted cd want_type uid = elim (db_validity cd uid) [
  | ok valid ↦ elim (db_type cd uid) [ ok t ↦ same_type t want_type | err e ↦ false ]
  | _ ↦ false
]

-- Files a database under its status; one whose status is an error is left out.
file_result :
    Db → DbsByStatus → Option (Result DbStatusClass × Sentinel) → Option (DbsByStatus × Sentinel)
file_result db r none = none
file_result db r (some (err e, s)) = some (r, s)
file_result db r (some (ok c, s)) = some (file_under c db r, s)

-- One round of the loop.
classify_db : Time → ClusterData → DbType → Db → DbsByStatus → M DbsByStatus
unfolding file_result
classify_db now cd want_type db r s =
    if is_wanted cd want_type db.uid
    then file_result db r (db_status now cd db.uid s)
    else some (r, s)

classify_dbs : Time → ClusterData → DbType → List Db → DbsByStatus → M DbsByStatus
classify_dbs now cd want_type [] r s = some (r, s)
classify_dbs now cd want_type (db ∷ dbs) r s = elim (classify_db now cd want_type db r s) [
  | none ↦ none
  | some (r', s') ↦ classify_dbs now cd want_type dbs r' s'
]

abbrev no_dbs : DbsByStatus
no_dbs = record { good_dbs = []; failed_dbs = []; converging_dbs = [] }

-- `validDBsByStatus`
unfoldable pub valid_dbs_by_status : Time → ClusterData → DbType → M DbsByStatus
unfolding classify_db classify_dbs
valid_dbs_by_status now cd want_type = classify_dbs now cd want_type (values cd.dbs) no_dbs

-- `keeperMasterPriority`; a keeper that is not in the document has priority 0.
unfoldable pub keeper_master_priority : ClusterData → Db → ℤ
keeper_master_priority cd db = elim (lookup db.spec.keeper_uid cd.keepers) [
  | none ↦ pos 0
  | some keeper ↦ keeper.status.master_priority
]

-- `dbSlice.Less`
unfoldable pub xlog_less : Db → Db → Bool
xlog_less a b = ltb a.status.xlog_pos b.status.xlog_pos

-- The order of `sortCandidateMasters`, over positions, priorities and uids.
unfoldable pub candidate_order : ℕ → ℕ → ℤ → ℤ → Text → Text → Bool
candidate_order xa xb pa pb ua ub =
    if not (xa == xb)
    then ltb xa xb
    else if ltb_ℤ pa pb
    then false
    else if ltb_ℤ pb pa
    then true
    else text_lt ua ub

unfoldable pub candidate_less : ClusterData → Db → Db → Bool
unfolding candidate_order
candidate_less cd a b =
    candidate_order a.status.xlog_pos b.status.xlog_pos (keeper_master_priority cd a)
      (keeper_master_priority cd b) a.uid b.uid

-- `sortCandidateMasters`
unfoldable pub sort_candidate_masters : ClusterData → List Db → List Db
unfolding candidate_less
sort_candidate_masters cd candidates = sort_by (candidate_less cd) candidates

abbrev pub is_master_role : ClusterRole → Bool
is_master_role ClusterRole.master = true
is_master_role _ = false

-- `syncRepl`
unfoldable pub sync_repl : DefSpec → Bool
sync_repl spec = spec.synchronous_replication && is_master_role spec.role

-- The timeline and lag filters that both loops apply to a candidate.
unfoldable pub is_near_master : ClusterData → Db → Db → Bool
is_near_master cd master db =
    if not (db.status.timeline_id == master.status.timeline_id)
    then false
    else if sync_repl (def_spec cd)
    then true
    else is_lag_below_max cd master db

-- `sort.Sort(dbSlice(dbs))`
unfoldable pub xlog_sort : List Db → List Db
unfolding xlog_less
xlog_sort = sort_by xlog_less

-- `findBestStandbys`
unfoldable pub find_best_standbys : Time → ClusterData → Db → M (List Db)
unfolding xlog_sort
find_best_standbys now cd master = do
  standbys ← valid_dbs_by_status now cd replica_line
  return (xlog_sort (filter (is_near_master cd master) (values standbys.good_dbs)))

abbrev pub forbids : Option Bool → Bool
forbids (some false) = true
forbids _ = false

-- A keeper that declares `--can-be-master=false` keeps its database out.
unfoldable pub may_be_master : ClusterData → Db → Bool
may_be_master cd db = elim (lookup db.spec.keeper_uid cd.keepers) [
  | none ↦ true
  | some keeper ↦ not (forbids keeper.status.can_be_master)
]

-- The second loop of `findBestNewMasters`: former masters in good state.
unfoldable pub is_former_master : ClusterData → Db → Db → Bool
is_former_master cd master db = not (text_eq db.uid master.uid) && is_near_master cd master db

-- `findBestNewMasters`
unfoldable pub find_best_new_masters : Time → ClusterData → Db → M (List Db)
find_best_new_masters now cd master = do
  standbys ← find_best_standbys now cd master
  masters ← valid_dbs_by_status now cd primary_line
  return (
      sort_candidate_masters cd (
        filter (may_be_master cd) standbys
        ++ filter (is_former_master cd master) (values masters.good_dbs)))
