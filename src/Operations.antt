-- ===== src/Operations.antt =====
-- internal/operations/cluster_control.go and internal/app/app_mutation.go, app_control.go and app.go:
-- what an operator's commands make of the document. The checks of the store's configuration come before
-- and are left out; what a specification is read from is an argument. The commands that write a document
-- that is given from outside, as it is or as a patch of the JSON text (`InitializeCluster`,
-- `WriteClusterData` and `PatchClusterData` of app_mutation.go), are not modelled.
pub mod Rounds
pub mod Effects
pub mod Paused
pub mod Refusals
use hysteron.Base.{
  Text, text_eq, Map, lookup, insert, delete, Bool, true, false, not, Option, some, none, ℕ, List,
  [], ◌∷◌, ◌+◌, ◌==◌, pos, Duration, Time, ltb_ℤ, pos_part, if◌then◌else◌,
}
use hysteron.Utils.Strings.{is_empty, trim_space}
use hysteron.Cluster.Enums.{ClusterRole, DbInitMode, FollowType, ManualSwitchMode, Role}
use hysteron.Cluster.Settings.{ManualSwitchRequest, FollowConfig}
use hysteron.Cluster.Spec.{ClusterSpec}
use hysteron.Cluster.Entities.{Keeper, Db, DbSpec}
use hysteron.Cluster.Document.{ClusterData, Cluster, ClusterStatus, def_spec, find_db, pause_active}
use hysteron.Cluster.Validate.{is_valid, is_master_cluster, UpdateOutcome, update_spec}
use hysteron.Proxy.Check.{current_cd_format_version}

pub data OperationError : Type 0 where
  no_cluster_data unsupported_format invalid_spec cluster_paused : OperationError
  pause_ttl_negative keeper_uid_required target_keeper_uid_required : OperationError
  keeper_not_found target_keeper_not_found target_keeper_has_no_db : OperationError
  cannot_reinitialize_current_db keeper_assigned_master : OperationError
  no_master_database no_master_keeper cannot_update_spec unreadable_spec : OperationError
  store_failure key_modified retries_exceeded : OperationError

-- What a command makes of the document that it has read: a new one to write, nothing to do, or an
-- error.
pub data Change : Type 0 where
  write : ClusterData → Change
  nothing_to_do : Change
  refuse : OperationError → Change

-- The next document with another status of the cluster.
abbrev pub with_status : ClusterStatus → ClusterData → ClusterData
with_status status cd = record cd { cluster = record cd.cluster { status = status } }

-- `PauseCluster`: without a positive time the pause has no end.
unfoldable pub pause_cluster : Text → Duration → Time → ClusterData → Change
pause_cluster reason ttl now cd = write (
    with_status
      (record cd.cluster.status {
        paused = true;
        pause_reason = trim_space reason;
        pause_until = if ltb_ℤ (pos 0) ttl then some (now + pos_part ttl) else none;
      })
      cd)

-- `ResumeCluster`
unfoldable pub resume_cluster : ClusterData → Change
resume_cluster cd = write (
    with_status (record cd.cluster.status { paused = false; pause_reason = []; pause_until = none })
      cd)

-- A command that is rejected while the pause lasts.
unfoldable pub unless_paused : Time → ClusterData → Change → Change
unless_paused now cd change =
    if pause_active cd.cluster.status now then refuse cluster_paused else change

-- The request of `RequestManualSwitch`, for a trimmed uid.
unfoldable pub switch_request : Text → ManualSwitchMode → ClusterData → Change
switch_request uid mode cd = elim (lookup uid cd.keepers) [
  | none ↦ refuse target_keeper_not_found
  | some _ ↦ write (
      with_status
        (record cd.cluster.status {
          manual_switch = some (record { target_keeper_uid = uid; mode = mode });
        })
        cd)
]

-- `RequestManualSwitch`
unfoldable pub request_manual_switch : Text → ManualSwitchMode → Time → ClusterData → Change
request_manual_switch target mode now cd =
    unless_paused now cd (switch_request (trim_space target) mode cd)

-- The first database of a keeper, as `FindDB` finds it, changed in its place.
unfoldable pub change_db_of : Text → (Db → Db) → Map Db → Map Db
change_db_of uid f [] = []
change_db_of uid f ((k, db) ∷ dbs) =
    if text_eq db.spec.keeper_uid uid then (k, f db) ∷ dbs else (k, db) ∷ change_db_of uid f dbs

-- A database that follows the master anew.
abbrev pub resynced : Text → Db → Db
resynced master db = record db {
  spec = record db.spec {
    init_mode = DbInitMode.resync;
    role = Role.standby;
    follow_config = some (record {
      standby_settings = none;
      archive_recovery_settings = none;
      follow_type = FollowType.internal;
      db_uid = master;
    });
  };
}

-- The mark of `ReinitializeReplica`.
unfoldable pub mark_resync : Text → ClusterData → Change
mark_resync uid cd = elim (lookup uid cd.keepers) [
  | none ↦ refuse keeper_not_found
  | some keeper ↦ elim (find_db cd keeper) [
    | none ↦ refuse target_keeper_has_no_db
    | some db ↦
        if text_eq db.uid cd.cluster.status.master
        then refuse cannot_reinitialize_current_db
        else write (record (with_status (record cd.cluster.status { manual_switch = none }) cd) {
          dbs = change_db_of keeper.uid (resynced cd.cluster.status.master) cd.dbs;
        })
  ]
]

-- `ReinitializeReplica`
unfoldable pub reinitialize_replica : Text → Time → ClusterData → Change
reinitialize_replica target now cd = unless_paused now cd (mark_resync (trim_space target) cd)

-- `validatedClusterDataWithStore`, and `ensureClusterNotPaused` after it.
unfoldable pub validated : Time → ClusterData → Change → Change
validated now cd change =
    if not (cd.format_version == current_cd_format_version)
    then refuse unsupported_format
    else if not (is_valid cd.cluster.spec)
    then refuse invalid_spec
    else unless_paused now cd change

-- The document with the specification updated. A specification that is valid sets its mode of
-- initialisation, so the update of one that was read does not panic.
unfoldable pub with_spec : ClusterData → UpdateOutcome → Change
with_spec cd (UpdateOutcome.updated cluster) = write (record cd { cluster = cluster })
with_spec cd (UpdateOutcome.refused e) = refuse cannot_update_spec
with_spec cd UpdateOutcome.panicked = refuse cannot_update_spec

-- `PromoteCluster`: the role is set in the specification itself, which is then updated by itself.
unfoldable pub promote_cluster : Time → ClusterData → Change
promote_cluster now cd =
    let promoted = record cd.cluster.spec { role = some ClusterRole.master } in
    validated now cd (
      if is_master_cluster (def_spec cd).role
      then nothing_to_do
      else with_spec cd (update_spec (record cd.cluster { spec = promoted }) promoted))

-- `UpdateClusterSpecification`. `read` is the parsing or the patching, `none` where it fails.
unfoldable pub update_cluster_specification :
    (ClusterSpec → Option ClusterSpec) → Time → ClusterData → Change
update_cluster_specification read now cd = validated now cd (elim (read cd.cluster.spec) [
  | none ↦ refuse unreadable_spec
  | some next ↦ with_spec cd (update_spec cd.cluster next)
])

-- The removal of `RemoveKeeper`.
unfoldable pub without_keeper : Text → ClusterData → Change
without_keeper uid cd = elim (lookup uid cd.keepers) [
  | none ↦ refuse keeper_not_found
  | some keeper ↦ elim (find_db cd keeper) [
    | none ↦ write (record cd { keepers = delete uid cd.keepers })
    | some db ↦
        if text_eq cd.cluster.status.master db.uid
        then refuse keeper_assigned_master
        else write (record cd { keepers = delete uid cd.keepers; dbs = delete db.uid cd.dbs })
  ]
]

-- `RemoveKeeper`
unfoldable pub remove_keeper : Text → Time → ClusterData → Change
remove_keeper uid now cd = validated now cd (without_keeper uid cd)

abbrev pub force_failed : Keeper → Keeper
force_failed keeper = record keeper { status = record keeper.status { force_fail = true } }

-- The mark of `FailKeeper`, with the error for a keeper that is not there.
unfoldable pub mark_failed : Text → OperationError → ClusterData → Change
mark_failed uid missing cd = elim (lookup uid cd.keepers) [
  | none ↦ refuse missing
  | some keeper ↦ write (record cd { keepers = insert uid (force_failed keeper) cd.keepers })
]

-- `FailKeeper`
unfoldable pub fail_keeper : Text → Time → ClusterData → Change
fail_keeper uid now cd = validated now cd (mark_failed uid keeper_not_found cd)

-- The keeper of the master of `ForceFailover`.
unfoldable pub fail_master : ClusterData → Change
fail_master cd =
    let master = cd.cluster.status.master in
    if is_empty master then refuse no_master_database else elim (lookup master cd.dbs) [
      | none ↦ refuse no_master_database
      | some db ↦
          if is_empty db.spec.keeper_uid
          then refuse no_master_keeper
          else mark_failed db.spec.keeper_uid no_master_keeper cd
    ]

-- `ForceFailover`
unfoldable pub force_failover : Time → ClusterData → Change
force_failover now cd = validated now cd (fail_master cd)

-- The commands that make a new document of the one they read by a change of their own.
pub data Operation : Type 0 where
  pause : Text → Duration → Operation
  resume : Operation
  manual_switch : Text → ManualSwitchMode → Operation
  reinitialize : Text → Operation
  promote : Operation
  update_specification : (ClusterSpec → Option ClusterSpec) → Operation
  remove fail : Text → Operation
  fail_over : Operation

-- What a command refuses before it reads the document.
unfoldable pub refuse_early : Operation → Option OperationError
refuse_early (pause reason ttl) = if ltb_ℤ ttl (pos 0) then some pause_ttl_negative else none
refuse_early (manual_switch target mode) =
    if is_empty (trim_space target) then some target_keeper_uid_required else none
refuse_early (reinitialize target) =
    if is_empty (trim_space target) then some keeper_uid_required else none
refuse_early (remove uid) = if is_empty uid then some keeper_uid_required else none
refuse_early (fail uid) = if is_empty uid then some keeper_uid_required else none
refuse_early _ = none

-- What it makes of the document.
unfoldable pub change : Operation → Time → ClusterData → Change
change (pause reason ttl) = pause_cluster reason ttl
change resume = λ now cd. resume_cluster cd
change (manual_switch target mode) = request_manual_switch target mode
change (reinitialize target) = reinitialize_replica target
change promote = promote_cluster
change (update_specification read) = update_cluster_specification read
change (remove uid) = remove_keeper uid
change (fail uid) = fail_keeper uid
change fail_over = force_failover
