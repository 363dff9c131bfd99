-- ===== src/Operations/Refusals.antt =====
-- The errors of a command are its own: none of them is one of the loop's.
use hysteron.Base.{
  Text, lookup, Bool, true, false, not, Time, Bool-cases, Option-cases, inl, inr, text_eq,
  if◌then◌else◌, ◌==◌,
}
use hysteron.Utils.Strings.{is_empty, trim_space}
use hysteron.Cluster.Enums.{ManualSwitchMode}
use hysteron.Cluster.Document.{ClusterData, find_db, pause_active, def_spec}
use hysteron.Cluster.Validate.{is_valid, is_master_cluster, UpdateOutcome, update_spec}
use hysteron.Proxy.Check.{current_cd_format_version}
use hysteron.Operations.{
  OperationError, retries_exceeded, key_modified, cluster_paused, unsupported_format, invalid_spec,
  no_master_keeper, keeper_not_found, Change, refuse, Operation, pause, resume, manual_switch,
  reinitialize, promote, update_specification, remove, fail, fail_over, change, pause_cluster,
  resume_cluster, request_manual_switch, reinitialize_replica, promote_cluster,
  update_cluster_specification, remove_keeper, fail_keeper, force_failover, unless_paused,
  validated, switch_request, mark_resync, with_spec, without_keeper, mark_failed, fail_master,
}

-- An error that the loop does not use.
abbrev pub Own : OperationError → Type 0
Own retries_exceeded = ⊥
Own key_modified = ⊥
Own _ = Unit

abbrev pub OwnErrors : Change → Type 0
OwnErrors (refuse e) = Own e
OwnErrors _ = Unit

unless_paused-OwnErrors :
    (now : Time) (cd : ClusterData) (c : Change) → OwnErrors c → OwnErrors (unless_paused now cd c)
unfolding unless_paused
unless_paused-OwnErrors now cd c h = go (pause_active cd.cluster.status now)
  where
    go : (b : Bool) → OwnErrors (if b then refuse cluster_paused else c)
    go true = tt
    go false = h

validated-OwnErrors :
    (now : Time) (cd : ClusterData) (c : Change) → OwnErrors c → OwnErrors (validated now cd c)
unfolding validated
validated-OwnErrors now cd c h =
    go (not (cd.format_version == current_cd_format_version)) (not (is_valid cd.cluster.spec))
  where
    go :
        (a b : Bool)
        → OwnErrors (
            if a
            then refuse unsupported_format
            else if b
            then refuse invalid_spec
            else unless_paused now cd c)
    go true b = tt
    go false true = tt
    go false false = unless_paused-OwnErrors now cd c h

switch_request-OwnErrors :
    (uid : Text) (mode : ManualSwitchMode) (cd : ClusterData)
    → OwnErrors (switch_request uid mode cd)
unfolding switch_request
switch_request-OwnErrors uid mode cd = elim (Option-cases (lookup uid cd.keepers)) [
  | inl e ↦ rw (e, OwnErrors) tt
  | inr (keeper, e) ↦ rw (e, OwnErrors) tt
]

mark_resync-OwnErrors : (uid : Text) (cd : ClusterData) → OwnErrors (mark_resync uid cd)
unfolding mark_resync
mark_resync-OwnErrors uid cd = elim (Option-cases (lookup uid cd.keepers)) [
  | inl e ↦ rw (e, OwnErrors) tt
  | inr (keeper, e) ↦ elim (Option-cases (find_db cd keeper)) [
    | inl f ↦ rw (e, f, OwnErrors) tt
    | inr (db, f) ↦ elim (Bool-cases (text_eq db.uid cd.cluster.status.master)) [
      | inl g ↦ rw (e, f, g, OwnErrors) tt
      | inr g ↦ rw (e, f, g, OwnErrors) tt
    ]
  ]
]

with_spec-OwnErrors : (cd : ClusterData) (o : UpdateOutcome) → OwnErrors (with_spec cd o)
unfolding with_spec
with_spec-OwnErrors cd (UpdateOutcome.updated c) = tt
with_spec-OwnErrors cd (UpdateOutcome.refused e) = tt
with_spec-OwnErrors cd UpdateOutcome.panicked = tt

without_keeper-OwnErrors : (uid : Text) (cd : ClusterData) → OwnErrors (without_keeper uid cd)
unfolding without_keeper
without_keeper-OwnErrors uid cd = elim (Option-cases (lookup uid cd.keepers)) [
  | inl e ↦ rw (e, OwnErrors) tt
  | inr (keeper, e) ↦ elim (Option-cases (find_db cd keeper)) [
    | inl f ↦ rw (e, f, OwnErrors) tt
    | inr (db, f) ↦ elim (Bool-cases (text_eq cd.cluster.status.master db.uid)) [
      | inl g ↦ rw (e, f, g, OwnErrors) tt
      | inr g ↦ rw (e, f, g, OwnErrors) tt
    ]
  ]
]

mark_failed-OwnErrors :
    (uid : Text) (missing : OperationError) (cd : ClusterData)
    → Own missing
    → OwnErrors (mark_failed uid missing cd)
unfolding mark_failed
mark_failed-OwnErrors uid missing cd own = elim (Option-cases (lookup uid cd.keepers)) [
  | inl e ↦ rw (e, OwnErrors) own
  | inr (keeper, e) ↦ rw (e, OwnErrors) tt
]

fail_master-OwnErrors : (cd : ClusterData) → OwnErrors (fail_master cd)
unfolding fail_master
fail_master-OwnErrors cd = elim (Bool-cases (is_empty cd.cluster.status.master)) [
  | inl e ↦ rw (e, OwnErrors) tt
  | inr e ↦ elim (Option-cases (lookup cd.cluster.status.master cd.dbs)) [
    | inl f ↦ rw (e, f, OwnErrors) tt
    | inr (db, f) ↦ elim (Bool-cases (is_empty db.spec.keeper_uid)) [
      | inl g ↦ rw (e, f, g, OwnErrors) tt
      | inr g ↦
          rw (e, f, g, OwnErrors) (mark_failed-OwnErrors db.spec.keeper_uid no_master_keeper cd tt)
    ]
  ]
]

pub change-OwnErrors :
    (op : Operation) (now : Time) (cd : ClusterData) → OwnErrors (change op now cd)
unfolding change pause_cluster resume_cluster request_manual_switch reinitialize_replica
    promote_cluster update_cluster_specification remove_keeper fail_keeper force_failover
change-OwnErrors (pause reason ttl) now cd = tt
change-OwnErrors resume now cd = tt
change-OwnErrors (manual_switch target mode) now cd =
    unless_paused-OwnErrors now cd _ (switch_request-OwnErrors (trim_space target) mode cd)
change-OwnErrors (reinitialize target) now cd =
    unless_paused-OwnErrors now cd _ (mark_resync-OwnErrors (trim_space target) cd)
change-OwnErrors promote now cd =
    validated-OwnErrors now cd _ (elim (Bool-cases (is_master_cluster (def_spec cd).role)) [
      | inl e ↦ rw (e, OwnErrors) tt
      | inr e ↦ rw (e, OwnErrors) (with_spec-OwnErrors cd _)
    ])
change-OwnErrors (update_specification read) now cd =
    validated-OwnErrors now cd _ (elim (Option-cases (read cd.cluster.spec)) [
      | inl e ↦ rw (e, OwnErrors) tt
      | inr (spec, e) ↦ rw (e, OwnErrors) (with_spec-OwnErrors cd (update_spec cd.cluster spec))
    ])
change-OwnErrors (remove uid) now cd =
    validated-OwnErrors now cd _ (without_keeper-OwnErrors uid cd)
change-OwnErrors (fail uid) now cd =
    validated-OwnErrors now cd _ (mark_failed-OwnErrors uid keeper_not_found cd tt)
change-OwnErrors fail_over now cd = validated-OwnErrors now cd _ (fail_master-OwnErrors cd)
