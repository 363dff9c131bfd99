-- ===== src/Sentinel/Update/Rounds.antt =====
-- `updateCluster` of cluster_update.go as a whole: the steps of the other modules of this folder in
-- the order in which a round takes them. The keys of `dbs` are the uids of the databases.
pub mod Master
pub mod First
use hysteron.Base.{
  Text, text_eq, Map, lookup, insert, values, Bool, true, false, not, Option, some, none, ℕ, List,
  [], ◌∷◌, ◌&&◌, if◌then◌else◌, elems, filter, map, Time,
}
use hysteron.Cluster.Enums.{Role, ClusterPhase}
use hysteron.Cluster.Spec.{DefSpec}
use hysteron.Cluster.Entities.{Db, DbSpec, DbStatus, ProxyInfo}
use hysteron.Cluster.Document.{ClusterStatus, Cluster, ClusterData, def_spec, pause_active}
use hysteron.Sentinel.State.{Sentinel, Result, ok, err, M, ◌>>=◌, return, deref}
use hysteron.Sentinel.Health.{ConvergenceState, converged, db_convergence_state}
use hysteron.Sentinel.Selection.{
  DbType, primary_line, replica_line, DbValidity, valid, invalid, unknown, DbsByStatus, db_type,
  db_validity, db_can_sync, valid_dbs_by_status, sync_repl, is_master_role,
}
use hysteron.Sentinel.Update.Decision.{delete_all, remove_old_keepers, decide_master}
use hysteron.Sentinel.Update.Promotion.{hand_over}
use hysteron.Sentinel.Update.SyncStandbys.{setup_standbys}
use hysteron.Sentinel.Update.Standbys.{
  clean_init_mode, forget_standbys, balance_standbys, reconfigure_standbys,
}
use hysteron.Sentinel.Update.Initial.{
  UpdateError, master_not_available, unknown_phase, Outcome, written, refused, is_converged,
  initializing_phase,
}
use hysteron.Sentinel.Update.Specs.{finish_update, finish_round}

-- The master of a cluster whose role was changed to master follows nobody.
unfoldable pub claim_role : DefSpec → Db → Db
claim_role spec master =
    if is_master_role spec.role
    then record master { spec = record master.spec { role = Role.master; follow_config = none } }
    else master

-- Deletes the databases that pass a test.
unfoldable pub remove_dbs : (Db → Bool) → ClusterData → ClusterData
remove_dbs p cd = record cd {
  dbs = delete_all (map (λ (db : Db). db.uid) (filter p (values cd.dbs))) cd.dbs;
}

-- "Remove old masters"; an error of `dbType` keeps a database.
unfoldable pub is_old_master : Text → ClusterData → Db → Bool
is_old_master wanted cd db =
    not (text_eq db.uid wanted)
    && elim (db_type cd db.uid) [ ok primary_line ↦ true | ok replica_line ↦ false | err e ↦ false ]

-- "Remove invalid dbs"
unfoldable pub is_invalid_db : Text → ClusterData → Db → Bool
is_invalid_db wanted cd db = not (text_eq db.uid wanted) && elim (db_validity cd db.uid) [
  | ok invalid ↦ true
  | ok valid ↦ false
  | ok unknown ↦ false
  | err e ↦ false
]

-- "Remove dbs that won't sync due to missing wals on current master", by the document before.
unfoldable pub cannot_sync : ClusterData → Sentinel → Db → Bool
cannot_sync cd s db = elim (db_can_sync cd db.uid s) [
  | ok true ↦ false
  | ok false ↦ true
  | err e ↦ false
]

unfoldable pub clean_up : Text → ClusterData → Sentinel → ClusterData → ClusterData
clean_up wanted cd s newcd =
    let without_masters = remove_dbs (is_old_master wanted newcd) newcd in
    let without_invalid = remove_dbs (is_invalid_db wanted without_masters) without_masters in
    remove_dbs (cannot_sync cd s) without_invalid

-- The standbys that the master waits for.
unfoldable pub set_synchronous : Time → DefSpec → ClusterData → Map Db → Text → Db → Db → M Db
set_synchronous now spec newcd good master_uid cur_master master s =
    if sync_repl spec
    then setup_standbys now spec newcd good master_uid cur_master master s
    else some (forget_standbys master, s)

-- The synchronous standbys, the standbys in excess or missing, and whom they follow, given the
-- standbys by their status.
unfoldable pub arrange_standbys :
    (ℕ → Text) → Time → DefSpec → Text → Db → DbsByStatus → ClusterData → M ClusterData
arrange_standbys uid_fn now spec master_uid cur_master standbys cd s =
    elim (lookup master_uid cd.dbs) [
      | none ↦ none
      | some master ↦
          elim (set_synchronous now spec cd standbys.good_dbs master_uid cur_master master s) [
            | none ↦ none
            | some (master', s') ↦
                let set : ClusterData = record cd { dbs = insert master_uid master' cd.dbs } in
                let sync = elems master'.spec.synchronous_standbys in
                some (
                  reconfigure_standbys master_uid (
                      balance_standbys uid_fn master_uid standbys.good_dbs standbys.converging_dbs
                        sync set),
                  s',
                )
          ]
    ]

-- "Set standbys to follow master only if it's healthy and converged", for such a master.
unfoldable pub update_standbys :
    (ℕ → Text) → Time → DefSpec → ClusterData → Text → Db → ClusterData → M ClusterData
update_standbys uid_fn now spec cd master_uid cur_master newcd s =
    let cleaned = clean_up master_uid cd s newcd in
    elim (valid_dbs_by_status now cleaned replica_line s) [
      | none ↦ none
      | some (standbys, s') ↦
          arrange_standbys uid_fn now spec master_uid cur_master standbys
            (record cleaned { dbs = clean_init_mode (values standbys.good_dbs) cleaned.dbs }) s'
    ]

-- A round in which the master stays; an unhealthy one is not asked whether it has converged.
unfoldable pub keep_master :
    (ℕ → Text) → Time → DefSpec → ClusterData → Text → Db → ClusterData → M ClusterData
keep_master uid_fn now spec cd master_uid cur_master newcd s = elim (lookup master_uid newcd.dbs) [
  | none ↦ none
  | some found ↦
      let master = claim_role spec found in
      let claimed : ClusterData = record newcd { dbs = insert master_uid master newcd.dbs } in
      if master.status.healthy
      then (let (state, s') = db_convergence_state now master spec.convergence_timeout s in
          if is_converged state
          then update_standbys uid_fn now spec cd master_uid cur_master claimed s'
          else some (claimed, s'))
      else some (claimed, s)
]

-- The round after the decision: the proxies' object, and the standbys of a master that stays.
unfoldable pub carry_out :
    (ℕ → Text)
    → Time
    → DefSpec
    → List ProxyInfo
    → ClusterData
    → Text
    → Db
    → ClusterData
    → Text
    → M ClusterData
carry_out uid_fn now spec pis cd cur_uid cur_master newcd wanted s =
    elim (hand_over spec pis cur_uid wanted newcd) [
      | none ↦ none
      | some handed ↦
          if text_eq cur_uid wanted
          then keep_master uid_fn now spec cd cur_uid cur_master handed s
          else some (handed, s)
    ]

-- The followers of the master, and what follows the phases.
unfoldable pub finish : Time → ClusterData → Text → Text → ClusterData → Option Outcome
finish now cd cur_uid wanted newcd = elim (finish_round now cd cur_uid wanted newcd) [
  | none ↦ none
  | some cd' ↦ some (written cd')
]

-- The normal phase, while no pause is active.
unfoldable pub normal_phase : (ℕ → Text) → Time → DefSpec → List ProxyInfo → ClusterData → M Outcome
normal_phase uid_fn now spec pis cd s =
    let cur_uid = cd.cluster.status.master in
    elim (lookup cur_uid cd.dbs) [
      | none ↦ some (refused (master_not_available cur_uid), s)
      | some cur_master ↦
          (do
            (newcd, wanted) ← decide_master now cd (remove_old_keepers now cd cd) cur_uid cur_master
            newcd' ← carry_out uid_fn now spec pis cd cur_uid cur_master newcd wanted
            deref (finish now cd cur_uid wanted newcd'))
            s
    ]

-- What follows the phases, for a document that the phase has written.
unfoldable pub finish_phase : Time → ClusterData → Outcome → Option Outcome
finish_phase now cd (refused e) = some (refused e)
finish_phase now cd (written newcd) = elim (finish_update now cd newcd) [
  | none ↦ none
  | some cd' ↦ some (written cd')
]

-- `updateCluster`; `uid_fn n` is what the n-th call of `UIDFn` returns, and `rand_fn` is `RandFn`.
unfoldable pub update_cluster :
    (ℕ → Text) → (ℕ → ℕ) → Time → List ProxyInfo → ClusterData → M Outcome
update_cluster uid_fn rand_fn now pis cd s = elim cd.cluster.status.phase [
  | ClusterPhase.initializing ↦
      (initializing_phase rand_fn (uid_fn 0) now (def_spec cd) cd cd >>= λ outcome.
      deref (finish_phase now cd outcome))
        s
  | ClusterPhase.normal ↦
      if pause_active cd.cluster.status now
      then some (written cd, s)
      else normal_phase uid_fn now (def_spec cd) pis cd s
  | ClusterPhase.unknown phase ↦ some (refused (unknown_phase (ClusterPhase.unknown phase)), s)
]
