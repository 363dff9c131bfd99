-- ===== src/Sentinel/Update/Decision.antt =====
-- `updateCluster` of cluster_update.go in the normal phase, up to the decision which database is
-- to be the master: dead keepers, the manual switch, the check of the master, the election and the
-- automatic failback. `cd` is the document of the round before, `newcd` the one in the making.
pub mod Safety
use hysteron.Base.{
  Text, text_eq, Map, lookup, delete, values, Bool, true, false, not, Option, some, none, ℕ, List,
  [], ◌∷◌, ◌&&◌, filter, Time, Duration, is_after, if◌then◌else◌, map,
}
use hysteron.Cluster.Settings.{ManualSwitchRequest}
use hysteron.Cluster.Spec.{DefSpec}
use hysteron.Cluster.Entities.{Db, Keeper}
use hysteron.Cluster.Document.{ClusterStatus, Cluster, ClusterData, def_spec, find_db}
use hysteron.Utils.Slices.{contains}
use hysteron.Sentinel.State.{Sentinel, M}
use hysteron.Sentinel.Health.{ConvergenceState, convergence_failed, db_convergence_state}
use hysteron.Sentinel.Selection.{find_best_new_masters}
use hysteron.Sentinel.Leadership.{
  choose_best_new_master, choose_auto_failback_target, clear_backoff,
}

-- A keeper without a database that was last healthy longer ago than the removal interval.
unfoldable pub is_dead_keeper : Time → ClusterData → Keeper → Bool
is_dead_keeper now cd k = elim (find_db cd k) [
  | some _ ↦ false
  | none ↦ is_after now k.status.last_healthy_time (def_spec cd).dead_keeper_removal_interval
]

unfoldable pub delete_all : {A : Type 0} → List Text → Map A → Map A
delete_all [] m = m
delete_all (uid ∷ uids) m = delete_all uids (delete uid m)

-- "Remove old keepers"
unfoldable pub remove_old_keepers : Time → ClusterData → ClusterData → ClusterData
remove_old_keepers now cd newcd =
    let dead = filter (is_dead_keeper now cd) (values newcd.keepers) in
    record newcd { keepers = delete_all (map (λ (k : Keeper). k.uid) dead) newcd.keepers }

-- The wanted master so far, whether a manual switch decided it, and the document.
pub record Switch : Type 0 where
  pub wanted : Text
  pub applied : Bool
  pub document : ClusterData

unfoldable pub clear_manual_switch : ClusterData → ClusterData
clear_manual_switch cd = record cd {
  cluster = record cd.cluster { status = record cd.cluster.status { manual_switch = none } };
}

uids : List Db → List Text
uids [] = []
uids (db ∷ dbs) = db.uid ∷ uids dbs

-- The switch to a database that is not the master, where it is among the candidates.
unfoldable pub switch_to : ClusterData → Text → Text → List Db → Switch
unfolding uids
switch_to newcd cur_uid target_uid candidates =
    if contains (uids candidates) target_uid
    then record { wanted = target_uid; applied = true; document = clear_manual_switch newcd }
    else record { wanted = cur_uid; applied = false; document = newcd }

-- The manual switch of `updateCluster`.
unfoldable pub manual_switch : Time → ClusterData → ClusterData → Text → Db → M Switch
manual_switch now cd newcd cur_uid cur_master s =
    let unchanged : Switch = record { wanted = cur_uid; applied = false; document = newcd } in
    elim cd.cluster.status.manual_switch [
      | none ↦ some (unchanged, s)
      | some req ↦ elim (lookup req.target_keeper_uid newcd.keepers) [
        | none ↦ some (unchanged, s)
        | some keeper ↦ elim (find_db newcd keeper) [
          | none ↦ some (unchanged, s)
          | some target ↦
              if text_eq target.uid cur_uid
              then some (
                record { wanted = cur_uid; applied = true; document = clear_manual_switch newcd },
                s,
              )
              else elim (find_best_new_masters now newcd cur_master s) [
                | none ↦ none
                | some (candidates, s') ↦ some (switch_to newcd cur_uid target.uid candidates, s')
              ]
        ]
      ]
    ]

abbrev is_convergence_failed : ConvergenceState → Bool
is_convergence_failed convergence_failed = true
is_convergence_failed _ = false

-- `masterOK`
unfoldable pub check_master : Time → DefSpec → Db → Sentinel → Bool × Sentinel
check_master now spec cur_master s =
    let (state, s') = db_convergence_state now cur_master spec.convergence_timeout s in
    (cur_master.status.healthy && not (is_convergence_failed state), s')

-- The election: `none` in the middle keeps the master.
unfoldable pub elect : Time → DefSpec → ClusterData → Text → Db → M Text
elect now spec newcd cur_uid cur_master s =
    elim (choose_best_new_master now newcd cur_master spec.fail_interval s) [
      | none ↦ none
      | some ((best, clear), s') ↦ some (
        elim best [ none ↦ cur_uid | some db ↦ db.uid ],
        if clear then clear_backoff cur_uid s' else s',
      )
    ]

-- The failback; its instant is remembered for the cooldown.
unfoldable pub fail_back : Time → ClusterData → Text → Db → M Text
fail_back now newcd cur_uid cur_master s =
    elim (choose_auto_failback_target now newcd cur_master s) [
      | none ↦ none
      | some (target, s') ↦ elim target [
        | none ↦ some (cur_uid, s')
        | some db ↦ some (db.uid, record s' { auto_failback_last_switch_at = now })
      ]
    ]

-- The wanted master, after the manual switch.
unfoldable pub choose_wanted : Time → DefSpec → Text → Db → Switch → M Text
choose_wanted now spec cur_uid cur_master sw s =
    let (master_ok, s1) = check_master now spec cur_master s in
    if not master_ok && not sw.applied
    then elect now spec sw.document cur_uid cur_master s1
    else if not sw.applied && master_ok
    then fail_back now sw.document cur_uid cur_master (clear_backoff cur_uid s1)
    else some (sw.wanted, clear_backoff cur_uid s1)

-- The document after the manual switch and the wanted master.
unfoldable pub decide_master : Time → ClusterData → ClusterData → Text → Db → M (ClusterData × Text)
decide_master now cd newcd cur_uid cur_master s =
    elim (manual_switch now cd newcd cur_uid cur_master s) [
      | none ↦ none
      | some (sw, s1) ↦ elim (choose_wanted now (def_spec cd) cur_uid cur_master sw s1) [
        | none ↦ none
        | some (wanted, s2) ↦ some ((sw.document, wanted), s2)
      ]
    ]
