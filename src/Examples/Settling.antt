-- ===== src/Examples/Settling.antt =====
-- Whole rounds of `updateCluster` on the example cluster.
use mathlib.Core.Option
use mathlib.Core.List.Perm
use hysteron.Base.{
  Text, text, text_eq, Map, lookup, insert, has_key, filter, find_first, Option, some, none, true,
  false, ◌≤◌, [], ◌∷◌, ◌≡◌, ◌⊎◌, refl, arith, values, length,
}
use hysteron.Cluster.Enums.{ClusterPhase, ClusterInitMode, Role}
use hysteron.Cluster.Spec.{with_defaults, empty_spec}
use hysteron.Cluster.Entities.{Db}
use hysteron.Cluster.Document.{ClusterData, def_spec, pause_active, find_db}
use hysteron.Utils.Slices.{contains}
use hysteron.Sentinel.State.{Sentinel}
use hysteron.Sentinel.Health.{db_convergence_state}
use hysteron.Sentinel.Selection.{sync_repl}
use hysteron.Sentinel.Update.Decision.{
  decide_master, remove_old_keepers, is_dead_keeper, delete_all,
}
use hysteron.Sentinel.Update.Decision.Safety.{CanTakeOver}
use hysteron.Sentinel.Update.Promotion.{
  hand_over, promote, master_role, with_master, crowned, take_over_standbys, without_followers,
}
use hysteron.Sentinel.Update.Initial.{
  Outcome, written, initializing_phase, initialize_by, start_or_await, await_first,
  apply_initial_db_convergence, initialized,
}
use hysteron.Sentinel.Update.Standbys.{remove_standbys}
use hysteron.Sentinel.Update.Standbys.Removal.{Distinct, IsFiled, uids_of, remove_standbys-Keeps}
use hysteron.Sentinel.Update.Specs.{
  finish_round, finish_update, update_followers, set_db_spec_from_cluster_spec, set_db_specs,
  db_settings, follow_settings, update_orphan_slots,
}
use hysteron.Sentinel.Update.Rounds.{update_cluster, normal_phase, carry_out, finish, finish_phase}
use hysteron.Sentinel.Update.Rounds.Master.{update_cluster-CanTakeOver}
use hysteron.Sentinel.Update.Rounds.First.{IsReady, update_cluster-IsReady}
use hysteron.Examples.World.{
  document, async_cluster, fresh_sentinel, database, db_spec, db1, db2, db3,
}
use hysteron.Examples.Rounds.{decision, promoted}
use hysteron.Examples.Elections.{async_cluster-IsKeyed}

-- The end of the round that promotes the second database.
abbrev run_end : Option ClusterData
run_end = finish_round 1000 async_cluster (text "db1") (text "db2") (promoted async_cluster)

abbrev after : ClusterData
after = Option.get_or run_end async_cluster

ending : run_end ≡ some after
unfolding finish_round update_followers lookup with_master insert text_eq finish_update
    set_db_spec_from_cluster_spec set_db_specs db_settings follow_settings crowned
    take_over_standbys without_followers sync_repl def_spec with_defaults
ending = refl

decided :
    decide_master 1000 async_cluster
      (remove_old_keepers 1000 async_cluster async_cluster)
      (text "db1")
      db1
      fresh_sentinel
    ≡ some ((async_cluster, text "db2"), fresh_sentinel)
unfolding remove_old_keepers delete_all filter is_dead_keeper find_db find_first text_eq
decided = decision

carried :
    carry_out
      (λ n. text "db9")
      1000
      (def_spec async_cluster)
      []
      async_cluster
      (text "db1")
      db1
      async_cluster
      (text "db2")
      fresh_sentinel
    ≡ some (promoted async_cluster, fresh_sentinel)
unfolding carry_out hand_over promote master_role with_defaults def_spec insert lookup text_eq
carried = refl

-- The same databases, the first two in the other order.
abbrev turned : Map Db → Map Db
turned (a ∷ b ∷ dbs) = b ∷ a ∷ dbs
turned dbs = dbs

abbrev Differ : Map Db → Type 0
Differ (a ∷ b ∷ dbs) = text_eq a.0 b.0 ≡ false
Differ dbs = Unit

whole_round :
    update_cluster (λ n. text "db9") (λ n. 0) 1000 [] async_cluster fresh_sentinel
    ≡ some (written after, fresh_sentinel)
unfolding update_cluster normal_phase finish pause_active lookup text_eq
whole_round = ground (arith, decided, carried, ending)

known : lookup async_cluster.cluster.status.master async_cluster.dbs ≡ some db1
unfolding lookup text_eq
known = refl

update_cluster-CanTakeOver_example :
    (after.cluster.status.master ≡ text "db1")
    ⊎ CanTakeOver
        (remove_old_keepers 1000 async_cluster async_cluster)
        db1
        after.cluster.status.master
update_cluster-CanTakeOver_example =
    update_cluster-CanTakeOver (λ n. text "db9") (λ n. 0) 1000 [] async_cluster after db1
      fresh_sentinel fresh_sentinel async_cluster-IsKeyed known refl whole_round

-- A new cluster whose first database is initialised.
abbrev first_db : Db
first_db = database (text "db1") (db_spec (text "k1") Role.master none) 100 true

abbrev starting : ClusterData
starting =
    let cd = document (record empty_spec { init_mode = some ClusterInitMode.fresh }) in
    record cd {
      cluster = record cd.cluster {
        status = record cd.cluster.status { phase = ClusterPhase.initializing };
      };
      dbs = (text "db1", first_db) ∷ [];
    }

abbrev start_run : Option (Outcome × Sentinel)
start_run = update_cluster (λ n. text "db9") (λ n. 0) 1000 [] starting fresh_sentinel

abbrev document_of : Option (Outcome × Sentinel) → ClusterData
document_of (some (written cd, s)) = cd
document_of _ = starting

start_run-written : start_run ≡ some (written (document_of start_run), fresh_sentinel)
unfolding update_cluster finish_phase initializing_phase initialize_by start_or_await await_first
    db_convergence_state apply_initial_db_convergence initialized finish_update
    set_db_spec_from_cluster_spec set_db_specs db_settings follow_settings lookup text_eq insert
    def_spec with_defaults
start_run-written = refl

start_run-normal : (document_of start_run).cluster.status.phase ≡ ClusterPhase.normal
unfolding update_cluster finish_phase initializing_phase initialize_by start_or_await await_first
    db_convergence_state apply_initial_db_convergence initialized finish_update
    set_db_spec_from_cluster_spec set_db_specs db_settings follow_settings lookup text_eq insert
    def_spec with_defaults update_orphan_slots
start_run-normal = refl

update_cluster-IsReady_example :
    (db : Db) × (lookup (text "db1") starting.dbs ≡ some db) × IsReady db
update_cluster-IsReady_example =
    update_cluster-IsReady (λ n. text "db9") (λ n. 0) 1000 [] starting (document_of start_run)
      fresh_sentinel fresh_sentinel refl start_run-written start_run-normal

-- One good standby is to be left of two, and the second database is synchronous.
abbrev crowded : ClusterData
crowded =
    document
      (record empty_spec { synchronous_replication = some true; max_standbys_per_sender = some 1 })

abbrev good_two : Map Db
good_two = (text "db2", db2) ∷ (text "db3", db3) ∷ []

good_two-IsFiled : IsFiled crowded good_two
unfolding Distinct contains has_key lookup text_eq uids_of
good_two-IsFiled = record {
  distinct = (refl, (refl, tt));
  filed = (refl, (refl, tt));
  present = (refl, (refl, tt));
}

remove_standbys-Keeps_example :
    (1
      ≤ length (
          filter
            (λ (db : Db). has_key db.uid (remove_standbys crowded good_two (text "db2" ∷ [])).dbs)
            (values good_two)))
    × ((uid : Text)
        → (contains (text "db2" ∷ []) uid ≡ false)
          ⊎ (lookup uid (remove_standbys crowded good_two (text "db2" ∷ [])).dbs
              ≡ lookup uid crowded.dbs))
unfolding def_spec with_defaults
remove_standbys-Keeps_example =
    remove_standbys-Keeps crowded good_two (text "db2" ∷ []) good_two-IsFiled (omega arith)
