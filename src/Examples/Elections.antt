-- ===== src/Examples/Elections.antt =====
-- The theorems on candidates and elections, applied to the example cluster.
use hysteron.Base.{
  text, text_eq, lookup, values, true, false, some, none, List, [], ◌∷◌, pos, ◌≡◌, ◌≢◌, refl, inl,
  inr, ◌↔◌, Member, ltb_ℤ, if◌then◌else◌,
}
use mathlib.Core.Option
use hysteron.Cluster.Spec.{with_defaults}
use hysteron.Cluster.Entities.{Db}
use hysteron.Cluster.Document.{def_spec}
use hysteron.Sentinel.State.{Sentinel}
use hysteron.Sentinel.Selection.{find_best_new_masters, replica_line}
use hysteron.Sentinel.Selection.Candidates.{IsKeyed, HasKeepers, IsGoodOf, good_dbs_iff}
use hysteron.Sentinel.Selection.NewMasters.{IsCandidate, find_best_new_masters_iff}
use hysteron.Sentinel.Selection.Total.{find_best_new_masters_total}
use hysteron.Sentinel.Leadership.{should_delay_leader_race, choose_best_new_master, sync_failover}
use hysteron.Sentinel.Leadership.Choice.{
  InSync, elected-IsCandidate, elected-InSync, forced_election,
}
use hysteron.Sentinel.Leadership.Race.{
  SeenGrowing, InWindow, should_delay_leader_race_iff, leader_race_timer,
}
use hysteron.Sentinel.Leadership.Failback.{IsFailback, choose_auto_failback_target-IsFailback}
use hysteron.Examples.World.{
  async_cluster, sync_cluster, fresh_sentinel, forced_sentinel, waiting_sentinel, db1, db2, db3, k1,
  k2, k3,
}
use hysteron.Examples.Runs.{
  async_candidates, forced_candidates, sync_classes, async_election, sync_election, failback,
}

pub async_cluster-IsKeyed : IsKeyed async_cluster
unfolding lookup text_eq
async_cluster-IsKeyed = (refl, (refl, (refl, tt)))

async_cluster-HasKeepers : HasKeepers async_cluster
unfolding lookup text_eq
async_cluster-HasKeepers = ((k1, refl), ((k2, refl), ((k3, refl), tt)))

async_cluster-sync_failover : sync_failover async_cluster db1 ≡ false
unfolding sync_failover def_spec with_defaults
async_cluster-sync_failover = refl

sync_cluster-sync_failover : sync_failover sync_cluster db1 ≡ true
unfolding sync_failover def_spec with_defaults
sync_cluster-sync_failover = refl

find_best_new_masters_iff_example : Member db3 (db2 ∷ db3 ∷ []) ↔ IsCandidate async_cluster db1 db3
find_best_new_masters_iff_example =
    find_best_new_masters_iff 1000 async_cluster db1 fresh_sentinel fresh_sentinel (db2 ∷ db3 ∷ [])
      async_cluster-IsKeyed async_candidates db3

find_best_new_masters_total_example :
    (cs : List Db) × (s' : Sentinel) × (find_best_new_masters 1000 async_cluster db1 fresh_sentinel
      ≡ some (cs, s'))
find_best_new_masters_total_example =
    find_best_new_masters_total 1000 async_cluster db1 fresh_sentinel async_cluster-IsKeyed
      async_cluster-HasKeepers

elected-IsCandidate_example : IsCandidate async_cluster db1 db2
elected-IsCandidate_example =
    elected-IsCandidate 1000 async_cluster db1 (pos 30_000_000_000) fresh_sentinel fresh_sentinel
      db2 true async_cluster-IsKeyed async_election

elected-InSync_example : InSync db1 (text "db2")
elected-InSync_example =
    elected-InSync 1000 sync_cluster db1 (pos 30_000_000_000) fresh_sentinel fresh_sentinel db2 true
      sync_cluster-sync_failover sync_election

choose_auto_failback_target-IsFailback_example :
    IsFailback 1000 async_cluster db1 fresh_sentinel db3
choose_auto_failback_target-IsFailback_example =
    choose_auto_failback_target-IsFailback 1000 async_cluster db1 fresh_sentinel fresh_sentinel db3
      async_cluster-IsKeyed failback

forced_election_example :
    (nm : Db) × (choose_best_new_master 1000 async_cluster db1 (pos 30_000_000_000) forced_sentinel
      ≡ some ((some nm, true), forced_sentinel))
forced_election_example =
    forced_election 1000 async_cluster db1 (pos 30_000_000_000) forced_sentinel forced_sentinel
      (db2 ∷ db3 ∷ []) db3 forced_candidates (inl refl) (inr (inl refl))
      (inl async_cluster-sync_failover)

good_dbs_iff_example :
    Member db3 (db2 ∷ db3 ∷ [])
    ↔ (Member db3 (values sync_cluster.dbs) × IsGoodOf sync_cluster replica_line db3)
good_dbs_iff_example =
    good_dbs_iff 1000 sync_cluster replica_line fresh_sentinel fresh_sentinel
      (record {
        good_dbs = (text "db2", db2) ∷ (text "db3", db3) ∷ [];
        failed_dbs = [];
        converging_dbs = [];
      })
      async_cluster-IsKeyed sync_classes db3

should_delay_leader_race_iff_example :
    ((should_delay_leader_race 1000 db1 (db2 ∷ db3 ∷ []) (pos 150) waiting_sentinel).0 ≡ true) ↔ (
      (db1.uid ≢ [])
      × (ltb_ℤ (pos 0) (pos 150) ≡ true)
      × ((c : Db) × Member c (db2 ∷ db3 ∷ []) × SeenGrowing 1000 (pos 150) waiting_sentinel c)
      × InWindow 1000 (pos 150) db1.uid waiting_sentinel)
should_delay_leader_race_iff_example =
    should_delay_leader_race_iff 1000 db1 (db2 ∷ db3 ∷ []) (pos 150) waiting_sentinel

-- The second delay keeps the instant of the first.
leader_race_timer_example :
    let (delay, s') =
      should_delay_leader_race 1000 db1 (db2 ∷ db3 ∷ []) (pos 150) waiting_sentinel in
    lookup db1.uid s'.leader_race_backoff_timers ≡ (
      if delay
      then some (Option.get_or (lookup db1.uid waiting_sentinel.leader_race_backoff_timers) 1000)
      else none)
leader_race_timer_example =
    leader_race_timer 1000 db1 (db2 ∷ db3 ∷ []) (pos 150) waiting_sentinel (λ e. cc)
