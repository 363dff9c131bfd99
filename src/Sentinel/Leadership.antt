-- ===== src/Sentinel/Leadership.antt =====
-- internal/runtime/sentinel/leadership.go, and `chooseAutoFailbackTarget` of selection.go: which
-- database takes over, and when the decision waits.
pub mod Choice
pub mod Race
pub mod Failback
use mathlib.Core.Bool.{◌&&◌}
use hysteron.Base.{
  Text, text_eq, Map, lookup, insert, delete, elems, Bool, true, false, not, Option, some, none, ℕ,
  List, [], ◌∷◌, head?, find_first, Time, Duration, ℤ, pos, ltb_ℤ, leb_ℤ, sub_time, ◌==◌,
  if◌then◌else◌,
}
use hysteron.Cluster.Spec.{DefSpec}
use hysteron.Cluster.Entities.{Db, Keeper}
use hysteron.Cluster.Document.{ClusterData, def_spec}
use hysteron.Utils.Slices.{contains, common_elements}
use hysteron.Sentinel.State.{Sentinel, M, ◌>>=◌, return}
use hysteron.Sentinel.Health.{is_db_increasing_xlog_pos, update_db_convergence_infos}
use hysteron.Sentinel.Selection.{find_best_new_masters, keeper_master_priority}

-- `runLeadershipSanitySweep`
unfoldable pub run_leadership_sanity_sweep : Time → ClusterData → Sentinel → Sentinel
run_leadership_sanity_sweep now cd s = update_db_convergence_infos now cd (record s {
  keeper_error_timers = [];
  db_error_timers = [];
  db_not_increasing_xlog_pos = [];
  db_increasing_xlog_pos_observed_at = [];
  keeper_healthy_since = [];
  auto_failback_last_switch_at = 0;
  keeper_info_histories = [];
  db_convergence_infos = [];
  leader_race_backoff_timers = [];
  force_failed_keeper_uids = [];
  proxy_info_histories = [];
})

-- A candidate whose position was seen to grow within the window.
unfoldable pub is_still_advancing : Time → Duration → Sentinel → Db → Bool
is_still_advancing now window s candidate =
    elim (lookup candidate.uid s.db_increasing_xlog_pos_observed_at) [
      | none ↦ false
      | some last_increase_at ↦
          is_db_increasing_xlog_pos candidate s && ltb_ℤ (sub_time now last_increase_at) window
    ]

unfoldable pub clear_backoff : Text → Sentinel → Sentinel
clear_backoff uid s = record s {
  leader_race_backoff_timers = delete uid s.leader_race_backoff_timers;
}

-- The backoff of a failed master: it starts, goes on, or is over.
backoff : Time → Duration → Text → Sentinel → Bool × Sentinel
backoff now window uid s = elim (lookup uid s.leader_race_backoff_timers) [
  | none ↦
      (true, record s { leader_race_backoff_timers = insert uid now s.leader_race_backoff_timers })
  | some started_at ↦
      if ltb_ℤ (sub_time now started_at) window then (true, s) else (false, clear_backoff uid s)
]

is_empty : {A : Type 0} → List A → Bool
is_empty [] = true
is_empty _ = false

-- `shouldDelayLeaderRace`: the first candidate that still advances decides.
unfoldable pub should_delay_leader_race :
    Time → Db → List Db → Duration → Sentinel → Bool × Sentinel
unfolding backoff is_empty clear_backoff
should_delay_leader_race now failed_master candidates window s =
    if is_empty failed_master.uid
    then (false, s)
    else if leb_ℤ window (pos 0)
    then (false, clear_backoff failed_master.uid s)
    else elim (find_first (is_still_advancing now window s) candidates) [
      | none ↦ (false, clear_backoff failed_master.uid s)
      | some _ ↦ backoff now window failed_master.uid s
    ]

-- The choice among the candidates, once it is not delayed: the first, or with synchronous
-- replication the first among the standbys that are both specified and reported in sync.
unfoldable pub choose_among : Bool → Db → List Db → Option Db × Bool
unfolding is_empty
choose_among sync_enabled cur_master candidates =
    if not sync_enabled
    then (head? candidates, true)
    else let common =
        common_elements (elems cur_master.status.synchronous_standbys)
          (elems cur_master.spec.synchronous_standbys) in
      if is_empty common
      then (none, false)
      else elim (find_first (λ db. contains common db.uid) candidates) [
        | none ↦ (none, false)
        | some nm ↦ (some nm, true)
      ]

-- `synchronousReplicationEnabled`; the effective specification always sets its own flag.
unfoldable pub sync_failover : ClusterData → Db → Bool
sync_failover cd cur_master =
    cur_master.spec.synchronous_replication && (def_spec cd).synchronous_replication

-- `chooseBestNewMaster`: the new master, and whether the caller clears the backoff timer.
unfoldable pub choose_best_new_master : Time → ClusterData → Db → Duration → M (Option Db × Bool)
unfolding is_empty
choose_best_new_master now newcd cur_master fail_interval s =
    elim (find_best_new_masters now newcd cur_master s) [
      | none ↦ none
      | some (candidates, s') ↦
          if is_empty candidates
          then some ((none, true), s')
          else if contains s'.force_failed_keeper_uids cur_master.spec.keeper_uid
          then some (choose_among (sync_failover newcd cur_master) cur_master candidates, s')
          else let (delay, s'') =
              should_delay_leader_race now cur_master candidates fail_interval s' in
            if delay
            then some ((none, false), s'')
            else some (choose_among (sync_failover newcd cur_master) cur_master candidates, s'')
    ]

-- The candidate of the highest priority above `best`, the first among equals.
unfoldable pub highest_priority : ClusterData → ℤ → Option Db → List Db → Option Db
highest_priority cd best target [] = target
highest_priority cd best target (c ∷ cs) =
    let priority = keeper_master_priority cd c in
    let higher = ltb_ℤ best priority in
    highest_priority cd (if higher then priority else best) (if higher then some c else target) cs

-- The keeper has been healthy for the minimum uptime.
unfoldable pub is_up_long_enough : Time → Duration → Text → Sentinel → Bool
is_up_long_enough now min_uptime keeper_uid s =
    if ltb_ℤ (pos 0) min_uptime
    then elim (lookup keeper_uid s.keeper_healthy_since) [
      | none ↦ false
      | some healthy_since ↦ not (ltb_ℤ (sub_time now healthy_since) min_uptime)
    ]
    else true

-- No failback within the cooldown.
unfoldable pub is_cooled_down : Time → Duration → Sentinel → Bool
is_cooled_down now cooldown s = not (
    ltb_ℤ (pos 0) cooldown
    && not (s.auto_failback_last_switch_at == 0)
    && ltb_ℤ (sub_time now s.auto_failback_last_switch_at) cooldown)

unfoldable pub admit_failback : Time → ClusterData → Sentinel → Db → Option Db
admit_failback now cd s target = elim (lookup target.spec.keeper_uid cd.keepers) [
  | none ↦ none
  | some keeper ↦
      if keeper.status.healthy
        && is_up_long_enough now (def_spec cd).auto_failback_min_uptime keeper.uid s
        && is_cooled_down now (def_spec cd).auto_failback_cooldown s
      then some target
      else none
]

-- `chooseAutoFailbackTarget`
unfoldable pub choose_auto_failback_target : Time → ClusterData → Db → M (Option Db)
choose_auto_failback_target now cd cur_master s =
    if not (def_spec cd).unsafe_auto_failback
    then some (none, s)
    else elim (find_best_new_masters now cd cur_master s) [
      | none ↦ none
      | some (candidates, s') ↦
          elim (highest_priority cd (keeper_master_priority cd cur_master) none candidates) [
            | none ↦ some (none, s')
            | some target ↦ some (admit_failback now cd s' target, s')
          ]
    ]
