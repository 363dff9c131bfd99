-- ===== src/Sentinel/Health.antt =====
-- internal/runtime/sentinel/health.go: error timers, WAL progress and convergence. `now` is the
-- instant at which the call reads the clock.
use hysteron.Base.{
  Text, Map, lookup, insert, delete, values, Bool, true, false, not, Option, some, none, ℕ, ◌+◌,
  List, [], ◌∷◌, Time, Duration, pos, ltb_ℤ, sub_time, ltb, ◌==◌, if◌then◌else◌,
}
use hysteron.Cluster.Entities.{Db, Keeper}
use hysteron.Cluster.Document.{ClusterData, def_spec}
use hysteron.Sentinel.State.{Sentinel, DbConvergenceInfo}

pub data ConvergenceState : Type 0 where
  converging converged convergence_failed : ConvergenceState

-- Sets a timer that is not running.
unfoldable pub start_timer : Text → Time → Map Time → Map Time
start_timer uid now timers = elim (lookup uid timers) [
  | none ↦ insert uid now timers
  | some _ ↦ timers
]

-- `SetKeeperError`
unfoldable pub set_keeper_error : Text → Time → Sentinel → Sentinel
unfolding start_timer
set_keeper_error uid now s = record s {
  keeper_error_timers = start_timer uid now s.keeper_error_timers;
}

-- `CleanKeeperError`
unfoldable pub clean_keeper_error : Text → Sentinel → Sentinel
clean_keeper_error uid s = record s { keeper_error_timers = delete uid s.keeper_error_timers }

-- `SetDBError`
unfoldable pub set_db_error : Text → Time → Sentinel → Sentinel
unfolding start_timer
set_db_error uid now s = record s { db_error_timers = start_timer uid now s.db_error_timers }

-- `CleanDBError`
unfoldable pub clean_db_error : Text → Sentinel → Sentinel
clean_db_error uid s = record s { db_error_timers = delete uid s.db_error_timers }

-- `SetDBNotIncreasingXLogPos`
unfoldable pub set_db_not_increasing_xlog_pos : Text → Sentinel → Sentinel
set_db_not_increasing_xlog_pos uid s =
    let counters = s.db_not_increasing_xlog_pos in
    elim (lookup uid counters) [
      | none ↦ record s { db_not_increasing_xlog_pos = insert uid 1 counters }
      | some n ↦ record s { db_not_increasing_xlog_pos = insert uid (n + 1) counters }
    ]

-- `CleanDBNotIncreasingXLogPos`
unfoldable pub clean_db_not_increasing_xlog_pos : Text → Sentinel → Sentinel
clean_db_not_increasing_xlog_pos uid s = record s {
  db_not_increasing_xlog_pos = delete uid s.db_not_increasing_xlog_pos;
}

-- No error, or one that is not older than the fail interval.
unfoldable pub within_fail_interval : Option Time → Duration → Time → Bool
within_fail_interval none fail_interval now = true
within_fail_interval (some t) fail_interval now = not (ltb_ℤ fail_interval (sub_time now t))

-- `isKeeperHealthy`
unfoldable pub is_keeper_healthy : Time → ClusterData → Keeper → Sentinel → Bool
unfolding within_fail_interval
is_keeper_healthy now cd keeper s =
    within_fail_interval (lookup keeper.uid s.keeper_error_timers) (def_spec cd).fail_interval now

-- `isDBHealthy`
unfoldable pub is_db_healthy : Time → ClusterData → Db → Sentinel → Bool
unfolding within_fail_interval
is_db_healthy now cd db s =
    within_fail_interval (lookup db.uid s.db_error_timers) (def_spec cd).fail_interval now

-- `DefaultDBNotIncreasingXLogPosTimes`
abbrev pub default_db_not_increasing_xlog_pos_times : ℕ
default_db_not_increasing_xlog_pos_times = 10

-- `isDBIncreasingXLogPos`
unfoldable pub is_db_increasing_xlog_pos : Db → Sentinel → Bool
is_db_increasing_xlog_pos db s = elim (lookup db.uid s.db_not_increasing_xlog_pos) [
  | none ↦ true
  | some t ↦ not (ltb default_db_not_increasing_xlog_pos_times t)
]

-- One round of the loop of `updateDBConvergenceInfos`.
unfoldable pub track_convergence : Time → Db → Map DbConvergenceInfo → Map DbConvergenceInfo
track_convergence now db infos =
    if db.status.current_generation == db.generation
    then delete db.uid infos
    else let nd : DbConvergenceInfo = record { timer = now; generation = db.generation } in
      elim (lookup db.uid infos) [
        | none ↦ insert db.uid nd infos
        | some d ↦ if d.generation == db.generation then infos else insert db.uid nd infos
      ]

track_all : Time → List Db → Map DbConvergenceInfo → Map DbConvergenceInfo
track_all now [] infos = infos
track_all now (db ∷ dbs) infos = track_all now dbs (track_convergence now db infos)

-- `updateDBConvergenceInfos`
unfoldable pub update_db_convergence_infos : Time → ClusterData → Sentinel → Sentinel
unfolding track_all
update_db_convergence_infos now cd s = record s {
  db_convergence_infos = track_all now (values cd.dbs) s.db_convergence_infos;
}

-- `timeout != 0`
abbrev is_zero : Duration → Bool
is_zero (pos n) = n == 0
is_zero _ = false

-- `time.Since(d.Timer) > timeout`
judge : Time → Duration → Time → ConvergenceState
judge now timeout timer =
    if ltb_ℤ timeout (sub_time now timer) then convergence_failed else converging

-- `dbConvergenceState`: the tracking starts here if it has not yet.
unfoldable pub db_convergence_state : Time → Db → Duration → Sentinel → ConvergenceState × Sentinel
unfolding judge
db_convergence_state now db timeout s =
    if db.status.current_generation == db.generation
    then (converged, s)
    else if is_zero timeout
    then (converging, s)
    else elim (lookup db.uid s.db_convergence_infos) [
      | none ↦ (
        judge now timeout now,
        record s {
          db_convergence_infos =
              insert db.uid (record { timer = now; generation = db.generation })
                s.db_convergence_infos;
        },
      )
      | some d ↦ (judge now timeout d.timer, s)
    ]
