-- ===== src/Examples/Runs.antt =====
-- Runs of the sentinel's functions on the example cluster.
use hysteron.Base.{
  text, true, some, [], ◌∷◌, pos, ◌≡◌, refl, lookup, text_eq, sort_by, filter, insert, sub_time,
  find_first, text_lt, delete,
}
use hysteron.Cluster.Spec.{with_defaults}
use hysteron.Cluster.Document.{def_spec}
use hysteron.Cluster.Timeline.{detect_timeline_branch_divergence, get_timeline_history}
use hysteron.Utils.Slices.{contains, common_elements}
use hysteron.Sentinel.Health.{db_convergence_state}
use hysteron.Sentinel.Selection.{
  replica_line, find_best_new_masters, find_best_standbys, valid_dbs_by_status, is_wanted,
  db_validity, is_different_timeline_branch, db_type, db_status, sort_candidate_masters,
  is_near_master, sync_repl, candidate_less, candidate_order, is_former_master, is_lag_below_max,
  keeper_master_priority, may_be_master, validity_against, xlog_less, xlog_sort,
}
use hysteron.Sentinel.Leadership.{
  choose_best_new_master, choose_auto_failback_target, sync_failover, choose_among,
  should_delay_leader_race, clear_backoff, highest_priority, admit_failback, is_up_long_enough,
  is_cooled_down, is_still_advancing,
}
use hysteron.Examples.World.{
  async_cluster, sync_cluster, fresh_sentinel, forced_sentinel, db1, db2, db3,
}

-- Both standbys can take over, the one that is behind stands first.
pub async_candidates :
    find_best_new_masters 1000 async_cluster db1 fresh_sentinel
    ≡ some (db2 ∷ db3 ∷ [], fresh_sentinel)
unfolding find_best_new_masters find_best_standbys valid_dbs_by_status is_wanted db_validity lookup
    text_eq is_different_timeline_branch detect_timeline_branch_divergence db_type db_status
    sort_candidate_masters db_convergence_state sort_by filter insert is_near_master sync_repl
    def_spec sub_time find_first text_lt with_defaults get_timeline_history candidate_less
    candidate_order is_former_master is_lag_below_max keeper_master_priority may_be_master
    validity_against xlog_less xlog_sort
async_candidates = refl

pub sync_candidates :
    find_best_new_masters 1000 sync_cluster db1 fresh_sentinel
    ≡ some (db2 ∷ db3 ∷ [], fresh_sentinel)
unfolding find_best_new_masters find_best_standbys valid_dbs_by_status is_wanted db_validity lookup
    text_eq is_different_timeline_branch detect_timeline_branch_divergence db_type db_status
    sort_candidate_masters db_convergence_state sort_by filter insert is_near_master sync_repl
    def_spec sub_time find_first text_lt with_defaults get_timeline_history candidate_less
    candidate_order is_former_master is_lag_below_max keeper_master_priority may_be_master
    validity_against xlog_less xlog_sort
sync_candidates = refl

pub forced_candidates :
    find_best_new_masters 1000 async_cluster db1 forced_sentinel
    ≡ some (db2 ∷ db3 ∷ [], forced_sentinel)
unfolding find_best_new_masters find_best_standbys valid_dbs_by_status is_wanted db_validity lookup
    text_eq is_different_timeline_branch detect_timeline_branch_divergence db_type db_status
    sort_candidate_masters db_convergence_state sort_by filter insert is_near_master sync_repl
    def_spec sub_time find_first text_lt with_defaults get_timeline_history candidate_less
    candidate_order is_former_master is_lag_below_max keeper_master_priority may_be_master
    validity_against xlog_less xlog_sort
forced_candidates = refl

pub sync_classes :
    valid_dbs_by_status 1000 sync_cluster replica_line fresh_sentinel
    ≡ some (
      record {
        good_dbs = (text "db2", db2) ∷ (text "db3", db3) ∷ [];
        failed_dbs = [];
        converging_dbs = [];
      },
      fresh_sentinel,
    )
unfolding valid_dbs_by_status is_wanted db_validity lookup text_eq is_different_timeline_branch
    detect_timeline_branch_divergence db_type db_status sort_candidate_masters db_convergence_state
    sort_by filter insert is_near_master sync_repl def_spec sub_time find_first text_lt
    with_defaults get_timeline_history candidate_less candidate_order is_former_master
    is_lag_below_max keeper_master_priority may_be_master validity_against xlog_less xlog_sort
sync_classes = refl

pub async_election :
    choose_best_new_master 1000 async_cluster db1 (pos 30_000_000_000) fresh_sentinel
    ≡ some ((some db2, true), fresh_sentinel)
unfolding choose_best_new_master contains should_delay_leader_race clear_backoff delete find_first
    is_still_advancing lookup sync_failover choose_among def_spec with_defaults
    find_best_new_masters find_best_standbys valid_dbs_by_status is_wanted db_validity text_eq
    is_different_timeline_branch detect_timeline_branch_divergence db_type db_status
    sort_candidate_masters db_convergence_state sort_by filter insert is_near_master sync_repl
    sub_time text_lt get_timeline_history candidate_less candidate_order is_former_master
    is_lag_below_max keeper_master_priority may_be_master validity_against xlog_less xlog_sort
async_election = refl

pub sync_election :
    choose_best_new_master 1000 sync_cluster db1 (pos 30_000_000_000) fresh_sentinel
    ≡ some ((some db2, true), fresh_sentinel)
unfolding choose_best_new_master contains should_delay_leader_race clear_backoff delete find_first
    is_still_advancing lookup sync_failover choose_among def_spec with_defaults common_elements
    find_best_new_masters find_best_standbys valid_dbs_by_status is_wanted db_validity text_eq
    is_different_timeline_branch detect_timeline_branch_divergence db_type db_status
    sort_candidate_masters db_convergence_state sort_by filter insert is_near_master sync_repl
    sub_time text_lt get_timeline_history candidate_less candidate_order is_former_master
    is_lag_below_max keeper_master_priority may_be_master validity_against xlog_less xlog_sort
sync_election = refl

pub failback :
    choose_auto_failback_target 1000 async_cluster db1 fresh_sentinel
    ≡ some (some db3, fresh_sentinel)
unfolding choose_auto_failback_target def_spec with_defaults highest_priority keeper_master_priority
    lookup admit_failback is_up_long_enough is_cooled_down find_first find_best_new_masters
    find_best_standbys valid_dbs_by_status is_wanted db_validity text_eq
    is_different_timeline_branch detect_timeline_branch_divergence db_type db_status
    sort_candidate_masters db_convergence_state sort_by filter insert is_near_master sync_repl
    sub_time text_lt get_timeline_history candidate_less candidate_order is_former_master
    is_lag_below_max may_be_master validity_against xlog_less xlog_sort
failback = refl
