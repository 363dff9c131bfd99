-- ===== src/Examples/Rounds.antt =====
-- Steps of a round of the sentinel on the example cluster.
use hysteron.Base.{
  text, some, none, [], ◌∷◌, ◌≡◌, refl, lookup, text_eq, sort_by, filter, insert, sub_time,
  find_first, text_lt, delete, has_key, sort_texts, arith,
}
use hysteron.Cluster.Enums.{Role}
use hysteron.Cluster.Spec.{with_defaults}
use hysteron.Cluster.Document.{ClusterData, def_spec}
use hysteron.Cluster.Timeline.{detect_timeline_branch_divergence, get_timeline_history}
use hysteron.Utils.Slices.{contains, compare_string_slice_no_order, same_elements}
use hysteron.Sentinel.Health.{db_convergence_state}
use hysteron.Sentinel.Selection.{
  find_best_standbys, valid_dbs_by_status, is_wanted, db_validity, is_different_timeline_branch,
  db_type, db_status, is_near_master, sync_repl, is_lag_below_max, validity_against, xlog_less,
  xlog_sort,
}
use hysteron.Sentinel.Leadership.{clear_backoff}
use hysteron.Sentinel.Update.Decision.{
  decide_master, manual_switch, choose_wanted, check_master, elect,
}
use hysteron.Sentinel.Update.Promotion.{
  hand_over, promote, master_role, with_master, crowned, without_followers,
}
use hysteron.Sentinel.Update.SyncStandbys.{
  setup_standbys, await_in_sync, settled, set_of, add_to_set, wanted_standbys, kept_standbys,
  add_best, offer_best, add_previous, offer_previous, merge_previous, add_all_previous, all_in,
  refuses_sync, drop, with_standbys,
}
use hysteron.Examples.World.{
  async_cluster, sync_cluster, pair_cluster, fresh_sentinel, db1, db2, db3,
}
use hysteron.Examples.Runs.{async_election}

pub decision :
    decide_master 1000 async_cluster async_cluster (text "db1") db1 fresh_sentinel
    ≡ some ((async_cluster, text "db2"), fresh_sentinel)
unfolding decide_master manual_switch choose_wanted check_master elect clear_backoff delete
    db_convergence_state def_spec with_defaults
decision = ground (arith, async_election)

-- The document after the promotion of the second database.
abbrev pub promoted : ClusterData → ClusterData
promoted cd =
    with_master (text "db2") (crowned (def_spec cd) Role.master none (without_followers db1) db2)
      (insert (text "db1") (without_followers db1) cd.dbs) cd

pub promotion :
    promote (def_spec sync_cluster) (text "db1") (text "db2") sync_cluster
    ≡ some (promoted sync_cluster)
unfolding promote master_role def_spec with_defaults insert lookup text_eq
promotion = refl

pub handing_over :
    hand_over (def_spec sync_cluster) [] (text "db1") (text "db2") sync_cluster
    ≡ some (promoted sync_cluster)
unfolding hand_over promote master_role def_spec with_defaults insert lookup text_eq
handing_over = refl

pub setup :
    setup_standbys 1000
      (def_spec pair_cluster)
      pair_cluster
      ((text "db2", db2) ∷ (text "db3", db3) ∷ [])
      (text "db1")
      db1
      db1
      fresh_sentinel
    ≡ some
        (with_standbys (def_spec pair_cluster) (text "db2" ∷ text "db3" ∷ []) db1, fresh_sentinel)
unfolding setup_standbys await_in_sync settled compare_string_slice_no_order same_elements
    sort_texts find_best_standbys valid_dbs_by_status is_wanted db_validity lookup text_eq
    is_different_timeline_branch detect_timeline_branch_divergence db_type db_status
    db_convergence_state sort_by filter insert is_near_master sync_repl def_spec sub_time find_first
    text_lt with_defaults get_timeline_history is_lag_below_max validity_against xlog_less xlog_sort
    set_of add_to_set wanted_standbys kept_standbys add_best offer_best add_previous offer_previous
    merge_previous add_all_previous all_in refuses_sync drop contains has_key
setup = refl
