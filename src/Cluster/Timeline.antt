-- ===== src/Cluster/Timeline.antt =====
-- internal/cluster/timeline.go and `GetTimelineHistory` of member.go: whether an instance has
-- left the timeline of the instance that it is to follow.
pub mod Divergence
use hysteron.Base.{
  Bool, true, false, Option, some, none, ℕ, ◌-◌, List, ltb, leb, ◌==◌, if◌then◌else◌, find_first,
}
use hysteron.Cluster.Entities.{PostgresTimelineHistory}

pub data TimelineDivergenceReason : Type 0 where
  no_divergence followed_timeline_older : TimelineDivergenceReason
  same_timeline_different_switch_point : TimelineDivergenceReason
  followed_forked_before_current_position : TimelineDivergenceReason

pub record TimelineBranchDivergence : Type 0 where
  pub reason : TimelineDivergenceReason
  pub followed_switch_point : ℕ
  pub current_switch_point : ℕ
  pub different : Bool

-- `GetTimelineHistory`
unfoldable pub get_timeline_history :
    List PostgresTimelineHistory → ℕ → Option PostgresTimelineHistory
get_timeline_history tlsh id = find_first (λ tlh. tlh.timeline_id == id) tlsh

-- `TimelineBranchDivergence{Reason: TimelineDivergenceNone}`
abbrev pub same_branch : TimelineBranchDivergence
same_branch = record {
  reason = no_divergence;
  followed_switch_point = 0;
  current_switch_point = 0;
  different = false;
}

-- The two parent switch points, where both instances know theirs.
compare_switch_points :
    Option PostgresTimelineHistory → Option PostgresTimelineHistory → TimelineBranchDivergence
compare_switch_points none current = same_branch
compare_switch_points (some followed) none = same_branch
compare_switch_points (some followed) (some current) =
    if followed.switch_point == current.switch_point then same_branch else record {
      reason = same_timeline_different_switch_point;
      followed_switch_point = followed.switch_point;
      current_switch_point = current.switch_point;
      different = true;
    }

-- The point where the followed instance left the current timeline, against the current position.
compare_fork : Option PostgresTimelineHistory → ℕ → TimelineBranchDivergence
compare_fork none current_xlog_pos = same_branch
compare_fork (some followed) current_xlog_pos =
    if ltb followed.switch_point current_xlog_pos
    then record {
      reason = followed_forked_before_current_position;
      followed_switch_point = followed.switch_point;
      current_switch_point = current_xlog_pos;
      different = true;
    }
    else same_branch

-- `DetectTimelineBranchDivergence`; the followed instance's position is not used by the code.
unfoldable pub detect_timeline_branch_divergence :
    ℕ
    → List PostgresTimelineHistory
    → ℕ
    → ℕ
    → List PostgresTimelineHistory
    → ℕ
    → TimelineBranchDivergence
unfolding compare_switch_points compare_fork get_timeline_history
detect_timeline_branch_divergence followed_id followed_history followed_xlog_pos current_id
      current_history current_xlog_pos =
    if ltb followed_id current_id
    then record {
      reason = followed_timeline_older;
      followed_switch_point = 0;
      current_switch_point = 0;
      different = true;
    }
    else if followed_id == current_id
    then if leb current_id 1
      then same_branch
      else compare_switch_points (get_timeline_history followed_history (current_id - 1))
          (get_timeline_history current_history (current_id - 1))
    else compare_fork (get_timeline_history followed_history current_id) current_xlog_pos
