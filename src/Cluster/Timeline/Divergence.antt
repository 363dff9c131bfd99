-- ===== src/Cluster/Timeline/Divergence.antt =====
-- What the divergence test decides.
use hysteron.Base.{
  true, Option, some, none, ℕ, ◌-◌, ◌<◌, List, ◌≡◌, ◌≢◌, ◌↔◌, arith, Bool-cases, ltb, ◌==◌, inl,
  inr, refl,
}
use hysteron.Cluster.Entities.{PostgresTimelineHistory}
use hysteron.Cluster.Timeline.{
  get_timeline_history, detect_timeline_branch_divergence, compare_fork, compare_switch_points,
}

-- The switch point that a history records for a timeline.
abbrev pub SwitchesAt : List PostgresTimelineHistory → ℕ → ℕ → Type 0
SwitchesAt h id point =
    (e : PostgresTimelineHistory) × (get_timeline_history h id ≡ some e) × (e.switch_point ≡ point)

-- The followed instance is behind, or came to the shared timeline from another point, or left
-- the current timeline before the current position.
pub data Diverged (followed_id : ℕ) (followed_history : List PostgresTimelineHistory)
    (current_id : ℕ) (current_history : List PostgresTimelineHistory) (current_xlog_pos : ℕ)
    : Type 0 where
  older :
      followed_id < current_id
      → Diverged followed_id followed_history current_id current_history current_xlog_pos
  other_origin :
      (p q : ℕ)
      → followed_id ≡ current_id
      → 1 < current_id
      → SwitchesAt followed_history (current_id - 1) p
      → SwitchesAt current_history (current_id - 1) q
      → p ≢ q
      → Diverged followed_id followed_history current_id current_history current_xlog_pos
  forked_before :
      (p : ℕ)
      → current_id < followed_id
      → SwitchesAt followed_history current_id p
      → p < current_xlog_pos
      → Diverged followed_id followed_history current_id current_history current_xlog_pos

module _ (fid : ℕ) (fh : List PostgresTimelineHistory) (fpos cid : ℕ)
    (ch : List PostgresTimelineHistory) (cpos : ℕ) where
  Diverged-of_different :
      (detect_timeline_branch_divergence fid fh fpos cid ch cpos).different ≡ true
      → Diverged fid fh cid ch cpos
  unfolding detect_timeline_branch_divergence
  Diverged-of_different h = elim (Bool-cases (ltb fid cid)) [
    | inl lt ↦ Diverged.older (ground arith)
    | inr nlt ↦ elim (Bool-cases (fid == cid)) [
      | inl e ↦
          from_origins (get_timeline_history fh (cid - 1)) (get_timeline_history ch (cid - 1)) refl
            refl e (ground arith) (ground arith)
      | inr ne ↦ from_fork (get_timeline_history fh cid) refl (ground arith) (ground arith)
    ]
  ]
    where
      from_origins :
          (f c : Option PostgresTimelineHistory)
          → get_timeline_history fh (cid - 1) ≡ f
          → get_timeline_history ch (cid - 1) ≡ c
          → (fid == cid) ≡ true
          → 1 < cid
          → (compare_switch_points f c).different ≡ true
          → Diverged fid fh cid ch cpos
      from_origins none c ef ec e big d = cc
      from_origins (some f) none ef ec e big d = cc
      from_origins (some f) (some c) ef ec e big d =
          Diverged.other_origin f.switch_point c.switch_point (ground arith) big (f, ef, refl)
            (c, ec, refl) (ground arith)

      from_fork :
          (f : Option PostgresTimelineHistory)
          → get_timeline_history fh cid ≡ f
          → cid < fid
          → (compare_fork f cpos).different ≡ true
          → Diverged fid fh cid ch cpos
      from_fork none ef lt d = cc
      from_fork (some f) ef lt d =
          Diverged.forked_before f.switch_point lt (f, ef, refl) (ground arith)

  different-of_Diverged :
      Diverged fid fh cid ch cpos
      → (detect_timeline_branch_divergence fid fh fpos cid ch cpos).different ≡ true
  unfolding detect_timeline_branch_divergence
  different-of_Diverged (Diverged.older lt) = ground arith
  different-of_Diverged (Diverged.other_origin p q e big f c ne) = ground arith
  different-of_Diverged (Diverged.forked_before p lt f below) = ground arith

-- `DetectTimelineBranchDivergence` reports a difference exactly where the current instance has
-- left the branch of the followed one: the followed timeline is older, or both are on one timeline
-- above 1 and record different switch points for the timeline before it, or the followed instance
-- is on a newer timeline and records a switch from the current one below the current position.
pub different_iff_Diverged :
    (fid : ℕ) (fh : List PostgresTimelineHistory) (fpos cid : ℕ) (ch : List PostgresTimelineHistory)
    (cpos : ℕ)
    → ((detect_timeline_branch_divergence fid fh fpos cid ch cpos).different ≡ true)
      ↔ Diverged fid fh cid ch cpos
different_iff_Diverged fid fh fpos cid ch cpos =
    (Diverged-of_different fid fh fpos cid ch cpos, different-of_Diverged fid fh fpos cid ch cpos)
