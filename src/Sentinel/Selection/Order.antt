-- ===== src/Sentinel/Selection/Order.antt =====
-- The order of the candidates.
use mathlib.Core.List.{Perm}
use hysteron.Base.{
  Text, text_lt_asymm, text_lt_trans, text_lt_total, true, false, ℕ, ℤ, ◌≤◌, List, ◌≡◌, arith,
  sort_by-perm, sort_by-IsSorted, IsSorted, IsWeakOrder,
}
use hysteron.Cluster.Entities.{Db}
use hysteron.Cluster.Document.{ClusterData}
use hysteron.Sentinel.Selection.{
  candidate_order, candidate_less, sort_candidate_masters, keeper_master_priority, xlog_less,
}

candidate_order_asymm :
    (xa xb : ℕ) (pa pb : ℤ) (ua ub : Text)
    → candidate_order xa xb pa pb ua ub ≡ true
    → candidate_order xb xa pb pa ub ua ≡ false
unfolding candidate_order
candidate_order_asymm xa xb pa pb ua ub h = ground (arith, text_lt_asymm ua ub)

candidate_order_trans :
    (xa xb xc : ℕ) (pa pb pc : ℤ) (ua ub uc : Text)
    → candidate_order xb xa pb pa ub ua ≡ false
    → candidate_order xc xb pc pb uc ub ≡ false
    → candidate_order xc xa pc pa uc ua ≡ false
unfolding candidate_order
candidate_order_trans xa xb xc pa pb pc ua ub uc h k =
    ground (arith, text_lt_trans uc ua ub, text_lt_total ua ub)

pub candidate_less-IsWeakOrder : (cd : ClusterData) → IsWeakOrder (candidate_less cd)
unfolding candidate_less
candidate_less-IsWeakOrder cd =
    let pr = keeper_master_priority cd in
    record {
      asymm = λ a b h.
          candidate_order_asymm a.status.xlog_pos b.status.xlog_pos (pr a) (pr b) a.uid b.uid h;
      trans = λ a b c h k.
          candidate_order_trans a.status.xlog_pos b.status.xlog_pos c.status.xlog_pos (pr a) (pr b)
            (pr c) a.uid b.uid c.uid h k;
    }

pub xlog_less-IsWeakOrder : IsWeakOrder xlog_less
unfolding xlog_less
xlog_less-IsWeakOrder = record { asymm = λ a b h. ground arith; trans = λ a b c h k. ground arith }

order_xlog :
    (xa xb : ℕ) (pa pb : ℤ) (ua ub : Text) → candidate_order xb xa pb pa ub ua ≡ false → xa ≤ xb
unfolding candidate_order
order_xlog xa xb pa pb ua ub h = ground arith

-- A candidate that may stand before another is not ahead of it in the log.
pub xlog-le_of_order :
    (cd : ClusterData) (a b : Db)
    → candidate_less cd b a ≡ false
    → a.status.xlog_pos ≤ b.status.xlog_pos
unfolding candidate_less
xlog-le_of_order cd a b h =
    order_xlog a.status.xlog_pos b.status.xlog_pos (keeper_master_priority cd a)
      (keeper_master_priority cd b) a.uid b.uid h

-- `sortCandidateMasters` rearranges the candidates, and puts them in order: a lower log position
-- first, at equal positions the higher keeper priority first, then the lower uid.
pub sort_candidate_masters_lem :
    (cd : ClusterData) (candidates : List Db)
    → Perm (sort_candidate_masters cd candidates) candidates
      × IsSorted (candidate_less cd) (sort_candidate_masters cd candidates)
unfolding sort_candidate_masters
sort_candidate_masters_lem cd candidates = (
  sort_by-perm (candidate_less cd) candidates,
  sort_by-IsSorted (candidate_less-IsWeakOrder cd) candidates,
)
