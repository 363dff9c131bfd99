-- ===== src/Sentinel/Selection/Total.antt =====
-- The search for a new master does not panic.
use hysteron.Base.{
  lookup, values, Option, some, none, List, [], ◌∷◌, ◌≡◌, refl, inl, inr, arith, Option-cases,
  Bool-cases, Time, All, All-Member, All-of_Member, filter, ◌++◌,
}
use hysteron.Cluster.Entities.{Db, Keeper}
use hysteron.Cluster.Document.{ClusterData}
use hysteron.Sentinel.State.{Sentinel, Result, ok, err}
use hysteron.Sentinel.Selection.{
  DbType, replica_line, primary_line, DbStatusClass, DbsByStatus, db_status, classify_db,
  classify_dbs, is_wanted, file_result, no_dbs, valid_dbs_by_status, find_best_standbys,
  find_best_new_masters, sort_candidate_masters, may_be_master, xlog_sort, is_near_master,
  is_former_master,
}
use hysteron.Sentinel.Selection.Candidates.{IsKeyed, HasKeepers}

abbrev Runs : {A : Type 0} → Option A → Type 0
Runs {A} o = (a : A) × (o ≡ some a)

abbrev Served : ClusterData → Db → Type 0
Served cd db =
    (lookup db.uid cd.dbs ≡ some db)
    × ((k : Keeper) × (lookup db.spec.keeper_uid cd.keepers ≡ some k))

module _ (now : Time) (cd : ClusterData) where
  db_status-Runs : (db : Db) (s : Sentinel) → Served cd db → Runs (db_status now cd db.uid s)
  db_status-Runs db s (found, (k, known)) = elim (Option-cases (db_status now cd db.uid s)) [
    | inl n ↦ absurd (fails n)
    | inr r ↦ r
  ]
    where
      fails : db_status now cd db.uid s ≡ none → ⊥
      fails n = unfold db_status in ground arith

  module _ (want : DbType) where
    classify_db-Runs :
        (db : Db) (r : DbsByStatus) (s : Sentinel)
        → Served cd db
        → Runs (classify_db now cd want db r s)
    unfolding classify_db
    classify_db-Runs db r s h = elim (Bool-cases (is_wanted cd want db.uid)) [
      | inr e ↦ rw (e, classify_db) ((r, s), refl)
      | inl e ↦ rw (e, classify_db) (files (db_status now cd db.uid s) (db_status-Runs db s h))
    ]
      where
        files : (o : Option (Result DbStatusClass × Sentinel)) → Runs o → Runs (file_result db r o)
        files none (a, e) = absurd (cc e)
        files (some (err x, s2)) q = unfold file_result in (_, refl)
        files (some (ok c, s2)) q = unfold file_result in (_, refl)

    classify_dbs-Runs :
        (dbs : List Db) (r : DbsByStatus) (s : Sentinel)
        → All (Served cd) dbs
        → Runs (classify_dbs now cd want dbs r s)
    unfolding classify_dbs
    classify_dbs-Runs [] r s h = ((r, s), refl)
    classify_dbs-Runs (db ∷ dbs) r s (hd, h) =
        let ((r1, s1), e) = classify_db-Runs db r s hd in
        rw (e, classify_dbs) (classify_dbs-Runs dbs r1 s1 h)

    valid_dbs_by_status-Runs :
        (s : Sentinel) → All (Served cd) (values cd.dbs) → Runs (valid_dbs_by_status now cd want s)
    unfolding valid_dbs_by_status
    valid_dbs_by_status-Runs s h = classify_dbs-Runs (values cd.dbs) no_dbs s h

  served : IsKeyed cd → HasKeepers cd → All (Served cd) (values cd.dbs)
  served keyed kept =
      All-of_Member (Served cd) (values cd.dbs)
        (λ db m. (All-Member _ (values cd.dbs) keyed db m, All-Member _ (values cd.dbs) kept db m))

search-Runs :
    (now : Time) (cd : ClusterData) (master : Db) (s : Sentinel)
    → All (Served cd) (values cd.dbs)
    → Runs (find_best_new_masters now cd master s)
unfolding find_best_new_masters find_best_standbys
search-Runs now cd master s h =
    let ((r1, s1), e1) = valid_dbs_by_status-Runs now cd replica_line s h in
    let ((r2, s2), e2) = valid_dbs_by_status-Runs now cd primary_line s1 h in
    (
      (
        sort_candidate_masters cd (
            filter (may_be_master cd)
              (xlog_sort (filter (is_near_master cd master) (values r1.good_dbs)))
            ++ filter (is_former_master cd master) (values r2.good_dbs)),
        s2,
      ),
      ground arith,
    )

-- `findBestNewMasters` returns a list of candidates, whatever the sentinel remembers, if every
-- database stands under its own uid and is assigned to a keeper of the document: no pointer that
-- it follows is nil.
pub find_best_new_masters_total :
    (now : Time) (cd : ClusterData) (master : Db) (s : Sentinel)
    → IsKeyed cd
    → HasKeepers cd
    → (cs : List Db) × (s' : Sentinel) × (find_best_new_masters now cd master s ≡ some (cs, s'))
find_best_new_masters_total now cd master s keyed kept =
    let ((cs, s'), e) = search-Runs now cd master s (served now cd keyed kept) in (cs, s', e)
