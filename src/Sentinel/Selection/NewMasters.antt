-- ===== src/Sentinel/Selection/NewMasters.antt =====
-- The candidates of `findBestNewMasters`, and that the search does not panic.
use hysteron.Base.{
  text_eq_iff, lookup, values, true, false, some, ◌+◌, ◌≤◌, List, ◌++◌, ◌≡◌, ◌≢◌, ◌⊎◌, inl, inr,
  ◌↔◌, arith, Option-cases, Time, Member, Member-append, Member-of_filter, Member-filter,
  Member-of_sort_by, Member-sort_by, filter,
}
use hysteron.Cluster.Entities.{Db, Keeper}
use hysteron.Cluster.Document.{ClusterData, def_spec}
use hysteron.Sentinel.State.{Sentinel, ok}
use hysteron.Sentinel.Selection.{
  replica_line, primary_line, DbsByStatus, db_type, valid_dbs_by_status, is_near_master,
  is_lag_below_max, may_be_master, is_former_master, find_best_standbys, find_best_new_masters,
  sort_candidate_masters, sync_repl, xlog_less, xlog_sort, candidate_less,
}
use hysteron.Sentinel.Selection.Status.{IsGood, IsValid}
use hysteron.Sentinel.Selection.Candidates.{IsKeyed, good_dbs_iff}

-- On the master's timeline, and behind the master by no more than the maximal lag, which
-- synchronous replication does not look at.
pub record IsNear (cd : ClusterData) (master db : Db) : Type 0 where
  pub same_timeline : db.status.timeline_id ≡ master.status.timeline_id
  pub small_lag :
      (sync_repl (def_spec cd) ≡ true)
      ⊎ (master.status.xlog_pos ≤ db.status.xlog_pos + (def_spec cd).max_standby_lag)

pub is_near_master-IsNear :
    (cd : ClusterData) (master db : Db) → is_near_master cd master db ≡ true → IsNear cd master db
unfolding is_near_master is_lag_below_max
is_near_master-IsNear cd master db h = ground arith

pub IsNear-is_near_master :
    (cd : ClusterData) (master db : Db) → IsNear cd master db → is_near_master cd master db ≡ true
unfolding is_near_master is_lag_below_max
IsNear-is_near_master cd master db n = ground arith

-- No keeper of the document that holds the database refuses to be master.
abbrev pub IsAllowed : ClusterData → Db → Type 0
IsAllowed cd db =
    (k : Keeper)
    → lookup db.spec.keeper_uid cd.keepers ≡ some k
    → k.status.can_be_master ≢ some false

may_be_master-IsAllowed :
    (cd : ClusterData) (db : Db) → may_be_master cd db ≡ true → IsAllowed cd db
unfolding may_be_master
may_be_master-IsAllowed cd db h k e f = ground arith

IsAllowed-may_be_master :
    (cd : ClusterData) (db : Db) → IsAllowed cd db → may_be_master cd db ≡ true
unfolding may_be_master
IsAllowed-may_be_master cd db h = elim (Option-cases (lookup db.spec.keeper_uid cd.keepers)) [
  | inl e ↦ ground arith
  | inr (k, e) ↦ ground (arith, h k e)
]

-- A database that can take over: valid, of good status, near the master, and a replica whose
-- keeper may be master or a former master.
abbrev pub IsCandidate : ClusterData → Db → Db → Type 0
IsCandidate cd master db =
    Member db (values cd.dbs)
    × IsValid cd db
    × IsGood cd db
    × IsNear cd master db
    × (((db_type cd db.uid ≡ ok replica_line) × IsAllowed cd db)
        ⊎ ((db_type cd db.uid ≡ ok primary_line) × (db.uid ≢ master.uid)))

-- A successful search, step by step.
pub record Search (now : Time) (cd : ClusterData) (master : Db) (s : Sentinel) (cs : List Db)
    (s' : Sentinel) : Type 0 where
  pub middle : Sentinel
  pub standbys : DbsByStatus
  pub masters : DbsByStatus
  pub first : valid_dbs_by_status now cd replica_line s ≡ some (standbys, middle)
  pub second : valid_dbs_by_status now cd primary_line middle ≡ some (masters, s')
  pub result :
      cs
      ≡ sort_candidate_masters cd (
          filter
            (may_be_master cd)
            (xlog_sort (filter (is_near_master cd master) (values standbys.good_dbs)))
          ++ filter (is_former_master cd master) (values masters.good_dbs))

pub find_best_new_masters-Search :
    (now : Time) (cd : ClusterData) (master : Db) (s s' : Sentinel) (cs : List Db)
    → find_best_new_masters now cd master s ≡ some (cs, s')
    → Search now cd master s cs s'
unfolding find_best_new_masters find_best_standbys
find_best_new_masters-Search now cd master s s' cs e =
    elim (Option-cases (valid_dbs_by_status now cd replica_line s)) [
      | inl n ↦ ground arith
      | inr ((r1, s1), e1) ↦ elim (Option-cases (valid_dbs_by_status now cd primary_line s1)) [
        | inl n ↦ ground arith
        | inr ((r2, s2), e2) ↦ record {
          middle = s1;
          standbys = r1;
          masters = r2;
          first = e1;
          second = ground arith;
          result = ground arith;
        }
      ]
    ]

module _ (cd : ClusterData) (master : Db) where
  Member-of_sorted :
      (db : Db) (xs ys : List Db)
      → Member db (
          sort_candidate_masters cd (
            filter (may_be_master cd) (xlog_sort (filter (is_near_master cd master) xs))
            ++ filter (is_former_master cd master) ys))
      → (Member db xs × IsNear cd master db × IsAllowed cd db)
        ⊎ (Member db ys × IsNear cd master db × (db.uid ≢ master.uid))
  unfolding sort_candidate_masters xlog_sort
  Member-of_sorted db xs ys m =
      elim ((Member-append db _ _).0 (Member-of_sort_by (candidate_less cd) db _ m)) [
        | inl l ↦
            let (l1, allowed) = Member-of_filter (may_be_master cd) db _ l in
            let (l2, near) =
              Member-of_filter (is_near_master cd master) db xs
                (Member-of_sort_by xlog_less db _ l1) in
            inl (l2, is_near_master-IsNear cd master db near, may_be_master-IsAllowed cd db allowed)
        | inr r ↦
            let (r1, former) = Member-of_filter (is_former_master cd master) db ys r in
            inr (
              r1,
              is_near_master-IsNear cd master db (unfold is_former_master in ground arith),
              unfold is_former_master in ground (arith, text_eq_iff db.uid master.uid),
            )
      ]

  Member-sorted :
      (db : Db) (xs ys : List Db)
      → (Member db xs × IsNear cd master db × IsAllowed cd db)
        ⊎ (Member db ys × IsNear cd master db × (db.uid ≢ master.uid))
      → Member db (
          sort_candidate_masters cd (
            filter (may_be_master cd) (xlog_sort (filter (is_near_master cd master) xs))
            ++ filter (is_former_master cd master) ys))
  unfolding sort_candidate_masters xlog_sort
  Member-sorted db xs ys (inl (m, near, allowed)) = Member-sort_by (candidate_less cd) db _ (
      (Member-append db _ _).1 (
        inl (
          Member-filter (may_be_master cd) db _
            (Member-sort_by xlog_less db _ (
              Member-filter (is_near_master cd master) db xs m
                (IsNear-is_near_master cd master db near)))
            (IsAllowed-may_be_master cd db allowed))))
  Member-sorted db xs ys (inr (m, near, other)) =
      let near' = IsNear-is_near_master cd master db near in
      Member-sort_by (candidate_less cd) db _ (
        (Member-append db _ _).1 (
          inr (
            Member-filter (is_former_master cd master) db ys m
              (unfold is_former_master in ground (arith, text_eq_iff db.uid master.uid, near')))))

-- `findBestNewMasters` returns exactly the databases that can take over from the given master:
-- those of the document that are valid, of good status and near the master, and are a replica
-- whose keeper does not refuse, or a former master, if every database stands under its own uid.
pub find_best_new_masters_iff :
    (now : Time) (cd : ClusterData) (master : Db) (s s' : Sentinel) (cs : List Db)
    → IsKeyed cd
    → find_best_new_masters now cd master s ≡ some (cs, s')
    → (db : Db) → Member db cs ↔ IsCandidate cd master db
find_best_new_masters_iff now cd master s s' cs keyed e db =
    let f = find_best_new_masters-Search now cd master s s' cs e in
    let replicas = good_dbs_iff now cd replica_line s f.middle f.standbys keyed f.first db in
    let formers = good_dbs_iff now cd primary_line f.middle s' f.masters keyed f.second db in
    (
      λ m.
          elim (Member-of_sorted cd master db (values f.standbys.good_dbs)
            (values f.masters.good_dbs) (rw f.result at m)) [
              | inl (in_replicas, near, allowed) ↦
                  let q = replicas.0 in_replicas in (q.0, q.1.0, q.1.2, near, inl (q.1.1, allowed))
              | inr (in_formers, near, other) ↦
                  let q = formers.0 in_formers in (q.0, q.1.0, q.1.2, near, inr (q.1.1, other))
            ],
      λ (known, v, g, near, kind). rw f.result (
          Member-sorted cd master db (values f.standbys.good_dbs) (values f.masters.good_dbs)
            (elim kind [
              | inl (t, allowed) ↦ inl (replicas.1 (known, (v, t, g)), near, allowed)
              | inr (t, other) ↦ inr (formers.1 (known, (v, t, g)), near, other)
            ])),
    )
