-- ===== src/Sentinel/Update/SyncStandbys/Await.antt =====
-- Waiting for required standbys to be in sync, and the steps of a round.
use hysteron.Base.{
  Member-sort_texts, Text, Map, insert, values, true, false, some, List, [], ◌≡◌, ◌⊎◌, inl, inr,
  ◌↔◌, arith, Bool-cases, Option-cases, Member, Member-append, elems, sort_texts, Time,
  Member-of_sort_by, Member-sort_by, Member-of_filter, Member-filter, sort_by, filter,
}
use hysteron.Cluster.Spec.{DefSpec}
use hysteron.Cluster.Entities.{Db}
use hysteron.Cluster.Document.{ClusterData}
use hysteron.Utils.Slices.{contains, difference, common_elements}
use hysteron.Utils.Slices.Sets.{contains_iff, Member-common_elements, Member-difference}
use hysteron.Sentinel.State.{Sentinel}
use hysteron.Sentinel.Selection.{
  find_best_standbys, valid_dbs_by_status, is_near_master, xlog_less, xlog_sort, replica_line,
}
use hysteron.Sentinel.Selection.Candidates.{IsKeyed, IsGoodOf, good_dbs_iff}
use hysteron.Sentinel.Selection.NewMasters.{IsNear, is_near_master-IsNear, IsNear-is_near_master}
use hysteron.Sentinel.Update.SyncStandbys.{
  in_sync, some_unusable, settled, await_in_sync, set_of, wanted_standbys, with_standbys,
  setup_standbys,
}
use hysteron.Sentinel.Update.SyncStandbys.Merge.{Within}
use hysteron.Sentinel.Update.SyncStandbys.Wanted.{}

-- The standbys that a record requires, and those that it knows to be in sync.
abbrev pub required : Db → List Text
required db = elems db.spec.synchronous_standbys

abbrev pub known : Db → List Text
known db = elems db.status.synchronous_standbys

-- A standby in sync is a required one that the master reported before or reports now.
pub Member-in_sync :
    (master : Db) (u : Text)
    → Member u (in_sync master) ↔ (
        Member u (required master)
        × (Member u (known master) ⊎ Member u (elems master.status.cur_synchronous_standbys)))
unfolding in_sync
Member-in_sync master u =
    let r = required master in
    let k = common_elements (known master) r in
    let reported = elems master.status.cur_synchronous_standbys in
    let new = common_elements reported r in
    let in_k = Member-common_elements (known master) r u in
    let in_new = Member-common_elements reported r u in
    (
      λ m. elim ((Member-append u k (difference new k)).0 m) [
        | inl old ↦ ((in_k.0 old).1, inl (in_k.0 old).0)
        | inr d ↦ let n = in_new.0 ((Member-difference new k u).0 d).0 in (n.1, inr n.0)
      ],
      λ (m, known_or_reported).
          (Member-append u k (difference new k)).1 (elim (Bool-cases (contains k u)) [
            | inl held ↦ inl ((contains_iff k u).0 held)
            | inr missing ↦ elim known_or_reported [
              | inl kn ↦ inl (in_k.1 (kn, m))
              | inr rep ↦ inr (
                  (Member-difference new k u).1
                    (in_new.1 (rep, m), λ in_old. ground (arith, contains_iff k u)))
            ]
          ]),
    )

-- Waiting never requires a standby that was not required.
pub await_in_sync-Within :
    (cd : ClusterData) (good : Map Db) (master : Db)
    → Within (required (await_in_sync cd good master)) (required master)
unfolding await_in_sync
await_in_sync-Within cd good master u m = elim (Bool-cases (settled master)) [
  | inl e ↦ ground arith
  | inr e ↦
      elim (Bool-cases (
        some_unusable cd good
          (difference (elems master.spec.synchronous_standbys) (in_sync master)))) [
            | inl b ↦
                let sorted : Member u (sort_texts (in_sync master)) =
                  rw (e, b, await_in_sync) at m in
                ((Member-in_sync master u).0 ((Member-sort_texts u (in_sync master)).0 sorted)).0
            | inr b ↦ rw (e, b, await_in_sync) at m
          ]
]

-- The document with the master's record after the wait.
abbrev pub awaited_document : ClusterData → Map Db → Text → Db → ClusterData
awaited_document cd good master_uid master = record cd {
  dbs = insert master_uid (await_in_sync cd good master) cd.dbs;
}

-- A best standby is a good one that is near the master.
pub best_standby-Good :
    (now : Time) (cd : ClusterData) (master : Db) (s s' : Sentinel) (best : List Db)
    → IsKeyed cd
    → find_best_standbys now cd master s ≡ some (best, s')
    → (db : Db) → Member db best
    → IsGoodOf cd replica_line db × IsNear cd master db
unfolding find_best_standbys xlog_sort
best_standby-Good now cd master s s' best keyed h db m =
    elim (Option-cases (valid_dbs_by_status now cd replica_line s)) [
      | inl n ↦ ground arith
      | inr ((r, s1), e) ↦
          let near_ones = filter (is_near_master cd master) (values r.good_dbs) in
          let same : sort_by xlog_less near_ones ≡ best = ground arith in
          let (inside, near) =
            Member-of_filter (is_near_master cd master) db (values r.good_dbs)
              (Member-of_sort_by xlog_less db near_ones (rw (← same) at m)) in
          (
            ((good_dbs_iff now cd replica_line s s1 r keyed e db).0 inside).1,
            is_near_master-IsNear cd master db near,
          )
    ]

-- Every good one that is near the master is among the best standbys.
pub Good-best_standby :
    (now : Time) (cd : ClusterData) (master : Db) (s s' : Sentinel) (best : List Db)
    → IsKeyed cd
    → find_best_standbys now cd master s ≡ some (best, s')
    → (db : Db) → Member db (values cd.dbs)
    → IsGoodOf cd replica_line db
    → IsNear cd master db
    → Member db best
unfolding find_best_standbys xlog_sort
Good-best_standby now cd master s s' best keyed h db m is_good near =
    elim (Option-cases (valid_dbs_by_status now cd replica_line s)) [
      | inl n ↦ ground arith
      | inr ((r, s1), e) ↦
          let near_ones = filter (is_near_master cd master) (values r.good_dbs) in
          let same : sort_by xlog_less near_ones ≡ best = ground arith in
          let inside = (good_dbs_iff now cd replica_line s s1 r keyed e db).1 (m, is_good) in
          let kept =
            Member-filter (is_near_master cd master) db (values r.good_dbs) inside
              (IsNear-is_near_master cd master db near) in
          rw (← same) (Member-sort_by xlog_less db near_ones kept)
    ]

-- A successful round, step by step.
pub record Setup (now : Time) (spec : DefSpec) (cd : ClusterData) (good : Map Db)
    (master_uid : Text) (cur_master master : Db) (s s' : Sentinel) (m' : Db) : Type 0 where
  pub best : List Db
  pub agreed : settled (await_in_sync cd good master) ≡ true
  pub found :
      find_best_standbys now
        (record cd { dbs = insert master_uid (await_in_sync cd good master) cd.dbs })
        cur_master
        s
      ≡ some (best, s')
  pub result :
      with_standbys spec
        (wanted_standbys spec
          (record cd { dbs = insert master_uid (await_in_sync cd good master) cd.dbs })
          good
          best
          (set_of (required (await_in_sync cd good master)) []))
        (await_in_sync cd good master)
      ≡ m'

pub setup_standbys-Setup :
    (now : Time) (spec : DefSpec) (cd : ClusterData) (good : Map Db) (master_uid : Text)
    (cur_master master : Db) (s s' : Sentinel) (m' : Db)
    → setup_standbys now spec cd good master_uid cur_master master s ≡ some (m', s')
    → ((settled (await_in_sync cd good master) ≡ false) × (m' ≡ await_in_sync cd good master))
      ⊎ Setup now spec cd good master_uid cur_master master s s' m'
unfolding setup_standbys
setup_standbys-Setup now spec cd good master_uid cur_master master s s' m' h =
    let awaited = await_in_sync cd good master in
    elim (Bool-cases (settled awaited)) [
      | inr waiting ↦ inl (waiting, ground arith)
      | inl agreed ↦
          elim (Option-cases (
            find_best_standbys now (record cd { dbs = insert master_uid awaited cd.dbs }) cur_master
              s)) [
                | inl n ↦ ground arith
                | inr ((best, s1), f) ↦
                    let same : s1 ≡ s' = ground arith in
                    inr (record {
                      best = best;
                      agreed = agreed;
                      found = rw (← same) f;
                      result = ground arith;
                    })
              ]
    ]
