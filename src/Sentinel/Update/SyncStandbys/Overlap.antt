-- ===== src/Sentinel/Update/SyncStandbys/Overlap.antt =====
-- What a round does to the synchronous standbys of the master, as a whole.
use hysteron.Base.{
  Member-sort_texts, Text, text_eq_iff, Map, lookup, lookup-insert, insert, Member-of_lookup, true,
  false, some, [], ◌≡◌, ◌≢◌, ◌⊎◌, inl, inr, arith, Member, sort_texts, sort_texts_of_perm, Time,
}
use hysteron.Cluster.Spec.{DefSpec}
use hysteron.Cluster.Entities.{Db}
use hysteron.Cluster.Document.{ClusterData}
use hysteron.Utils.Slices.Sets.{Member-common_elements, compare_string_slice_no_order_iff}
use hysteron.Sentinel.State.{Sentinel}
use hysteron.Sentinel.Selection.{replica_line}
use hysteron.Sentinel.Selection.Candidates.{IsKeyed, IsGoodOf}
use hysteron.Sentinel.Selection.NewMasters.{IsNear}
use hysteron.Sentinel.Update.SyncStandbys.{
  settled, await_in_sync, set_of, wanted_standbys, with_standbys, setup_standbys, refuses_sync,
}
use hysteron.Sentinel.Update.SyncStandbys.Merge.{Within, Member-set_of}
use hysteron.Sentinel.Update.SyncStandbys.Wanted.{wanted_standbys_sound, wanted_standbys-Merged}
use hysteron.Sentinel.Update.SyncStandbys.Await.{
  required, known, await_in_sync-Within, awaited_document, best_standby-Good, setup_standbys-Setup,
}

-- The required and known standbys of an agreed record have the same members.
settled-Member :
    (db : Db) (u : Text) → settled db ≡ true → Member u (known db) → Member u (required db)
unfolding settled
settled-Member db u h m =
    let perm = (compare_string_slice_no_order_iff (known db) (required db)).0 h in
    let sorted : Member u (sort_texts (known db)) = (Member-sort_texts u (known db)).1 m in
    (Member-sort_texts u (required db)).0
      (rw (← sort_texts_of_perm (known db) (required db) perm) sorted)

module _ (now : Time) (spec : DefSpec) (cd : ClusterData) (good : Map Db) (master_uid : Text)
    (cur_master master : Db) (s s' : Sentinel) (m' : Db)
    (run : setup_standbys now spec cd good master_uid cur_master master s ≡ some (m', s')) where
  -- A round adds no synchronous standby, or keeps every one that is in sync and still in the
  -- document, both as a required one and as one that is known to be in sync.
  pub setup_standbys-Overlap :
      Within (required m') (required master)
      ⊎ ((u k : Text) (db : Db)
          → Member u (known (await_in_sync cd good master))
          → lookup k cd.dbs ≡ some db
          → k ≢ master_uid
          → db.uid ≡ u
          → Member u (required m') × Member u (known m'))
  unfolding with_standbys
  setup_standbys-Overlap =
      elim (setup_standbys-Setup now spec cd good master_uid cur_master master s s' m' run) [
        | inl (_, same) ↦ inl (rw same (await_in_sync-Within cd good master))
        | inr p ↦
            let awaited = await_in_sync cd good master in
            let dbs = insert master_uid awaited cd.dbs in
            let prev = set_of (required awaited) [] in
            let wanted = wanted_standbys spec (record cd { dbs = dbs }) good p.best prev in
            elim (wanted_standbys-Merged spec (record cd { dbs = dbs }) good p.best prev) [
              | inl within ↦ inl (
                  rw (← p.result) (λ u m.
                    let m1 = within u ((Member-sort_texts u wanted).0 m) in
                    elim ((Member-set_of (required awaited) [] u).0 m1) [
                      | inl bad ↦ absurd bad
                      | inr r ↦ await_in_sync-Within cd good master u r
                    ]))
              | inr all ↦ inr (λ u k db in_sync_now found other e.
                  let there : lookup k dbs ≡ some db =
                    ground (
                      arith,
                      lookup-insert master_uid k awaited cd.dbs,
                      text_eq_iff master_uid k,
                    ) in
                  let kept =
                    all u
                      ((Member-set_of (required awaited) [] u).1
                        (inr (settled-Member awaited u p.agreed in_sync_now)))
                      (db, Member-of_lookup k dbs there, e) in
                  rw (← p.result) (
                    (Member-sort_texts u wanted).1 kept,
                    (Member-common_elements (known awaited) wanted u).1 (in_sync_now, kept),
                  ))
            ]
      ]

  -- A standby that a round adds to the required ones is a good, valid replica on the timeline of
  -- the master and near it, whose keeper does not refuse to be synchronous, if every database
  -- stands under its own uid.
  pub setup_standbys_sound :
      IsKeyed (awaited_document cd good master_uid master)
      → (u : Text) → Member u (required m')
      → Member u (required master)
        ⊎ ((db : Db) × (db.uid ≡ u)
            × IsGoodOf (awaited_document cd good master_uid master) replica_line db
            × IsNear (awaited_document cd good master_uid master) cur_master db
            × (refuses_sync (awaited_document cd good master_uid master) u ≡ false))
  unfolding with_standbys
  setup_standbys_sound keyed u m =
      elim (setup_standbys-Setup now spec cd good master_uid cur_master master s s' m' run) [
        | inl (_, same) ↦ inl (await_in_sync-Within cd good master u (rw same at m))
        | inr p ↦
            let awaited = await_in_sync cd good master in
            let doc = awaited_document cd good master_uid master in
            let prev = set_of (required awaited) [] in
            let wanted = wanted_standbys spec doc good p.best prev in
            let sorted : Member u (sort_texts wanted) = rw (← p.result) at m in
            elim (wanted_standbys_sound spec doc good p.best prev u
              ((Member-sort_texts u wanted).0 sorted)) [
                | inr ((db, md, e), willing) ↦
                    let (is_good, near) =
                      best_standby-Good now doc cur_master s s' p.best keyed p.found db md in
                    inr (db, e, is_good, near, willing)
                | inl before ↦ elim ((Member-set_of (required awaited) [] u).0 before) [
                  | inl bad ↦ absurd bad
                  | inr r ↦ inl (await_in_sync-Within cd good master u r)
                ]
              ]
      ]
