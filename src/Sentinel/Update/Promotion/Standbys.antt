-- ===== src/Sentinel/Update/Promotion/Standbys.antt =====
-- The synchronous standbys that a new master waits for.
use hysteron.Base.{
  Member-sort_texts, Text, text_eq, text_eq_iff, text_eq_refl, lookup, insert, lookup-insert, true,
  Option, some, ◌<◌, List, [], ◌∷◌, ◌≡◌, ◌≢◌, refl, ap, ◌⊎◌, inl, inr, ◌↔◌, arith, Bool-cases,
  Member, elems,
}
use hysteron.Cluster.Enums.{Role}
use hysteron.Cluster.Settings.{FollowConfig}
use hysteron.Cluster.Spec.{DefSpec}
use hysteron.Cluster.Entities.{Db}
use hysteron.Cluster.Document.{ClusterData}
use hysteron.Sentinel.Selection.{sync_repl}
use hysteron.Sentinel.Update.Promotion.{
  is_empty, without_followers, crowned, with_master, promote, swap_standbys, placeholder,
  take_over_standbys, fake_standby_name,
}
use hysteron.Sentinel.Update.Promotion.Routing.{promote-Promoted}

-- The new master's standbys are the old master's, with the old master in the new one's place.
Member-swap_standbys :
    (new_uid old_uid u : Text) (uids : List Text)
    → Member u (swap_standbys new_uid old_uid uids)
      ↔ ((Member u uids × (u ≢ new_uid)) ⊎ ((u ≡ old_uid) × Member new_uid uids))
unfolding swap_standbys
Member-swap_standbys new_uid old_uid u [] = ground arith
Member-swap_standbys new_uid old_uid u (v ∷ uids) = elim (Bool-cases (text_eq v new_uid)) [
  | inl e ↦
      let same : v ≡ new_uid = (text_eq_iff v new_uid).0 e in
      ground (arith, Member-swap_standbys new_uid old_uid u uids)
  | inr e ↦ ground (arith, text_eq_iff v new_uid, Member-swap_standbys new_uid old_uid u uids)
]

-- What a new master waits for, against the standbys of the old one.
pub record TakesOver (spec : DefSpec) (old new new' : Db) : Type 0 where
  pub standbys :
      (u : Text)
      → Member u (elems new'.spec.synchronous_standbys) ↔ (
          (Member u (elems old.spec.synchronous_standbys) × (u ≢ new.uid))
          ⊎ ((u ≡ old.uid) × Member new.uid (elems old.spec.synchronous_standbys)))
  pub synchronous : new'.spec.synchronous_replication ≡ true
  pub blocking :
      0 < spec.min_synchronous_standbys
      → ((u : Text) × Member u (elems new'.spec.synchronous_standbys))
        ⊎ (new'.spec.external_synchronous_standbys ≡ some (fake_standby_name ∷ []))

placeholder_lem :
    (spec : DefSpec) (uids : List Text)
    → 0 < spec.min_synchronous_standbys
    → ((u : Text) × Member u uids) ⊎ (placeholder spec uids ≡ fake_standby_name ∷ [])
unfolding placeholder is_empty
placeholder_lem spec [] h = inr (ground arith)
placeholder_lem spec (u ∷ uids) h = inl (u, inl refl)

crowned-TakesOver :
    (spec : DefSpec) (role : Role) (follow : Option FollowConfig) (old new : Db)
    → sync_repl spec ≡ true
    → TakesOver spec old new (crowned spec role follow (without_followers old) new)
unfolding crowned take_over_standbys without_followers
crowned-TakesOver spec role follow old new sync = rw sync (record {
  standbys = λ u.
      let sorted = Member-sort_texts u swapped in
      let members = Member-swap_standbys new.uid old.uid u before in
      (λ m. members.0 (sorted.0 m), λ m. sorted.1 (members.1 m));
  synchronous = refl;
  blocking = λ positive. elim (placeholder_lem spec swapped positive) [
    | inl (u, m) ↦ inl (u, (Member-sort_texts u swapped).1 m)
    | inr fake ↦ inr (ap some fake)
  ];
})
  where
    before : List Text
    before = elems old.spec.synchronous_standbys

    swapped : List Text
    swapped = swap_standbys new.uid old.uid before

-- With synchronous replication, a promotion gives the new master a record that waits for the old
-- master's synchronous standbys, the old master standing in the place of the new one, and for a
-- standby that never answers if there is none and the cluster requires one.
pub promote-TakesOver :
    (spec : DefSpec) (old_uid new_uid : Text) (cd cd' : ClusterData) (old new : Db)
    → sync_repl spec ≡ true
    → lookup old_uid cd.dbs ≡ some old
    → lookup new_uid cd.dbs ≡ some new
    → old_uid ≢ new_uid
    → promote spec old_uid new_uid cd ≡ some cd'
    → (new' : Db) × (lookup new_uid cd'.dbs ≡ some new') × TakesOver spec old new new'
unfolding with_master
promote-TakesOver spec old_uid new_uid cd cd' old new sync eo en apart h =
    let p = promote-Promoted spec old_uid new_uid cd cd' h in
    let same_old : p.old ≡ old = ground (arith, p.old_found) in
    let dbs = insert old_uid (without_followers p.old) cd.dbs in
    let same_new : p.new ≡ new = ground (
      arith,
      p.new_found,
      lookup-insert old_uid new_uid (without_followers p.old) cd.dbs,
      text_eq_iff old_uid new_uid,
    ) in
    let new' = crowned spec p.role p.follow (without_followers p.old) p.new in
    (
      new',
      rw (← p.result)
          (ground (arith, lookup-insert new_uid new_uid new' dbs, text_eq_refl new_uid)),
      rw (← same_old, ← same_new) (crowned-TakesOver spec p.role p.follow p.old p.new sync),
    )
