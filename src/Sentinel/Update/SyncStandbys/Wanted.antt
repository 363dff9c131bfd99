-- ===== src/Sentinel/Update/SyncStandbys/Wanted.antt =====
-- The wanted set of synchronous standbys against the previous one.
use hysteron.Base.{
  Text, Map, has_key, values, false, ℕ, ◌-◌, ◌≤◌, List, ◌≡◌, ◌⊎◌, inl, inr, arith, Member,
  Member-of_filter, length, filter,
}
use hysteron.Cluster.Spec.{DefSpec}
use hysteron.Cluster.Entities.{Db}
use hysteron.Cluster.Document.{ClusterData}
use hysteron.Sentinel.Update.SyncStandbys.{
  kept_standbys, refuses_sync, add_best, add_previous, wanted_standbys,
}
use hysteron.Sentinel.Update.SyncStandbys.Merge.{
  Within, Named, Member-of_drop, merge_previous_sound, merge_previous-Merged, merge_previous-grows,
  merge_previous-longer,
}
use hysteron.Sentinel.Update.SyncStandbys.Fill.{
  add_previous-enough, add_previous_sound, add_best_sound, add_previous-grows, add_previous-longer,
}
use hysteron.Sentinel.Update.SyncStandbys.Best.{add_best-enough}

-- What is kept was there before.
kept_standbys_sound :
    (cd : ClusterData) (good : Map Db) (most : ℕ) (prev : List Text)
    → Within (kept_standbys cd good most prev) prev
unfolding kept_standbys
kept_standbys_sound cd good most prev u m =
    let existing = filter (λ (uid : Text). has_key uid cd.dbs) prev in
    let usable = filter (λ (uid : Text). has_key uid good) existing in
    let (inside, _) =
      Member-of_filter (λ uid. has_key uid good) u existing
        (Member-of_drop (length usable - most) usable u m) in
    (Member-of_filter (λ uid. has_key uid cd.dbs) u prev inside).0

module _ (spec : DefSpec) (cd : ClusterData) (good : Map Db) (best : List Db)
    (prev : List Text) where
  -- A wanted standby was one before, or is a good one whose keeper does not refuse.
  pub wanted_standbys_sound :
      (u : Text)
      → Member u (wanted_standbys spec cd good best prev)
      → Member u prev ⊎ (Named best u × (refuses_sync cd u ≡ false))
  unfolding wanted_standbys
  wanted_standbys_sound u m = elim (merge_previous_sound prev (values cd.dbs) _ u m) [
    | inr p ↦ inl p
    | inl e ↦ elim (add_previous_sound prev _ (values cd.dbs) _ u e) [
      | inr p ↦ inl p
      | inl f ↦ elim (add_best_sound cd _ best _ u f) [
        | inr new ↦ inr new
        | inl k ↦ inl (kept_standbys_sound cd good spec.max_synchronous_standbys prev u k)
      ]
    ]
  ]

  -- There is no new standby, or every previous one that is still there is wanted.
  pub wanted_standbys-Merged :
      Within (wanted_standbys spec cd good best prev) prev
      ⊎ ((u : Text)
          → Member u prev
          → Named (values cd.dbs) u
          → Member u (wanted_standbys spec cd good best prev))
  unfolding wanted_standbys
  wanted_standbys-Merged = merge_previous-Merged prev (values cd.dbs) _

  -- The minimum is reached, or every previous standby that is still there is wanted.
  pub wanted_standbys-enough :
      (spec.min_synchronous_standbys ≤ length (wanted_standbys spec cd good best prev))
      ⊎ ((u : Text)
          → Member u prev
          → Named (values cd.dbs) u
          → Member u (wanted_standbys spec cd good best prev))
  unfolding wanted_standbys
  wanted_standbys-enough =
      let kept = kept_standbys cd good spec.max_synchronous_standbys prev in
      let filled = add_best cd (spec.max_synchronous_standbys - length kept) best kept in
      let left = spec.min_synchronous_standbys - length filled in
      elim (add_previous-enough prev left (values cd.dbs) filled) [
        | inl e ↦ inl (
            omega (
              arith,
              merge_previous-longer prev (values cd.dbs)
                  (add_previous prev left (values cd.dbs) filled),
            ))
        | inr all ↦ inr (λ u m n. merge_previous-grows prev (values cd.dbs) _ u (all u m n))
      ]

  -- The maximum is reached, or every good standby whose keeper does not refuse is wanted.
  pub wanted_standbys-takes_best :
      (spec.max_synchronous_standbys ≤ length (wanted_standbys spec cd good best prev))
      ⊎ ((u : Text)
          → Named best u
          → refuses_sync cd u ≡ false
          → Member u (wanted_standbys spec cd good best prev))
  unfolding wanted_standbys
  wanted_standbys-takes_best =
      let kept = kept_standbys cd good spec.max_synchronous_standbys prev in
      let places = spec.max_synchronous_standbys - length kept in
      let filled = add_best cd places best kept in
      let left = spec.min_synchronous_standbys - length filled in
      let enough = add_previous prev left (values cd.dbs) filled in
      elim (add_best-enough cd places best kept) [
        | inl e ↦ inl (
            omega (
              arith,
              add_previous-longer prev left (values cd.dbs) filled,
              merge_previous-longer prev (values cd.dbs) enough,
            ))
        | inr all ↦ inr (λ u n willing.
            merge_previous-grows prev (values cd.dbs) enough u
              (add_previous-grows prev left (values cd.dbs) filled u (all u n willing)))
      ]
