-- ===== src/Sentinel/Update/SyncStandbys/Best.antt =====
-- The loop of cluster_update.go that adds good standbys takes all that there are, up to the maximum.
use hysteron.Base.{
  Text, false, ℕ, ◌+◌, ◌≤◌, List, [], ◌∷◌, ◌≡◌, sym, ap, ◌∙◌, ◌⊎◌, inl, inr, arith, Bool-cases,
  Member, Member-append, length, ◌==◌, ==_iff,
}
use hysteron.Cluster.Entities.{Db}
use hysteron.Cluster.Document.{ClusterData}
use hysteron.Utils.Slices.Sets.{contains_iff}
use hysteron.Sentinel.Update.SyncStandbys.{refuses_sync, offer_best, add_best}
use hysteron.Sentinel.Update.SyncStandbys.Merge.{Within, Named, length_snoc}

module _ (cd : ClusterData) where
  offer_best-grows :
      (left : ℕ) (set : List Text) (uid : Text) → Within set (offer_best cd left set uid).1
  unfolding offer_best
  offer_best-grows left set uid u m = ground (arith, Member-append u set (uid ∷ []))

  add_best-grows :
      (left : ℕ) (dbs : List Db) (set : List Text) → Within set (add_best cd left dbs set)
  unfolding add_best
  add_best-grows left [] set u m = m
  add_best-grows left (db ∷ dbs) set u m =
      let (left', set') = offer_best cd left set db.uid in
      add_best-grows left' dbs set' u (offer_best-grows left set db.uid u m)

  offer_best-sum :
      (left : ℕ) (set : List Text) (uid : Text)
      → let (left', set') = offer_best cd left set uid in length set' + left' ≡ length set + left
  unfolding offer_best
  offer_best-sum left set uid = ground (arith, length_snoc set uid)

  offer_best-takes :
      (left : ℕ) (set : List Text) (uid : Text)
      → refuses_sync cd uid ≡ false
      → (left ≡ 0) ⊎ Member uid (offer_best cd left set uid).1
  unfolding offer_best
  offer_best-takes left set uid willing =
      ground (arith, contains_iff set uid, Member-append uid set (uid ∷ []), ==_iff left 0)

  offer_best-longer :
      (left : ℕ) (set : List Text) (uid : Text) → length set ≤ length (offer_best cd left set uid).1
  unfolding offer_best
  offer_best-longer left set uid = ground (arith, length_snoc set uid)

  add_best-longer :
      (left : ℕ) (dbs : List Db) (set : List Text) → length set ≤ length (add_best cd left dbs set)
  unfolding add_best
  add_best-longer left [] set = omega arith
  add_best-longer left (db ∷ dbs) set =
      let (left', set') = offer_best cd left set db.uid in
      omega (arith, offer_best-longer left set db.uid, add_best-longer left' dbs set')

  -- The loop fills up the places that are left, or takes every standby that does not refuse.
  pub add_best-enough :
      (left : ℕ) (dbs : List Db) (set : List Text)
      → (length set + left ≤ length (add_best cd left dbs set))
        ⊎ ((u : Text)
            → Named dbs u
            → refuses_sync cd u ≡ false
            → Member u (add_best cd left dbs set))
  unfolding add_best
  add_best-enough left [] set = inr (λ u (db, md, e) w. absurd md)
  add_best-enough left (db ∷ dbs) set =
      let (left', set') = offer_best cd left set db.uid in
      elim (add_best-enough left' dbs set') [
        | inl enough ↦ inl (omega (arith, offer_best-sum left set db.uid))
        | inr all ↦ elim (Bool-cases (left == 0)) [
          | inl none_left ↦
              let zero_left : left ≡ 0 = (==_iff left 0).0 none_left in
              inl (omega (arith, offer_best-longer left set db.uid, add_best-longer left' dbs set'))
          | inr some_left ↦ inr (λ u (d, md, e) willing. elim md [
            | inr later ↦ all u (d, later, e) willing
            | inl here ↦
                let same : db.uid ≡ u = ap (λ (x : Db). x.uid) (sym here) ∙ e in
                elim (offer_best-takes left set db.uid (rw same willing)) [
                  | inl zero_left ↦ absurd (ground (arith, ==_iff left 0))
                  | inr taken ↦ rw (← same) (add_best-grows left' dbs set' db.uid taken)
                ]
          ])
        ]
      ]
