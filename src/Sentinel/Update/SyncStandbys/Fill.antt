-- ===== src/Sentinel/Update/SyncStandbys/Fill.antt =====
-- Filling up the standbys with good ones, and with previous ones for the minimum.
use hysteron.Base.{
  Text, false, ℕ, ◌+◌, ◌≤◌, List, [], ◌∷◌, ◌≡◌, refl, sym, ap, ◌∙◌, ◌⊎◌, inl, inr, arith,
  Bool-cases, Member, Member-append, length, ◌==◌, ==_iff,
}
use hysteron.Cluster.Entities.{Db}
use hysteron.Cluster.Document.{ClusterData}
use hysteron.Utils.Slices.Sets.{contains_iff}
use hysteron.Sentinel.Update.SyncStandbys.{
  refuses_sync, offer_best, add_best, offer_previous, add_previous,
}
use hysteron.Sentinel.Update.SyncStandbys.Merge.{Within, Named, length_snoc}

offer_previous-grows :
    (prev : List Text) (left : ℕ) (set : List Text) (uid : Text)
    → Within set (offer_previous prev left set uid).1
unfolding offer_previous
offer_previous-grows prev left set uid u m = ground (arith, Member-append u set (uid ∷ []))

pub add_previous-grows :
    (prev : List Text) (left : ℕ) (dbs : List Db) (set : List Text)
    → Within set (add_previous prev left dbs set)
unfolding add_previous
add_previous-grows prev left [] set u m = m
add_previous-grows prev left (db ∷ dbs) set u m =
    let (left', set') = offer_previous prev left set db.uid in
    add_previous-grows prev left' dbs set' u (offer_previous-grows prev left set db.uid u m)

-- After the offer, what is left and the size of the set sum up as before.
offer_previous-sum :
    (prev : List Text) (left : ℕ) (set : List Text) (uid : Text)
    → let (left', set') = offer_previous prev left set uid in
      length set' + left' ≡ length set + left
unfolding offer_previous
offer_previous-sum prev left set uid = ground (arith, length_snoc set uid)

offer_previous-takes :
    (prev : List Text) (left : ℕ) (set : List Text) (uid : Text)
    → Member uid prev
    → (left ≡ 0) ⊎ Member uid (offer_previous prev left set uid).1
unfolding offer_previous
offer_previous-takes prev left set uid m = ground (
  arith,
  contains_iff prev uid,
  contains_iff set uid,
  Member-append uid set (uid ∷ []),
  ==_iff left 0,
)

offer_previous-longer :
    (prev : List Text) (left : ℕ) (set : List Text) (uid : Text)
    → length set ≤ length (offer_previous prev left set uid).1
unfolding offer_previous
offer_previous-longer prev left set uid = ground (arith, length_snoc set uid)

pub add_previous-longer :
    (prev : List Text) (left : ℕ) (dbs : List Db) (set : List Text)
    → length set ≤ length (add_previous prev left dbs set)
unfolding add_previous
add_previous-longer prev left [] set = omega arith
add_previous-longer prev left (db ∷ dbs) set =
    let (left', set') = offer_previous prev left set db.uid in
    omega
      (arith, offer_previous-longer prev left set db.uid, add_previous-longer prev left' dbs set')

-- The loop for the minimum fills up to it, or takes every previous standby that is still there.
pub add_previous-enough :
    (prev : List Text) (left : ℕ) (dbs : List Db) (set : List Text)
    → (length set + left ≤ length (add_previous prev left dbs set))
      ⊎ ((u : Text) → Member u prev → Named dbs u → Member u (add_previous prev left dbs set))
unfolding add_previous
add_previous-enough prev left [] set = inr (λ u m (db, md, e). absurd md)
add_previous-enough prev left (db ∷ dbs) set =
    let (left', set') = offer_previous prev left set db.uid in
    elim (add_previous-enough prev left' dbs set') [
      | inl enough ↦ inl (omega (arith, offer_previous-sum prev left set db.uid))
      | inr all ↦ elim (Bool-cases (left == 0)) [
        | inl none_left ↦
            let zero_left : left ≡ 0 = (==_iff left 0).0 none_left in
            inl (
              omega (
                arith,
                offer_previous-longer prev left set db.uid,
                add_previous-longer prev left' dbs set',
              ))
        | inr some_left ↦ inr (λ u m (d, md, e). elim md [
          | inr later ↦ all u m (d, later, e)
          | inl here ↦
              let same : db.uid ≡ u = ap (λ (x : Db). x.uid) (sym here) ∙ e in
              elim (offer_previous-takes prev left set db.uid (rw same m)) [
                | inl zero_left ↦ absurd (ground (arith, ==_iff left 0))
                | inr taken ↦ rw (← same) (add_previous-grows prev left' dbs set' db.uid taken)
              ]
        ])
      ]
    ]

offer_best_sound :
    (cd : ClusterData) (left : ℕ) (set : List Text) (uid u : Text)
    → Member u (offer_best cd left set uid).1
    → Member u set ⊎ ((u ≡ uid) × (refuses_sync cd uid ≡ false))
unfolding offer_best
offer_best_sound cd left set uid u m = ground (arith, Member-append u set (uid ∷ []))

-- What the good standbys add does not refuse.
pub add_best_sound :
    (cd : ClusterData) (left : ℕ) (dbs : List Db) (set : List Text) (u : Text)
    → Member u (add_best cd left dbs set)
    → Member u set ⊎ (Named dbs u × (refuses_sync cd u ≡ false))
unfolding add_best
add_best_sound cd left [] set u m = inl m
add_best_sound cd left (db ∷ dbs) set u m =
    let (left', set') = offer_best cd left set db.uid in
    elim (add_best_sound cd left' dbs set' u m) [
      | inr ((d, md, e), willing) ↦ inr ((d, inr md, e), willing)
      | inl old ↦ elim (offer_best_sound cd left set db.uid u old) [
        | inl before ↦ inl before
        | inr (e, willing) ↦ inr ((db, inl refl, sym e), rw e willing)
      ]
    ]

offer_previous_sound :
    (prev : List Text) (left : ℕ) (set : List Text) (uid u : Text)
    → Member u (offer_previous prev left set uid).1
    → Member u set ⊎ Member u prev
unfolding offer_previous
offer_previous_sound prev left set uid u m =
    ground (arith, contains_iff prev uid, Member-append u set (uid ∷ []))

pub add_previous_sound :
    (prev : List Text) (left : ℕ) (dbs : List Db) (set : List Text) (u : Text)
    → Member u (add_previous prev left dbs set)
    → Member u set ⊎ Member u prev
unfolding add_previous
add_previous_sound prev left [] set u m = inl m
add_previous_sound prev left (db ∷ dbs) set u m =
    let (left', set') = offer_previous prev left set db.uid in
    elim (add_previous_sound prev left' dbs set' u m) [
      | inr p ↦ inr p
      | inl old ↦ offer_previous_sound prev left set db.uid u old
    ]
