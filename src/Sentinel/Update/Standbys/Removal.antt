-- ===== src/Sentinel/Update/Standbys/Removal.antt =====
-- Which standbys the removal of `updateCluster` in cluster_update.go leaves.
use hysteron.Base.{
  Text, text_eq_iff, Map, lookup, lookup-delete, has_key, delete, values, Bool, true, false, not,
  none, ℕ, zero, suc, ◌+◌, ◌-◌, ◌≤◌, List, [], ◌∷◌, ◌++◌, ◌≡◌, refl, ap, ◌∙◌, ◌⊎◌, inl, inr, arith,
  All, Bool-cases, if◌then◌else◌, filter, length, map,
}
use hysteron.Cluster.Entities.{Db}
use hysteron.Cluster.Document.{ClusterData, def_spec}
use hysteron.Utils.Slices.{contains}
use hysteron.Sentinel.Update.Decision.{delete_all}
use hysteron.Sentinel.Update.Standbys.{
  non_good_standbys, good_in_excess, standbys_to_remove, remove_standbys,
}

unfoldable pub uids_of : List Db → List Text
uids_of dbs = map (λ (db : Db). db.uid) dbs

lookup-delete_all :
    (ks : List Text) (m : Map Db) (uid : Text)
    → lookup uid (delete_all ks m) ≡ (if contains ks uid then none else lookup uid m)
unfolding delete_all contains
lookup-delete_all [] m uid = refl
lookup-delete_all (k ∷ ks) m uid = ground (
  arith,
  lookup-delete_all ks (delete k m) uid,
  lookup-delete k uid m,
  text_eq_iff k uid,
  text_eq_iff uid k,
)

contains-append :
    (xs ys : List Db) (uid : Text)
    → contains (uids_of (xs ++ ys)) uid
      ≡ (if contains (uids_of xs) uid then true else contains (uids_of ys) uid)
unfolding contains uids_of
contains-append [] ys uid = refl
contains-append (x ∷ xs) ys uid = ground (arith, contains-append xs ys uid)

-- A database is not among those that pass a test which keeps it out.
contains-filter :
    (p : Db → Bool) (uid : Text) (dbs : List Db)
    → ((db : Db) → db.uid ≡ uid → p db ≡ false)
    → contains (uids_of (filter p dbs)) uid ≡ false
unfolding contains filter uids_of
contains-filter p uid [] out = refl
contains-filter p uid (db ∷ dbs) out =
    let step = contains-filter p uid dbs out in
    elim (Bool-cases (p db)) [
      | inl yes_ ↦ ground (arith, out db, text_eq_iff uid db.uid)
      | inr no_ ↦ ground arith
    ]

-- The excess has no synchronous standby, and no other than of the good ones.
contains-good_in_excess_sync :
    (sync : List Text) (left : ℕ) (dbs : List Db) (uid : Text)
    → contains sync uid ≡ true
    → contains (uids_of (good_in_excess sync left dbs)) uid ≡ false
unfolding good_in_excess contains uids_of
contains-good_in_excess_sync sync left [] uid h = refl
contains-good_in_excess_sync sync zero (db ∷ dbs) uid h = refl
contains-good_in_excess_sync sync (suc left) (db ∷ dbs) uid h =
    let skip = contains-good_in_excess_sync sync (suc left) dbs uid h in
    let take = contains-good_in_excess_sync sync left dbs uid h in
    elim (Bool-cases (contains sync db.uid)) [
      | inl named ↦ rw named skip
      | inr free ↦ rw free (ground (arith, text_eq_iff uid db.uid))
    ]

contains-good_in_excess :
    (sync : List Text) (left : ℕ) (dbs : List Db) (uid : Text)
    → contains (uids_of dbs) uid ≡ false
    → contains (uids_of (good_in_excess sync left dbs)) uid ≡ false
unfolding good_in_excess contains uids_of
contains-good_in_excess sync left [] uid h = refl
contains-good_in_excess sync zero (db ∷ dbs) uid h = refl
contains-good_in_excess sync (suc left) (db ∷ dbs) uid h =
    let skip = contains-good_in_excess sync (suc left) dbs uid in
    let take = contains-good_in_excess sync left dbs uid in
    elim (Bool-cases (contains sync db.uid)) [
      | inl named ↦ rw named (ground arith)
      | inr free ↦ rw free (ground arith)
    ]

-- No two databases have one uid.
unfoldable pub Distinct : List Db → Type 0
Distinct [] = Unit
Distinct (db ∷ dbs) = (contains (uids_of dbs) db.uid ≡ false) × Distinct dbs

kept : List Text → List Db → List Db
kept removed dbs = filter (λ (db : Db). not (contains removed db.uid)) dbs

-- Naming another database as removed makes no difference.
kept-cons :
    (uid : Text) (removed : List Text) (dbs : List Db)
    → contains (uids_of dbs) uid ≡ false
    → kept (uid ∷ removed) dbs ≡ kept removed dbs
unfolding kept contains filter uids_of
kept-cons uid removed [] h = refl
kept-cons uid removed (db ∷ dbs) h =
    let step = kept-cons uid removed dbs in
    ground (arith, text_eq_iff uid db.uid, text_eq_iff db.uid uid)

kept-none : (dbs : List Db) → kept [] dbs ≡ dbs
unfolding kept contains filter
kept-none [] = refl
kept-none (db ∷ dbs) = ap (λ rest. db ∷ rest) (kept-none dbs)

kept-removed :
    (removed : List Text) (db : Db) (dbs : List Db)
    → contains removed db.uid ≡ true
    → kept removed (db ∷ dbs) ≡ kept removed dbs
unfolding kept filter
kept-removed removed db dbs h = rw h refl

kept-left :
    (removed : List Text) (db : Db) (dbs : List Db)
    → contains removed db.uid ≡ false
    → kept removed (db ∷ dbs) ≡ db ∷ kept removed dbs
unfolding kept filter
kept-left removed db dbs h = rw h refl

contains-own : (uid : Text) (removed : List Text) → contains (uid ∷ removed) uid ≡ true
unfolding contains
contains-own uid removed = ground (arith, text_eq_iff uid uid)

-- The uids of the excess.
excess : List Text → ℕ → List Db → List Text
excess sync left dbs = uids_of (good_in_excess sync left dbs)

excess-named :
    (sync : List Text) (left : ℕ) (db : Db) (dbs : List Db)
    → contains sync db.uid ≡ true
    → excess sync (suc left) (db ∷ dbs) ≡ excess sync (suc left) dbs
unfolding excess good_in_excess
excess-named sync left db dbs h = rw h refl

excess-free :
    (sync : List Text) (left : ℕ) (db : Db) (dbs : List Db)
    → contains sync db.uid ≡ false
    → excess sync (suc left) (db ∷ dbs) ≡ db.uid ∷ excess sync left dbs
unfolding excess good_in_excess uids_of
excess-free sync left db dbs h = rw h refl

excess-zero : (sync : List Text) (dbs : List Db) → excess sync 0 dbs ≡ []
unfolding excess good_in_excess uids_of
excess-zero sync [] = refl
excess-zero sync (db ∷ dbs) = refl

excess-nil : (sync : List Text) (left : ℕ) → excess sync left [] ≡ []
unfolding excess good_in_excess uids_of
excess-nil sync zero = refl
excess-nil sync (suc left) = refl

-- At most `left` are removed.
length-kept :
    (sync : List Text) (left : ℕ) (dbs : List Db)
    → Distinct dbs
    → length dbs ≤ left + length (kept (excess sync left dbs) dbs)
unfolding Distinct
length-kept sync left [] d = omega arith
length-kept sync zero (db ∷ dbs) d =
    rw (excess-zero sync (db ∷ dbs), kept-none (db ∷ dbs)) (omega arith)
length-kept sync (suc left) (db ∷ dbs) (out, d) = elim (Bool-cases (contains sync db.uid)) [
  | inl named ↦
      let step = length-kept sync (suc left) dbs d in
      let own : contains (excess sync (suc left) dbs) db.uid ≡ false =
        unfold excess in contains-good_in_excess sync (suc left) dbs db.uid out in
      rw (excess-named sync left db dbs named, kept-left _ db dbs own) (omega arith)
  | inr free ↦
      let step = length-kept sync left dbs d in
      let removed = excess sync left dbs in
      rw
        (
          excess-free sync left db dbs free,
          kept-removed _ db dbs (contains-own db.uid removed),
          kept-cons db.uid removed dbs out,
        )
        (omega arith)
]

-- The good standbys stand in the document and in their map under their own uids.
pub record IsFiled (cd : ClusterData) (good : Map Db) : Type 0 where
  pub distinct : Distinct (values good)
  pub filed : All (λ (db : Db). has_key db.uid good ≡ true) (values good)
  pub present : All (λ (db : Db). has_key db.uid cd.dbs ≡ true) (values good)

module _ (cd : ClusterData) (good : Map Db) (sync : List Text) where
  surplus : List Text
  surplus = excess sync (length good - (def_spec cd).max_standbys_per_sender) (values good)

  contains-standbys_to_remove :
      (uid : Text)
      → contains (uids_of (non_good_standbys cd good sync)) uid ≡ false
      → contains (standbys_to_remove cd good sync) uid ≡ contains surplus uid
  unfolding standbys_to_remove surplus excess uids_of
  contains-standbys_to_remove uid h =
      let whole =
        contains-append (non_good_standbys cd good sync)
          (good_in_excess sync (length good - (def_spec cd).max_standbys_per_sender) (values good))
          uid in
      ground arith

  -- A good standby is in no way a bad one, and a synchronous one is not removed.
  contains-non_good :
      (uid : Text)
      → has_key uid good ≡ true
      → contains (uids_of (non_good_standbys cd good sync)) uid ≡ false
  unfolding non_good_standbys
  contains-non_good uid h = contains-filter _ uid (values cd.dbs) (λ db e. ground arith)

  contains-non_good_sync :
      (uid : Text)
      → contains sync uid ≡ true
      → contains (uids_of (non_good_standbys cd good sync)) uid ≡ false
  unfolding non_good_standbys
  contains-non_good_sync uid h = contains-filter _ uid (values cd.dbs) (λ db e. ground arith)

  lookup-remove_standbys :
      (uid : Text)
      → contains (uids_of (non_good_standbys cd good sync)) uid ≡ false
      → lookup uid (remove_standbys cd good sync).dbs
        ≡ (if contains surplus uid then none else lookup uid cd.dbs)
  unfolding remove_standbys
  lookup-remove_standbys uid h =
      lookup-delete_all (standbys_to_remove cd good sync) cd.dbs uid
      ∙ rw (contains-standbys_to_remove uid h) refl

  has_key-remove_standbys :
      (dbs : List Db)
      → All (λ (db : Db). has_key db.uid good ≡ true) dbs
      → All (λ (db : Db). has_key db.uid cd.dbs ≡ true) dbs
      → filter (λ (db : Db). has_key db.uid (remove_standbys cd good sync).dbs) dbs
        ≡ kept surplus dbs
  unfolding kept filter has_key
  has_key-remove_standbys [] filed present = refl
  has_key-remove_standbys (db ∷ dbs) (f, filed) (p, present) =
      let step = has_key-remove_standbys dbs filed present in
      let here = lookup-remove_standbys db.uid (contains-non_good db.uid f) in ground arith

length-values : (m : Map Db) → length (values m) ≡ length m
length-values [] = refl
length-values (e ∷ m) = ap suc (length-values m)

-- Removing standbys keeps every synchronous one as it is, and of at least `maxStandbysPerSender`
-- good standbys it leaves that many, if they stand under their own uids.
pub remove_standbys-Keeps :
    (cd : ClusterData) (good : Map Db) (sync : List Text)
    → IsFiled cd good
    → (def_spec cd).max_standbys_per_sender ≤ length good
    → ((def_spec cd).max_standbys_per_sender
        ≤ length
            (filter (λ (db : Db). has_key db.uid (remove_standbys cd good sync).dbs) (values good)))
      × ((uid : Text)
          → (contains sync uid ≡ false)
            ⊎ (lookup uid (remove_standbys cd good sync).dbs ≡ lookup uid cd.dbs))
unfolding surplus
remove_standbys-Keeps cd good sync f enough =
    let left = length good - (def_spec cd).max_standbys_per_sender in
    let count = length-kept sync left (values good) f.distinct in
    let size = length-values good in
    (
      rw (has_key-remove_standbys cd good sync (values good) f.filed f.present) (omega arith),
      λ uid. elim (Bool-cases (contains sync uid)) [
        | inl named ↦
            let stays : contains (surplus cd good sync) uid ≡ false =
              unfold excess in contains-good_in_excess_sync sync left (values good) uid named in
            inr (
              lookup-remove_standbys cd good sync uid
                (contains-non_good_sync cd good sync uid named)
              ∙ rw stays refl)
        | inr free ↦ inl free
      ],
    )
