-- ===== src/Sentinel/Update/SyncStandbys/Merge.antt =====
-- Adding the previous standbys to a set that has a new one.
use hysteron.Base.{
  Text, true, ℕ, zero, suc, ◌+◌, ◌≤◌, List, [], ◌∷◌, ◌++◌, ◌≡◌, refl, sym, ap, ◌∙◌, ◌⊎◌, inl, inr,
  ◌↔◌, arith, Bool-cases, Member, Member-append, length,
}
use hysteron.Cluster.Entities.{Db}
use hysteron.Utils.Slices.{contains}
use hysteron.Utils.Slices.Sets.{contains_iff}
use hysteron.Sentinel.Update.SyncStandbys.{
  add_to_set, set_of, drop, all_in, add_all_previous, merge_previous,
}

-- All of one list are in another.
abbrev pub Within : List Text → List Text → Type 0
Within a b = (u : Text) → Member u a → Member u b

-- A database of that uid is in the list.
abbrev pub Named : List Db → Text → Type 0
Named dbs u = (db : Db) × Member db dbs × (db.uid ≡ u)

pub Member-add_to_set :
    (uid u : Text) (set : List Text) → Member u (add_to_set uid set) ↔ (Member u set ⊎ (u ≡ uid))
unfolding add_to_set
Member-add_to_set uid u set = ground (arith, contains_iff set uid, Member-append u set (uid ∷ []))

pub Member-set_of :
    (uids set : List Text) (u : Text) → Member u (set_of uids set) ↔ (Member u set ⊎ Member u uids)
unfolding set_of
Member-set_of [] set u = ground arith
Member-set_of (uid ∷ uids) set u =
    let rest = Member-set_of uids (add_to_set uid set) u in
    let first = Member-add_to_set uid u set in ground (arith)

pub Member-of_drop : (n : ℕ) (set : List Text) (u : Text) → Member u (drop n set) → Member u set
unfolding drop
Member-of_drop zero set u m = m
Member-of_drop (suc n) [] u m = m
Member-of_drop (suc n) (uid ∷ set) u m = inr (Member-of_drop n set u m)

all_in_iff : (prev set : List Text) → (all_in prev set ≡ true) ↔ Within set prev
unfolding all_in
all_in_iff prev [] = (λ h u m. absurd m, λ h. refl)
all_in_iff prev (uid ∷ set) =
    let rest = all_in_iff prev set in
    let first = contains_iff prev uid in
    (
      λ h u m. elim m [ inl e ↦ rw e (first.0 (ground arith)) | inr r ↦ rest.0 (ground arith) u r ],
      λ w. ground (arith, first.1 (w uid (inl refl)), rest.1 (λ u m. w u (inr m))),
    )

-- The previous standbys that are still there are taken along.
add_all_previous-grows :
    (prev : List Text) (dbs : List Db) (set : List Text)
    → Within set (add_all_previous prev dbs set)
unfolding add_all_previous
add_all_previous-grows prev [] set u m = m
add_all_previous-grows prev (db ∷ dbs) set u m =
    add_all_previous-grows prev dbs _ u (ground (arith, m, Member-add_to_set db.uid u set))

add_all_previous-keeps :
    (prev : List Text) (dbs : List Db) (set : List Text) (u : Text)
    → Member u prev
    → Named dbs u
    → Member u (add_all_previous prev dbs set)
unfolding add_all_previous
add_all_previous-keeps prev [] set u p (db, m, e) = absurd m
add_all_previous-keeps prev (d ∷ dbs) set u p (db, inr m, e) =
    add_all_previous-keeps prev dbs _ u p (db, m, e)
add_all_previous-keeps prev (d ∷ dbs) set u p (db, inl m, e) =
    let same : d.uid ≡ u = ap (λ (x : Db). x.uid) (sym m) ∙ e in
    let there : contains prev d.uid ≡ true = (contains_iff prev d.uid).1 (rw same p) in
    add_all_previous-grows prev dbs _ u (ground (arith, there, same, Member-add_to_set d.uid u set))

-- A merged set has no new standby, or all the previous ones that are still there.
pub merge_previous-Merged :
    (prev : List Text) (dbs : List Db) (set : List Text)
    → Within (merge_previous prev dbs set) prev
      ⊎ ((u : Text) → Member u prev → Named dbs u → Member u (merge_previous prev dbs set))
unfolding merge_previous
merge_previous-Merged prev dbs set = elim (Bool-cases (all_in prev set)) [
  | inl e ↦ inl (rw e ((all_in_iff prev set).0 e))
  | inr e ↦ inr (rw e (add_all_previous-keeps prev dbs set))
]

pub merge_previous-grows :
    (prev : List Text) (dbs : List Db) (set : List Text) → Within set (merge_previous prev dbs set)
unfolding merge_previous
merge_previous-grows prev dbs set = elim (Bool-cases (all_in prev set)) [
  | inl e ↦ rw e (λ u m. m)
  | inr e ↦ rw e (add_all_previous-grows prev dbs set)
]

add_all_previous_sound :
    (prev : List Text) (dbs : List Db) (set : List Text) (u : Text)
    → Member u (add_all_previous prev dbs set)
    → Member u set ⊎ Member u prev
unfolding add_all_previous
add_all_previous_sound prev [] set u m = inl m
add_all_previous_sound prev (db ∷ dbs) set u m = elim (add_all_previous_sound prev dbs _ u m) [
  | inr p ↦ inr p
  | inl old ↦ ground (arith, contains_iff prev db.uid, Member-add_to_set db.uid u set)
]

pub merge_previous_sound :
    (prev : List Text) (dbs : List Db) (set : List Text) (u : Text)
    → Member u (merge_previous prev dbs set)
    → Member u set ⊎ Member u prev
unfolding merge_previous
merge_previous_sound prev dbs set u m = ground (arith, add_all_previous_sound prev dbs set u)

pub length_snoc : (set : List Text) (uid : Text) → length (set ++ uid ∷ []) ≡ length set + 1
length_snoc [] uid = refl
length_snoc (v ∷ set) uid = omega (arith, length_snoc set uid)

add_to_set-longer : (uid : Text) (set : List Text) → length set ≤ length (add_to_set uid set)
unfolding add_to_set
add_to_set-longer uid set = ground (arith, length_snoc set uid)

add_all_previous-longer :
    (prev : List Text) (dbs : List Db) (set : List Text)
    → length set ≤ length (add_all_previous prev dbs set)
unfolding add_all_previous
add_all_previous-longer prev [] set = omega arith
add_all_previous-longer prev (db ∷ dbs) set = elim (Bool-cases (contains prev db.uid)) [
  | inl e ↦ rw e (
      omega (
        arith,
        add_to_set-longer db.uid set,
        add_all_previous-longer prev dbs (add_to_set db.uid set),
      ))
  | inr e ↦ rw e (add_all_previous-longer prev dbs set)
]

pub merge_previous-longer :
    (prev : List Text) (dbs : List Db) (set : List Text)
    → length set ≤ length (merge_previous prev dbs set)
unfolding merge_previous
merge_previous-longer prev dbs set = ground (arith, add_all_previous-longer prev dbs set)
