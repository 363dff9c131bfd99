-- ===== src/Sentinel/Update/Specs/Settings.antt =====
-- The settings that a database takes from the cluster are taken once: what
-- `setDBSpecFromClusterSpec` has set it leaves as it is, and it moves no database.
use mathlib.Core.Path.{subst}
use hysteron.Base.{
  Text, Map, Option, some, none, [], ◌∷◌, ◌≡◌, refl, sym, ap, inl, inr, arith, Slice, All,
  Option-cases, ◌∙◌,
}
use hysteron.Cluster.Settings.{FollowConfig}
use hysteron.Cluster.Spec.{DefSpec}
use hysteron.Cluster.Entities.{Db, DbSpec}
use hysteron.Cluster.Document.{ClusterData, def_spec}
use hysteron.Sentinel.State.{Result, ok, err}
use hysteron.Sentinel.Selection.{DbType, primary_line, replica_line, db_type}
use hysteron.Sentinel.Update.Specs.{
  follow_settings, slot_settings, common_settings, db_settings, set_db_specs,
}
use hysteron.Sentinel.Update.Specs.Views.{view, link, place}

-- Taken again, the settings of an external source are the same, and of the same source.
follow_settings_idem :
    (c : DefSpec) (fc fc' : Option FollowConfig)
    → follow_settings c fc ≡ some fc'
    → (follow_settings c fc' ≡ some fc') × (link fc' ≡ link fc)
unfolding follow_settings link
follow_settings_idem c none fc' h = ground arith
follow_settings_idem c (some fc) fc' h = ground arith

slot_settings_idem :
    (c : DefSpec) (t : Result DbType) (follow : Option FollowConfig) (spec : DbSpec)
    → slot_settings c t
        (common_settings c follow (slot_settings c t (common_settings c follow spec)))
      ≡ slot_settings c t (common_settings c follow spec)
unfolding slot_settings common_settings
slot_settings_idem c (err e) follow spec = refl
slot_settings_idem c (ok primary_line) follow spec = refl
slot_settings_idem c (ok replica_line) follow spec = refl

-- What the settings leave alone.
pub record IsKept (before after : DbSpec) : Type 0 where
  pub role : after.role ≡ before.role
  pub link : link after.follow_config ≡ link before.follow_config
  pub followers : after.followers ≡ before.followers

slot_settings-IsKept :
    (c : DefSpec) (t : Result DbType) (follow : Option FollowConfig) (spec : DbSpec)
    → link follow ≡ link spec.follow_config
    → (slot_settings c t (common_settings c follow spec)).follow_config ≡ follow
      × IsKept spec (slot_settings c t (common_settings c follow spec))
unfolding slot_settings common_settings
slot_settings-IsKept c (err e) follow spec h =
    (refl, record { role = refl; link = h; followers = refl })
slot_settings-IsKept c (ok primary_line) follow spec h =
    (refl, record { role = refl; link = h; followers = refl })
slot_settings-IsKept c (ok replica_line) follow spec h =
    (refl, record { role = refl; link = h; followers = refl })

db_settings-of_follow :
    (c : DefSpec) (t : Result DbType) (spec : DbSpec) (follow : Option FollowConfig)
    → follow_settings c spec.follow_config ≡ some follow
    → db_settings c t spec ≡ some (slot_settings c t (common_settings c follow spec))
unfolding db_settings
db_settings-of_follow c t spec follow h = rw (h, db_settings) refl

module _ (c : DefSpec) (t : Result DbType) (spec spec' : DbSpec) where
  -- How the settings come about.
  db_settings-cases :
      db_settings c t spec ≡ some spec'
      → (follow : Option FollowConfig) × (follow_settings c spec.follow_config ≡ some follow)
        × (spec' ≡ slot_settings c t (common_settings c follow spec))
  unfolding db_settings
  db_settings-cases h = elim (Option-cases (follow_settings c spec.follow_config)) [
    | inl panic ↦ ground arith
    | inr (follow, e) ↦ (follow, e, ground arith)
  ]

  pub db_settings-IsKept : db_settings c t spec ≡ some spec' → IsKept spec spec'
  db_settings-IsKept h =
      let (follow, e, eq) = db_settings-cases h in
      rw eq
        (slot_settings-IsKept c t follow spec
          (follow_settings_idem c spec.follow_config follow e).1).1

  pub db_settings_idem : db_settings c t spec ≡ some spec' → db_settings c t spec' ≡ some spec'
  db_settings_idem h =
      let (follow, e, eq) = db_settings-cases h in
      subst (λ x. db_settings c t x ≡ some x) (sym eq) (taken_again follow e)
    where
      taken_again :
          (follow : Option FollowConfig)
          → follow_settings c spec.follow_config ≡ some follow
          → db_settings c t (slot_settings c t (common_settings c follow spec))
            ≡ some (slot_settings c t (common_settings c follow spec))
      taken_again follow e =
          let (again, same) = follow_settings_idem c spec.follow_config follow e in
          let (kept, _) = slot_settings-IsKept c t follow spec same in
          db_settings-of_follow c t _ follow (ap (follow_settings c) kept ∙ again)
          ∙ ap some (slot_settings_idem c t follow spec)

-- Every database has its settings, the types being those of `cd`.
unfoldable pub AllSet : ClusterData → Map Db → Type 0
AllSet cd dbs =
    All (λ (e : Text × Db). db_settings (def_spec cd) (db_type cd e.1.uid) e.1.spec ≡ some e.1.spec)
      dbs

place-IsKept :
    (db : Db) (spec : DbSpec) → IsKept db.spec spec → place (record db { spec = spec }) ≡ place db
unfolding place
place-IsKept db spec kept = rw (kept.role, kept.link) refl

set_db_specs-cons :
    (cd : ClusterData) (uid : Text) (db : Db) (dbs : Map Db) (spec : DbSpec) (rest : Map Db)
    → db_settings (def_spec cd) (db_type cd db.uid) db.spec ≡ some spec
    → set_db_specs cd dbs ≡ some rest
    → set_db_specs cd ((uid, db) ∷ dbs) ≡ some ((uid, record db { spec = spec }) ∷ rest)
unfolding set_db_specs
set_db_specs-cons cd uid db dbs spec rest e e' = rw (e, e', set_db_specs) refl

abbrev pub followed : Db → Text × Slice
followed db = (db.uid, db.spec.followers)

-- After the loop they have, and each is where it was and is followed by the same ones.
pub record IsAfter (cd : ClusterData) (dbs dbs' : Map Db) : Type 0 where
  pub all_set : AllSet cd dbs'
  pub places : view place dbs' ≡ view place dbs
  pub followers : view followed dbs' ≡ view followed dbs

pub set_db_specs-IsAfter :
    (cd : ClusterData) (dbs dbs' : Map Db) → set_db_specs cd dbs ≡ some dbs' → IsAfter cd dbs dbs'
unfolding set_db_specs AllSet
set_db_specs-IsAfter cd [] dbs' h =
    let none_left : [] ≡ dbs' = cc in
    subst (λ m. IsAfter cd [] m) none_left
      (record { all_set = tt; places = refl; followers = refl })
set_db_specs-IsAfter cd ((uid, db) ∷ dbs) dbs' h =
    elim (Option-cases (db_settings (def_spec cd) (db_type cd db.uid) db.spec)) [
      | inl panic ↦ ground arith
      | inr (spec, e) ↦ elim (Option-cases (set_db_specs cd dbs)) [
        | inl panic ↦ ground arith
        | inr (rest, e') ↦
            let written = set_db_specs-cons cd uid db dbs spec rest e e' in
            let result : (uid, record db { spec = spec }) ∷ rest ≡ dbs' = cc in
            subst (λ m. IsAfter cd ((uid, db) ∷ dbs) m) result
              (cons spec rest e (set_db_specs-IsAfter cd dbs rest e'))
      ]
    ]
  where
    cons :
        (spec : DbSpec) (rest : Map Db)
        → db_settings (def_spec cd) (db_type cd db.uid) db.spec ≡ some spec
        → IsAfter cd dbs rest
        → IsAfter cd ((uid, db) ∷ dbs) ((uid, record db { spec = spec }) ∷ rest)
    cons spec rest e after =
        let kept = db_settings-IsKept _ _ db.spec spec e in
        record {
          all_set = (db_settings_idem _ _ db.spec spec e, after.all_set);
          places = rw (place-IsKept db spec kept, after.places) refl;
          followers = rw (kept.followers, after.followers) refl;
        }

-- The loop leaves such databases as they are.
pub AllSet-set_db_specs :
    (cd : ClusterData) (dbs : Map Db) → AllSet cd dbs → set_db_specs cd dbs ≡ some dbs
unfolding set_db_specs AllSet
AllSet-set_db_specs cd [] h = refl
AllSet-set_db_specs cd ((uid, db) ∷ dbs) (first, rest) =
    set_db_specs-cons cd uid db dbs db.spec dbs first (AllSet-set_db_specs cd dbs rest)
