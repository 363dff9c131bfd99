-- ===== src/Sentinel/Selection/Candidates.antt =====
-- Which databases the classification and the search for a new master return.
use mathlib.Core.Path.{subst}
use hysteron.Base.{
  text_eq_iff, lookup, lookup-insert, values, Option, some, none, List, [], ◌∷◌, ◌≡◌, refl, ◌⊎◌,
  inl, inr, ◌↔◌, arith, Option-cases, Bool-cases, Time, All, All-Member, All-of_Member, All-insert,
  Member, Member-of_lookup,
}
use hysteron.Cluster.Entities.{Db, Keeper}
use hysteron.Cluster.Document.{ClusterData}
use hysteron.Sentinel.State.{Sentinel, Result, ok, err}
use hysteron.Sentinel.Selection.{
  DbType, DbStatusClass, good, DbsByStatus, db_type, db_status, is_wanted, file_result, classify_db,
  classify_dbs, file_under, no_dbs, valid_dbs_by_status,
}
use hysteron.Sentinel.Selection.Status.{
  IsGood, IsValid, is_wanted-IsValid, is_wanted_of, db_status-IsGood, IsGood-db_status,
}

-- Every database is found under its own uid.
abbrev pub IsKeyed : ClusterData → Type 0
IsKeyed cd = All (λ db. lookup db.uid cd.dbs ≡ some db) (values cd.dbs)

-- Every database is assigned to a keeper of the document.
abbrev pub HasKeepers : ClusterData → Type 0
HasKeepers cd =
    All (λ db. (k : Keeper) × (lookup db.spec.keeper_uid cd.keepers ≡ some k)) (values cd.dbs)

-- What puts a database among the good ones of a type.
abbrev pub IsGoodOf : ClusterData → DbType → Db → Type 0
IsGoodOf cd want db = IsValid cd db × (db_type cd db.uid ≡ ok want) × IsGood cd db

module _ (now : Time) (cd : ClusterData) (want : DbType) where
  abbrev Found : Db → Type 0
  Found db = lookup db.uid cd.dbs ≡ some db

  file_under_good :
      (P : Db → Type 0) (c : DbStatusClass) (db : Db) (r : DbsByStatus)
      → All P (values r.good_dbs)
      → (c ≡ good → P db)
      → All P (values (file_under c db r).good_dbs)
  file_under_good P good db r h p = All-insert P db.uid db r.good_dbs h (p refl)
  file_under_good P DbStatusClass.failed db r h p = h
  file_under_good P DbStatusClass.converging db r h p = h

  file_result_sound :
      (P : Db → Type 0) (db : Db) (r : DbsByStatus) (o : Option (Result DbStatusClass × Sentinel))
      {r' : DbsByStatus} {s' : Sentinel}
      → All P (values r.good_dbs)
      → ((s : Sentinel) → o ≡ some (ok good, s) → P db)
      → file_result db r o ≡ some (r', s')
      → All P (values r'.good_dbs)
  unfolding file_result
  file_result_sound P db r none h p e = cc
  file_result_sound P db r (some (err x, s)) h p e = ground arith
  file_result_sound P db r (some (ok c, s)) h p e =
      subst (λ (x : Option (DbsByStatus × Sentinel)). AllGood x) e
        (file_under_good P c db r h (λ g. p s (cc g)))
    where
      AllGood : Option (DbsByStatus × Sentinel) → Type 0
      AllGood none = Unit
      AllGood (some (t, _)) = All P (values t.good_dbs)

  classify_db_sound :
      (P : Db → Type 0) (db : Db) (r : DbsByStatus) (s : Sentinel) {r' : DbsByStatus}
      {s' : Sentinel}
      → Found db
      → (IsGoodOf cd want db → P db)
      → All P (values r.good_dbs)
      → classify_db now cd want db r s ≡ some (r', s')
      → All P (values r'.good_dbs)
  unfolding classify_db
  classify_db_sound P db r s {r'} {s'} f p h e = elim (Bool-cases (is_wanted cd want db.uid)) [
    | inr no_one ↦ ground arith
    | inl wanted ↦
        let (v, t) = is_wanted-IsValid cd db f want wanted in
        file_result_sound P db r (db_status now cd db.uid s) h
          (λ s2 g. p (v, t, db_status-IsGood cd db f now s s2 g)) (rw (wanted, classify_db) at e)
  ]

  classify_dbs_sound :
      (P : Db → Type 0) (dbs : List Db) (r : DbsByStatus) (s : Sentinel) {r' : DbsByStatus}
      {s' : Sentinel}
      → All (λ db. Found db × (IsGoodOf cd want db → P db)) dbs
      → All P (values r.good_dbs)
      → classify_dbs now cd want dbs r s ≡ some (r', s')
      → All P (values r'.good_dbs)
  unfolding classify_dbs
  classify_dbs_sound P [] r s f h e = ground arith
  classify_dbs_sound P (db ∷ dbs) r s {r'} {s'} ((fdb, p), f) h e =
      elim (Option-cases (classify_db now cd want db r s)) [
        | inl fails ↦ ground arith
        | inr ((r1, s1), step) ↦
            classify_dbs_sound P dbs r1 s1 {r' = r'} {s' = s'} f
              (classify_db_sound P db r s fdb p h step) (ground arith)
      ]

  -- A filed database stays filed.
  file_under_keeps :
      (u : Db) (c : DbStatusClass) (db : Db) (r : DbsByStatus)
      → Found u
      → Found db
      → lookup u.uid r.good_dbs ≡ some u
      → lookup u.uid (file_under c db r).good_dbs ≡ some u
  file_under_keeps u good db r fu fdb h =
      ground (arith, lookup-insert db.uid u.uid db r.good_dbs, text_eq_iff db.uid u.uid)
  file_under_keeps u DbStatusClass.failed db r fu fdb h = h
  file_under_keeps u DbStatusClass.converging db r fu fdb h = h

  classify_db_keeps :
      (u db : Db) (r : DbsByStatus) (s : Sentinel) {r' : DbsByStatus} {s' : Sentinel}
      → Found u
      → Found db
      → lookup u.uid r.good_dbs ≡ some u
      → classify_db now cd want db r s ≡ some (r', s')
      → lookup u.uid r'.good_dbs ≡ some u
  unfolding classify_db
  classify_db_keeps u db r s {r'} {s'} fu fdb h e = elim (Bool-cases (is_wanted cd want db.uid)) [
    | inr no_one ↦ ground arith
    | inl wanted ↦ from (db_status now cd db.uid s) (rw (wanted, classify_db) at e)
  ]
    where
      from :
          (o : Option (Result DbStatusClass × Sentinel))
          → file_result db r o ≡ some (r', s')
          → lookup u.uid r'.good_dbs ≡ some u
      from none d = unfold file_result in cc
      from (some (err x, s2)) d = unfold file_result in ground arith
      from (some (ok c, s2)) d =
          unfold file_result in ground (arith, file_under_keeps u c db r fu fdb h)

  classify_db_adds :
      (db : Db) (r : DbsByStatus) (s : Sentinel) {r' : DbsByStatus} {s' : Sentinel}
      → Found db
      → IsGoodOf cd want db
      → classify_db now cd want db r s ≡ some (r', s')
      → lookup db.uid r'.good_dbs ≡ some db
  unfolding classify_db file_result
  classify_db_adds db r s {r'} {s'} f (v, t, g) e =
      let wanted = is_wanted_of cd db f want v t in
      ground (
        arith,
        wanted,
        IsGood-db_status cd db f now s g,
        lookup-insert db.uid db.uid db r.good_dbs,
        text_eq_iff db.uid db.uid,
      )

  classify_dbs_keeps :
      (u : Db) (dbs : List Db) (r : DbsByStatus) (s : Sentinel) {r' : DbsByStatus} {s' : Sentinel}
      → Found u
      → All Found dbs
      → lookup u.uid r.good_dbs ≡ some u
      → classify_dbs now cd want dbs r s ≡ some (r', s')
      → lookup u.uid r'.good_dbs ≡ some u
  unfolding classify_dbs
  classify_dbs_keeps u [] r s fu f h e = ground arith
  classify_dbs_keeps u (db ∷ dbs) r s {r'} {s'} fu (fdb, f) h e =
      elim (Option-cases (classify_db now cd want db r s)) [
        | inl fails ↦ ground arith
        | inr ((r1, s1), step) ↦
            classify_dbs_keeps u dbs r1 s1 {r' = r'} {s' = s'} fu f
              (classify_db_keeps u db r s {r' = r1} {s' = s1} fu fdb h step) (ground arith)
      ]

  classify_dbs_complete :
      (u : Db) (dbs : List Db) (r : DbsByStatus) (s : Sentinel) {r' : DbsByStatus} {s' : Sentinel}
      → All Found dbs
      → Member u dbs
      → Found u
      → IsGoodOf cd want u
      → classify_dbs now cd want dbs r s ≡ some (r', s')
      → lookup u.uid r'.good_dbs ≡ some u
  unfolding classify_dbs
  classify_dbs_complete u [] r s f m fu g e = absurd m
  classify_dbs_complete u (db ∷ dbs) r s {r'} {s'} (fdb, f) m fu g e =
      elim (Option-cases (classify_db now cd want db r s)) [
        | inl fails ↦ ground arith
        | inr ((r1, s1), step) ↦ from r1 s1 step m (ground arith) (λ later.
            classify_dbs_complete u dbs r1 s1 {r' = r'} {s' = s'} f later fu g (ground arith))
      ]
    where
      from :
          (r1 : DbsByStatus) (s1 : Sentinel)
          → classify_db now cd want db r s ≡ some (r1, s1)
          → (u ≡ db) ⊎ Member u dbs
          → classify_dbs now cd want dbs r1 s1 ≡ some (r', s')
          → (Member u dbs → lookup u.uid r'.good_dbs ≡ some u)
          → lookup u.uid r'.good_dbs ≡ some u
      from r1 s1 step (inl same) rest later =
          classify_dbs_keeps u dbs r1 s1 {r' = r'} {s' = s'} fu f
            (classify_db_adds u r s {r' = r1} {s' = s1} fu g (rw same step)) rest
      from r1 s1 step (inr m) rest later = later m

-- `validDBsByStatus` returns as good exactly the databases of the document that are of the wanted
-- type, valid against the current master and of good status, if every database stands under its
-- own uid.
pub good_dbs_iff :
    (now : Time) (cd : ClusterData) (want : DbType) (s s' : Sentinel) (r : DbsByStatus)
    → IsKeyed cd
    → valid_dbs_by_status now cd want s ≡ some (r, s')
    → (db : Db) → Member db (values r.good_dbs) ↔ (Member db (values cd.dbs) × IsGoodOf cd want db)
unfolding valid_dbs_by_status
good_dbs_iff now cd want s s' r keyed e db = (
  λ m.
      All-Member (λ d. Member d (values cd.dbs) × IsGoodOf cd want d) (values r.good_dbs)
        (classify_dbs_sound now cd want (λ d. Member d (values cd.dbs) × IsGoodOf cd want d)
          (values cd.dbs) no_dbs s
          (All-of_Member _ (values cd.dbs)
            (λ d md. (All-Member _ (values cd.dbs) keyed d md, λ g. (md, g))))
          tt e)
        db m,
  λ (m, g). Member-of_lookup db.uid r.good_dbs (
      classify_dbs_complete now cd want db (values cd.dbs) no_dbs s keyed m
        (All-Member _ (values cd.dbs) keyed db m) g e),
)
