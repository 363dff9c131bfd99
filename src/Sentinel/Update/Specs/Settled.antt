-- ===== src/Sentinel/Update/Specs/Settled.antt =====
-- A document that the end of a round in cluster_update.go has written is settled: the followers of
-- its master are those that follow it, and every database has the settings of the cluster.
use mathlib.Core.Path.{subst}
use hysteron.Base.{
  Text, Map, lookup, values, some, [], ◌∷◌, ◌≡◌, refl, sym, ap, ◌∙◌, inl, inr, Option-cases, insert,
  Time,
}
use hysteron.Cluster.Entities.{Db, DbSpec}
use hysteron.Cluster.Document.{ClusterData, def_spec}
use hysteron.Sentinel.Selection.{db_type}
use hysteron.Sentinel.Update.Specs.{
  db_settings, set_db_specs, set_db_spec_from_cluster_spec, followers_of, update_followers,
  finish_update, finish_round,
}
use hysteron.Sentinel.Update.Specs.Changes.{}
use hysteron.Sentinel.Update.Specs.Views.{
  view, view-insert, insert-lookup, place, db_type-view, followers_of-view,
}
use hysteron.Sentinel.Update.Specs.Settings.{
  AllSet, AllSet-set_db_specs, IsAfter, set_db_specs-IsAfter, followed,
}
use hysteron.Sentinel.Update.Specs.Written.{
  view-round_result, lookup-of_view, def_spec-round_result, lookup-insert_same, finish_update-set,
  finish_update-panic, finish_round-found, finish_round-missing, round_result, with_followers_of,
  with_followers,
}

filed : Db → Text × DbSpec
filed db = (db.uid, db.spec)

IsTaken : ClusterData → Text × DbSpec → Type 0
IsTaken cd (uid, spec) = db_settings (def_spec cd) (db_type cd uid) spec ≡ some spec

AllTaken : ClusterData → Map (Text × DbSpec) → Type 0
AllTaken cd [] = Unit
AllTaken cd ((k, p) ∷ v) = IsTaken cd p × AllTaken cd v

AllSet-AllTaken :
    (cd : ClusterData) (dbs : Map Db)
    → (AllSet cd dbs → AllTaken cd (view filed dbs))
      × (AllTaken cd (view filed dbs) → AllSet cd dbs)
unfolding AllSet AllTaken IsTaken filed
AllSet-AllTaken cd [] = (λ h. h, λ h. h)
AllSet-AllTaken cd ((k, db) ∷ dbs) =
    let (to, from) = AllSet-AllTaken cd dbs in (λ (p, h). (p, to h), λ (p, h). (p, from h))

AllTaken-of :
    (a b : ClusterData) (v : Map (Text × DbSpec))
    → def_spec a ≡ def_spec b
    → ((uid : Text) → db_type a uid ≡ db_type b uid)
    → AllTaken a v
    → AllTaken b v
unfolding AllTaken IsTaken
AllTaken-of a b [] e types h = tt
AllTaken-of a b ((k, (uid, spec)) ∷ v) e types (p, h) =
    (rw (sym e, sym (types uid)) p, AllTaken-of a b v e types h)

-- The settings of the same specifications in a document of the same cluster and places.
AllSet-of :
    (a b : ClusterData) (dbs : Map Db)
    → def_spec a ≡ def_spec b
    → view place a.dbs ≡ view place b.dbs
    → view filed dbs ≡ view filed b.dbs
    → AllSet a dbs
    → AllSet b b.dbs
AllSet-of a b dbs e places specs h = (AllSet-AllTaken b b.dbs).1 (
    AllTaken-of a b (view filed b.dbs) e (λ uid. db_type-view a b uid places)
      (subst (AllTaken a) specs ((AllSet-AllTaken a dbs).0 h)))

-- The followers of the master are up to date, and every database has its settings.
pub record IsSettled (cur_master wanted : Text) (cd : ClusterData) : Type 0 where
  pub master : Db
  pub found : lookup cur_master cd.dbs ≡ some master
  pub followers : master.spec.followers ≡ some (followers_of master.uid wanted (values cd.dbs))
  pub all_set : AllSet cd cd.dbs

-- A settled document goes through the steps before the generations unchanged.
update_followers-IsSettled :
    (m w : Text) (cd : ClusterData) → IsSettled m w cd → update_followers m w cd.dbs ≡ some cd.dbs
unfolding update_followers
update_followers-IsSettled m w cd s =
    rw (s.found, update_followers, sym s.followers)
      (ap some (insert-lookup m s.master cd.dbs s.found))

set_db_spec_from_cluster_spec-IsSettled :
    (m w : Text) (cd : ClusterData) → IsSettled m w cd → set_db_spec_from_cluster_spec cd ≡ some cd
unfolding set_db_spec_from_cluster_spec
set_db_spec_from_cluster_spec-IsSettled m w cd s =
    rw (AllSet-set_db_specs cd cd.dbs s.all_set, set_db_spec_from_cluster_spec) refl

pub finish_round-IsSettled :
    (now : Time) (prev : ClusterData) (m w : Text) (cd : ClusterData)
    → IsSettled m w cd
    → finish_round now prev m w cd ≡ some (round_result now prev cd)
unfolding finish_round finish_update round_result
finish_round-IsSettled now prev m w cd s =
    rw
      (
        update_followers-IsSettled m w cd s,
        finish_round,
        set_db_spec_from_cluster_spec-IsSettled m w cd s,
        finish_update,
      )
      refl

round_result-IsSettled :
    (now : Time) (cd newcd : ClusterData) (m w : Text) (master : Db) (dbs : Map Db)
    → lookup m newcd.dbs ≡ some master
    → IsAfter (with_followers m w master newcd) (with_followers m w master newcd).dbs dbs
    → IsSettled m w (round_result now cd (record newcd { dbs = dbs }))
unfolding with_followers with_followers_of place filed insert def_spec
round_result-IsSettled now cd newcd m w master dbs known after =
    let set : ClusterData = record newcd { dbs = dbs } in
    let nd = with_followers m w master newcd in
    let result = round_result now cd set in
    let places : view place result.dbs ≡ view place nd.dbs =
      view-round_result place (λ db s. refl) (λ db g. refl) now cd set ∙ after.places in
    let follows : view followed result.dbs ≡ view followed nd.dbs =
      view-round_result followed (λ db s. refl) (λ db g. refl) now cd set ∙ after.followers in
    let specs : view filed dbs ≡ view filed result.dbs =
      sym (view-round_result filed (λ db s. refl) (λ db g. refl) now cd set) in
    let in_place : view place nd.dbs ≡ view place newcd.dbs =
      view-insert place m master _ newcd.dbs known refl in
    let (now_master, found, same) =
      lookup-of_view followed m result.dbs nd.dbs _ follows (lookup-insert_same m _ newcd.dbs) in
    record {
      master = now_master;
      found = found;
      followers =
          ap (λ p. p.1) same
          ∙ ap some (
              followers_of-view master.uid w newcd.dbs result.dbs (sym (places ∙ in_place))
              ∙ ap (λ uid. followers_of uid w (values result.dbs)) (sym (ap (λ p. p.0) same)));
      all_set =
          AllSet-of nd result dbs (sym (def_spec-round_result now cd set)) (sym places) specs
            after.all_set;
    }

-- The first round leaves a settled document.
pub finish_round-leads :
    (now : Time) (cd newcd cd' : ClusterData) (m w : Text)
    → finish_round now cd m w newcd ≡ some cd'
    → IsSettled m w cd'
unfolding with_followers
finish_round-leads now cd newcd cd' m w h = elim (Option-cases (lookup m newcd.dbs)) [
  | inl absent ↦ let stopped = finish_round-missing now cd newcd m w absent in absurd cc
  | inr (master, known) ↦
      let nd = with_followers m w master newcd in
      let run = finish_round-found now cd newcd m w master known in
      elim (Option-cases (set_db_specs nd nd.dbs)) [
        | inl panic ↦ let stopped = finish_update-panic now cd nd panic in absurd cc
        | inr (dbs, e) ↦
            let written = finish_update-set now cd nd dbs e in
            let same : round_result now cd (record nd { dbs = dbs }) ≡ cd' = cc in
            subst (IsSettled m w) same (
              round_result-IsSettled now cd newcd m w master dbs known
                (set_db_specs-IsAfter nd nd.dbs dbs e))
      ]
]
