-- ===== src/Examples/Updates.antt =====
-- The theorems on the round of the sentinel, applied to the example cluster.
use hysteron.Base.{
  Text, text, text_eq, Map, lookup, insert, values, true, false, some, ◌≤◌, [], ◌∷◌, ◌≡◌, ◌≢◌, refl,
  ◌⊎◌, inl, inr, Member,
}
use hysteron.Cluster.Spec.{with_defaults}
use hysteron.Cluster.Entities.{Db}
use hysteron.Cluster.Document.{def_spec}
use hysteron.Utils.Slices.{compare_string_slice_no_order}
use hysteron.Sentinel.Selection.{replica_line}
use hysteron.Sentinel.Selection.Candidates.{IsKeyed, IsGoodOf}
use hysteron.Base.{length, sort_texts, sort_by, text_lt, text_eq_iff}
use hysteron.Utils.Slices.{same_elements}
use hysteron.Sentinel.Selection.{sync_repl}
use hysteron.Sentinel.Selection.NewMasters.{IsNear}
use hysteron.Sentinel.Update.Promotion.Routing.{Rerouted, hand_over-Rerouted}
use hysteron.Sentinel.Update.Promotion.Standbys.{TakesOver, promote-TakesOver}
use hysteron.Sentinel.Update.SyncStandbys.{
  with_standbys, await_in_sync, settled, refuses_sync, wanted_standbys,
}
use hysteron.Sentinel.Update.SyncStandbys.Merge.{Within, Named}
use hysteron.Sentinel.Update.SyncStandbys.Wanted.{wanted_standbys-enough}
use hysteron.Sentinel.Update.SyncStandbys.Await.{required, known, awaited_document}
use hysteron.Sentinel.Update.SyncStandbys.Overlap.{setup_standbys-Overlap, setup_standbys_sound}
use hysteron.Sentinel.Update.SyncStandbys.Sufficient.{Sufficient}
use hysteron.Examples.Rounds.{promoted, promotion, handing_over, setup}
use hysteron.Examples.World.{sync_cluster, pair_cluster, fresh_sentinel, db1, db2, db3}

hand_over-Rerouted_example : Rerouted [] sync_cluster (promoted sync_cluster)
hand_over-Rerouted_example =
    hand_over-Rerouted (def_spec sync_cluster) [] (text "db2") sync_cluster (promoted sync_cluster)
      handing_over

sync_cluster-sync_repl : sync_repl (def_spec sync_cluster) ≡ true
unfolding sync_repl def_spec with_defaults
sync_cluster-sync_repl = refl

db1-found : lookup (text "db1") sync_cluster.dbs ≡ some db1
unfolding lookup text_eq
db1-found = refl

db2-found : lookup (text "db2") sync_cluster.dbs ≡ some db2
unfolding lookup text_eq
db2-found = refl

db3-found : lookup (text "db3") pair_cluster.dbs ≡ some db3
unfolding lookup text_eq
db3-found = refl

db1_apart : text "db1" ≢ text "db2"
unfolding text_eq
db1_apart e = cc ((text_eq_iff (text "db1") (text "db2")).1 e)

promote-TakesOver_example :
    (new' : Db) × (lookup (text "db2") (promoted sync_cluster).dbs ≡ some new')
    × TakesOver (def_spec sync_cluster) db1 db2 new'
promote-TakesOver_example =
    promote-TakesOver (def_spec sync_cluster) (text "db1") (text "db2") sync_cluster
      (promoted sync_cluster) db1 db2 sync_cluster-sync_repl db1-found db2-found db1_apart promotion

-- The good standbys of the example, and the master's record after the round.
abbrev standbys : Map Db
standbys = (text "db2", db2) ∷ (text "db3", db3) ∷ []

abbrev renewed : Db
renewed = with_standbys (def_spec pair_cluster) (text "db2" ∷ text "db3" ∷ []) db1

setup_standbys-Overlap_example :
    Within (required renewed) (required db1)
    ⊎ ((u k : Text) (db : Db)
        → Member u (known (await_in_sync pair_cluster standbys db1))
        → lookup k pair_cluster.dbs ≡ some db
        → k ≢ text "db1"
        → db.uid ≡ u
        → Member u (required renewed) × Member u (known renewed))
setup_standbys-Overlap_example =
    setup_standbys-Overlap 1000 (def_spec pair_cluster) pair_cluster standbys (text "db1") db1 db1
      fresh_sentinel fresh_sentinel renewed setup

pair_cluster-IsKeyed : IsKeyed (awaited_document pair_cluster standbys (text "db1") db1)
unfolding lookup text_eq insert settled await_in_sync compare_string_slice_no_order same_elements
    sort_texts sort_by text_lt
pair_cluster-IsKeyed = (refl, (refl, (refl, tt)))

db3-required : Member (text "db3") (required renewed)
unfolding with_standbys sort_texts sort_by text_lt
db3-required = inr (inl refl)

setup_standbys_sound_example :
    let doc = awaited_document pair_cluster standbys (text "db1") db1 in
    Member (text "db3") (required db1)
    ⊎ ((db : Db) × (db.uid ≡ text "db3")
        × IsGoodOf doc replica_line db
        × IsNear doc db1 db
        × (refuses_sync doc (text "db3") ≡ false))
setup_standbys_sound_example =
    setup_standbys_sound 1000 (def_spec pair_cluster) pair_cluster standbys (text "db1") db1 db1
      fresh_sentinel fresh_sentinel renewed setup pair_cluster-IsKeyed (text "db3") db3-required

wanted_standbys-enough_example :
    ((def_spec pair_cluster).min_synchronous_standbys
      ≤ length (wanted_standbys (def_spec pair_cluster) pair_cluster standbys (db2 ∷ []) []))
    ⊎ ((u : Text)
        → Member u []
        → Named (values pair_cluster.dbs) u
        → Member u (wanted_standbys (def_spec pair_cluster) pair_cluster standbys (db2 ∷ []) []))
wanted_standbys-enough_example =
    wanted_standbys-enough (def_spec pair_cluster) pair_cluster standbys (db2 ∷ []) []
