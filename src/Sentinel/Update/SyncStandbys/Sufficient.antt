-- ===== src/Sentinel/Update/SyncStandbys/Sufficient.antt =====
-- Whether the synchronous standbys of the master suffice after a round, and what is done if not.
use hysteron.Base.{Text, values, false, some, ◌≤◌, ◌<◌, [], ◌∷◌, ◌≡◌, Member, length}
use hysteron.Cluster.Spec.{DefSpec}
use hysteron.Cluster.Entities.{Db}
use hysteron.Cluster.Document.{ClusterData}
use hysteron.Sentinel.State.{Sentinel}
use hysteron.Sentinel.Selection.{replica_line}
use hysteron.Sentinel.Selection.Candidates.{IsGoodOf}
use hysteron.Sentinel.Selection.NewMasters.{IsNear}
use hysteron.Sentinel.Update.Promotion.{fake_standby_name}
use hysteron.Sentinel.Update.SyncStandbys.{refuses_sync}
use hysteron.Sentinel.Update.SyncStandbys.Merge.{Named}
use hysteron.Sentinel.Update.SyncStandbys.Await.{required}

module _ (cd : ClusterData) (cur_master awaited m' : Db) where
  -- The master requires all the standbys that there are: the good ones that are near it and whose
  -- keepers do not refuse, and those of before that still exist.
  pub record AllTaken : Type 0 where
    pub best :
        (db : Db)
        → Member db (values cd.dbs)
        → IsGoodOf cd replica_line db
        → IsNear cd cur_master db
        → refuses_sync cd db.uid ≡ false
        → Member db.uid (required m')
    pub previous :
        (u : Text) → Member u (required awaited) → Named (values cd.dbs) u → Member u (required m')

  -- The required standbys reach the minimum, and no other is required; or one that never answers is
  -- required too, and the others are too few though all are taken.
  pub data Sufficient (spec : DefSpec) : Type 0 where
    reached :
        spec.min_synchronous_standbys ≤ length (required m')
        → m'.spec.external_synchronous_standbys ≡ some []
        → Sufficient spec
    blocked :
        length (required m') < spec.min_synchronous_standbys
        → m'.spec.external_synchronous_standbys ≡ some (fake_standby_name ∷ [])
        → AllTaken
        → Sufficient spec
