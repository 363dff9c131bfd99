-- ===== src/Cluster/Document.antt =====
-- internal/cluster/types_cluster.go and types_cluster_data.go: the document that the components
-- share through the store.
use hysteron.Base.{
  Text, Map, values, Bool, true, false, Option, some, none, ℕ, Time, ltb, find_first, text_eq,
}
use hysteron.Cluster.Enums.{ClusterPhase}
use hysteron.Cluster.Settings.{ManualSwitchRequest}
use hysteron.Cluster.Spec.{ClusterSpec, DefSpec, with_defaults}
use hysteron.Cluster.Entities.{Keeper, Db, Proxy}

pub record ClusterStatus : Type 0 where
  pub pause_until : Option Time
  pub manual_switch : Option ManualSwitchRequest
  pub phase : ClusterPhase
  pub master : Text
  pub pause_reason : Text
  pub current_generation : ℕ
  pub paused : Bool

pub record Cluster : Type 0 where
  pub change_time : Time
  pub spec : ClusterSpec
  pub uid : Text
  pub status : ClusterStatus
  pub generation : ℕ

pub record ClusterData : Type 0 where
  pub change_time : Time
  pub cluster : Cluster
  pub keepers : Map Keeper
  pub dbs : Map Db
  pub proxy : Proxy
  pub format_version : ℕ

-- `cluster.DefSpec()`
unfoldable pub def_spec : ClusterData → DefSpec
def_spec cd = with_defaults cd.cluster.spec

-- `FindDB`: the first database assigned to the keeper.
unfoldable pub find_db : ClusterData → Keeper → Option Db
find_db cd keeper = find_first (λ db. text_eq db.spec.keeper_uid keeper.uid) (values cd.dbs)

-- `PauseActive`
unfoldable pub pause_active : ClusterStatus → Time → Bool
pause_active s now = elim s.paused [
  | false ↦ false
  | true ↦ elim s.pause_until [ none ↦ true | some until ↦ ltb now until ]
]
