-- ===== src/Cluster/Enums.antt =====
-- internal/cluster/types_enums.go, types_replication.go, manual_switch.go and the roles of
-- internal/common/common.go: the string types with their constants. Where the code has a default
-- branch for any other string, the constructor `unknown` holds that string.
use hysteron.Base.{Text}

pub data FollowType : Type 0 where
  internal external : FollowType

pub data ClusterPhase : Type 0 where
  initializing normal : ClusterPhase
  unknown : Text → ClusterPhase

pub data ClusterRole : Type 0 where
  master standby : ClusterRole
  unknown : Text → ClusterRole

pub data ClusterInitMode : Type 0 where
  fresh pitr existing : ClusterInitMode
  unknown : Text → ClusterInitMode

pub data DbInitMode : Type 0 where
  nothing existing fresh pitr resync : DbInitMode

pub data Role : Type 0 where
  undefined master standby : Role

pub data ManualSwitchMode : Type 0 where
  switchover failover : ManualSwitchMode

pub data ReplicationSlotType : Type 0 where
  physical logical : ReplicationSlotType
  unknown : Text → ReplicationSlotType

pub data SuReplAccessMode : Type 0 where
  everyone strict : SuReplAccessMode
  unknown : Text → SuReplAccessMode

pub data ReplicationTlsMode : Type 0 where
  prefer require verify_ca verify_full : ReplicationTlsMode
  unknown : Text → ReplicationTlsMode
