-- ===== src/Cluster/Validate.antt =====
-- internal/cluster/validate.go and update.go: `Validate` and `UpdateSpec`. The result is the first
-- error, `none` if there is none.
mod Parts
pub mod Durations
pub mod SlotNames
pub mod Accepted
pub mod Updates
use hysteron.Base.{
  text, text_eq, elems, Bool, true, false, not, Option, some, none, ◌&&◌, if◌then◌else◌, Text, Time,
  [],
}
use hysteron.Utils.Strings.{is_empty}
use hysteron.Cluster.Enums.{ClusterRole, ClusterInitMode, ClusterPhase, SuReplAccessMode}
use hysteron.Cluster.Settings.{PitrConfig, ExistingConfig, StandbyConfig}
use hysteron.Cluster.Spec.{ClusterSpec, DefSpec, with_defaults}
use hysteron.Cluster.Entities.{initial_generation}
use hysteron.Cluster.Document.{Cluster}
use hysteron.Cluster.Checks.{
  SpecError, ◌orelse◌, reject_if, undefined_field, unknown_value, standby_with_new,
  standby_with_recovery_target, init_mode_changed, master_to_standby, validate_durations,
  validate_standbys, validate_tls_mode, validate_each, validate_entry,
  validate_recovery_target_settings,
}
use hysteron.Cluster.SlotChecks.{validate_slots}

abbrev pub is_standby_cluster : ClusterRole → Bool
is_standby_cluster ClusterRole.standby = true
is_standby_cluster _ = false

abbrev pub is_master_cluster : ClusterRole → Bool
is_master_cluster ClusterRole.master = true
is_master_cluster _ = false

abbrev is_set {ℓ} : {A : Type ℓ} → Option A → Bool
is_set none = false
is_set (some _) = true

unfoldable pub validate_existing : Option ExistingConfig → Option SpecError
validate_existing none = some (undefined_field (text "existingConfig"))
validate_existing (some c) =
    reject_if (is_empty c.keeper_uid) (undefined_field (text "existingConfig.keeperUID"))

unfoldable pub validate_pitr : ClusterRole → Option PitrConfig → Option SpecError
validate_pitr role none = some (undefined_field (text "pitrConfig"))
validate_pitr role (some c) =
    reject_if (is_empty c.data_restore_command)
      (undefined_field (text "pitrConfig.DataRestoreCommand"))
    orelse reject_if (is_set c.recovery_target_settings && is_standby_cluster role)
        standby_with_recovery_target
    orelse validate_recovery_target_settings c.recovery_target_settings

-- The switch over the mode of initialisation.
unfoldable pub validate_init_mode : DefSpec → ClusterInitMode → Option SpecError
validate_init_mode s ClusterInitMode.fresh = reject_if (is_standby_cluster s.role) standby_with_new
validate_init_mode s ClusterInitMode.existing = validate_existing s.existing_config
validate_init_mode s ClusterInitMode.pitr = validate_pitr s.role s.pitr_config
validate_init_mode s (ClusterInitMode.unknown m) = some (unknown_value (text "initMode"))

unfoldable pub validate_access_mode : SuReplAccessMode → Option SpecError
validate_access_mode (SuReplAccessMode.unknown m) =
    some (unknown_value (text "defaultSUReplAccessMode"))
validate_access_mode _ = none

-- The switch over the role.
unfoldable pub validate_role : ClusterRole → Option StandbyConfig → Option SpecError
validate_role ClusterRole.master config = none
validate_role ClusterRole.standby none = some (undefined_field (text "standbyConfig"))
validate_role ClusterRole.standby (some config) = none
validate_role (ClusterRole.unknown r) config = some (unknown_value (text "role"))

-- `Validate` after the test that the mode of initialisation is set.
unfoldable pub validate_with_mode : DefSpec → ClusterInitMode → Option SpecError
validate_with_mode s mode =
    validate_slots s
    orelse validate_each (validate_entry (text "pgHBA")) (elems s.pg_hba)
    orelse validate_each (validate_entry (text "pgIdent")) (elems s.pg_ident)
    orelse validate_init_mode s mode
    orelse validate_access_mode s.default_su_repl_access_mode
    orelse validate_role s.role s.standby_config

-- The mode of initialisation has to be set.
unfoldable pub validate_mode : DefSpec → Option ClusterInitMode → Option SpecError
validate_mode s none = some (undefined_field (text "initMode"))
validate_mode s (some mode) = validate_with_mode s mode

-- `Validate`
unfoldable pub validate : ClusterSpec → Option SpecError
validate spec =
    let s = with_defaults spec in
    validate_durations s
    orelse validate_standbys s
    orelse validate_tls_mode s.replication_tls_mode
    orelse validate_mode s s.init_mode

-- Whether `Validate` returns nil.
unfoldable pub is_valid : ClusterSpec → Bool
is_valid spec = elim (validate spec) [ none ↦ true | some _ ↦ false ]

-- `*currentDefaults.InitMode != *nextDefaults.InitMode`; a nil pointer panics.
unfoldable pub same_init_mode : ClusterInitMode → ClusterInitMode → Bool
same_init_mode ClusterInitMode.fresh ClusterInitMode.fresh = true
same_init_mode ClusterInitMode.pitr ClusterInitMode.pitr = true
same_init_mode ClusterInitMode.existing ClusterInitMode.existing = true
same_init_mode (ClusterInitMode.unknown a) (ClusterInitMode.unknown b) = text_eq a b
same_init_mode _ _ = false

-- What `UpdateSpec` does with a cluster; `panicked` is a nil pointer that it follows.
pub data UpdateOutcome : Type 0 where
  updated : Cluster → UpdateOutcome
  refused : SpecError → UpdateOutcome
  panicked : UpdateOutcome

-- `UpdateSpec` where both modes of initialisation are set.
unfoldable pub replace_spec :
    Cluster → ClusterSpec → ClusterInitMode → ClusterInitMode → UpdateOutcome
replace_spec c next current_mode next_mode =
    if not (same_init_mode current_mode next_mode)
    then refused init_mode_changed
    else if is_master_cluster (with_defaults c.spec).role
        && is_standby_cluster (with_defaults next).role
    then refused master_to_standby
    else updated (record c { spec = next })

-- `UpdateSpec`
unfoldable pub update_spec : Cluster → ClusterSpec → UpdateOutcome
update_spec c next = elim (validate next) [
  | some e ↦ refused e
  | none ↦ elim c.spec.init_mode [
    | none ↦ panicked
    | some current_mode ↦ elim next.init_mode [
      | none ↦ panicked
      | some next_mode ↦ replace_spec c next current_mode next_mode
    ]
  ]
]

-- `NewCluster`
abbrev pub new_cluster : Text → ClusterSpec → Time → Cluster
new_cluster uid spec now = record {
  change_time = now;
  spec = spec;
  uid = uid;
  status = record {
    pause_until = none;
    manual_switch = none;
    phase = ClusterPhase.initializing;
    master = [];
    pause_reason = [];
    current_generation = 0;
    paused = false;
  };
  generation = initial_generation;
}
