-- ===== src/Cluster/Checks.antt =====
-- internal/cluster/validate.go: the checks of a specification, one group of fields after the other.
-- The result of a check is its error, `none` if there is none.
use hysteron.Base.{
  Text, text, text_eq, Bool, true, false, not, Option, some, none, ℕ, List, [], ◌∷◌, ◌+◌, ◌&&◌, pos,
  Duration, ltb_ℤ, leb_ℤ, add_duration, ltb, if◌then◌else◌,
}
use hysteron.Utils.Strings.{is_empty, trim_space, has_byte}
use hysteron.Cluster.Enums.{ReplicationTlsMode}
use hysteron.Cluster.Settings.{RecoveryTargetSettings}
use hysteron.Cluster.Spec.{DefSpec}

pub data SpecError : Type 0 where
  must_be_positive must_be_at_least_one undefined_field unknown_value : Text → SpecError
  probe_timeout_over_interval ttl_under_probe_interval check_interval_not_under_timeout : SpecError
  invalid_ha_timing max_under_min_synchronous_standbys : SpecError
  wrong_slot_name reserved_slot_name duplicated_slot_name : Text → SpecError
  slot_without_database slot_without_plugin : Text → SpecError
  physical_matcher_with_database matcher_must_be_logical empty_matcher : SpecError
  wal_level_not_logical no_managed_logical_slots hot_standby_feedback_off : SpecError
  newline_in_entry : Text → SpecError
  standby_with_new standby_with_recovery_target : SpecError
  bad_recovery_target several_recovery_targets : SpecError
  init_mode_changed master_to_standby : SpecError

-- `if test { return err }`, then the rest.
infixr 20 ◌orelse◌
abbrev pub ◌orelse◌ : Option SpecError → Option SpecError → Option SpecError
none orelse rest = rest
(some e) orelse rest = some e

abbrev pub reject_if : Bool → SpecError → Option SpecError
reject_if true e = some e
reject_if false e = none

abbrev is_negative : Duration → Bool
is_negative d = ltb_ℤ d (pos 0)

-- The checks of a field that must not be negative.
unfoldable pub non_negative : List (Text × Duration) → Option SpecError
non_negative [] = none
non_negative ((field, d) ∷ fields) =
    reject_if (is_negative d) (must_be_positive field) orelse non_negative fields

-- `validateHATiming`
unfoldable pub validate_ha_timing : Duration → Duration → Duration → Option SpecError
validate_ha_timing sleep_interval request_timeout fail_interval =
    reject_if
      (ltb_ℤ fail_interval
        (add_duration sleep_interval (add_duration request_timeout request_timeout)))
      invalid_ha_timing

-- The checks of `Validate` on intervals and timeouts, in four groups.
abbrev pub interval_fields : DefSpec → List (Text × Duration)
interval_fields s =
    (text "sleepInterval", s.sleep_interval)
    ∷ (text "requestTimeout", s.request_timeout)
    ∷ (text "convergenceTimeout", s.convergence_timeout)
    ∷ (text "initTimeout", s.init_timeout)
    ∷ (text "syncTimeout", s.sync_timeout)
    ∷ (text "dbWaitReadyTimeout", s.db_wait_ready_timeout)
    ∷ (text "failInterval", s.fail_interval)
    ∷ (text "autoFailbackMinUptime", s.auto_failback_min_uptime)
    ∷ (text "autoFailbackCooldown", s.auto_failback_cooldown)
    ∷ (text "failsafeProbeInterval", s.failsafe_probe_interval)
    ∷ (text "failsafeProbeTimeout", s.failsafe_probe_timeout)
    ∷ (text "failsafeTTL", s.failsafe_ttl)
    ∷ []

unfoldable pub validate_intervals : DefSpec → Option SpecError
validate_intervals s = non_negative (interval_fields s)

unfoldable pub validate_failsafe : DefSpec → Option SpecError
validate_failsafe s =
    reject_if (ltb_ℤ s.failsafe_probe_interval s.failsafe_probe_timeout) probe_timeout_over_interval
    orelse reject_if (ltb_ℤ s.failsafe_ttl s.failsafe_probe_interval) ttl_under_probe_interval

abbrev pub proxy_fields : DefSpec → List (Text × Duration)
proxy_fields s =
    (text "deadKeeperRemovalInterval", s.dead_keeper_removal_interval)
    ∷ (text "proxyCheckInterval", s.proxy_check_interval)
    ∷ (text "proxyTimeout", s.proxy_timeout)
    ∷ []

unfoldable pub validate_proxy_timing : DefSpec → Option SpecError
validate_proxy_timing s =
    non_negative (proxy_fields s)
    orelse reject_if (leb_ℤ s.proxy_timeout s.proxy_check_interval) check_interval_not_under_timeout

unfoldable pub validate_durations : DefSpec → Option SpecError
validate_durations s =
    validate_intervals s
    orelse validate_failsafe s
    orelse validate_proxy_timing s
    orelse validate_ha_timing s.sleep_interval s.request_timeout s.fail_interval

-- The numbers of standbys.
unfoldable pub validate_standbys : DefSpec → Option SpecError
validate_standbys s =
    reject_if (ltb s.max_standbys 1) (must_be_at_least_one (text "maxStandbys"))
    orelse reject_if (ltb s.max_standbys_per_sender 1)
        (must_be_at_least_one (text "maxStandbysPerSender"))
    orelse reject_if (ltb s.max_synchronous_standbys 1)
        (must_be_at_least_one (text "maxSynchronousStandbys"))
    orelse reject_if (ltb s.max_synchronous_standbys s.min_synchronous_standbys)
        max_under_min_synchronous_standbys

unfoldable pub validate_tls_mode : Option ReplicationTlsMode → Option SpecError
validate_tls_mode (some (ReplicationTlsMode.unknown m)) =
    some (unknown_value (text "replicationTLSMode"))
validate_tls_mode _ = none

-- A loop that returns the first error of its body.
unfoldable pub validate_each : {A : Type 0} → (A → Option SpecError) → List A → Option SpecError
validate_each f [] = none
validate_each f (x ∷ xs) = f x orelse validate_each f xs

-- An entry of pgHBA or pgIdent.
unfoldable pub validate_entry : Text → Text → Option SpecError
validate_entry field entry = reject_if (has_byte 10 entry) (newline_in_entry field)

-- The selectors of a recovery target that are set.
unfoldable pub count_targets : List Text → ℕ
count_targets [] = 0
count_targets (v ∷ vs) = (if is_empty v then 0 else 1) + count_targets vs

-- `validateRecoveryTargetSettings`
unfoldable pub validate_recovery_target_settings : Option RecoveryTargetSettings → Option SpecError
validate_recovery_target_settings none = none
validate_recovery_target_settings (some settings) =
    let target = trim_space settings.recovery_target in
    reject_if (not (is_empty target) && not (text_eq target (text "immediate"))) bad_recovery_target
    orelse reject_if
        (ltb 1 (
          count_targets (
            target
            ∷ trim_space settings.recovery_target_lsn
            ∷ trim_space settings.recovery_target_name
            ∷ trim_space settings.recovery_target_time
            ∷ trim_space settings.recovery_target_xid
            ∷ [])))
        several_recovery_targets
