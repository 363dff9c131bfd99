-- ===== src/Keeper/Failsafe.antt =====
-- internal/runtime/keeper/runtime_config.go: how a keeper that cannot read the store enters and
-- leaves the failsafe mode.
pub mod Reachable
use hysteron.Base.{Bool, true, false, not, ℕ, Time, Duration, pos, ltb_ℤ, sub_time, if◌then◌else◌}
use hysteron.Cluster.Spec.{DefSpec, with_defaults, empty_spec}

-- `failsafeState`
pub data FailsafeState : Type 0 where
  disabled inactive active expired : FailsafeState

-- The fields of `PostgresKeeper` that the failsafe mode reads and writes; the zero time of
-- `dcs_degraded_since` is 0.
pub record FailsafeKeeper : Type 0 where
  pub state : FailsafeState
  pub dcs_degraded_since : Time
  pub sleep_interval : Duration
  pub request_timeout : Duration
  pub failsafe_probe_interval : Duration
  pub failsafe_probe_timeout : Duration
  pub failsafe_ttl : Duration
  pub failsafe_max_missing_peers : ℕ
  pub failsafe_enabled : Bool
  pub dcs_degraded : Bool

-- `setFailsafeState`, without its metrics.
unfoldable pub set_failsafe_state : FailsafeState → FailsafeKeeper → FailsafeKeeper
set_failsafe_state state p = record p { state = state }

-- `applyFailsafeRuntimeConfig`
unfoldable pub apply_failsafe_runtime_config : DefSpec → FailsafeKeeper → FailsafeKeeper
unfolding set_failsafe_state
apply_failsafe_runtime_config spec p =
    let configured : FailsafeKeeper = record p {
      failsafe_enabled = spec.enable_failsafe_mode;
      failsafe_probe_interval = spec.failsafe_probe_interval;
      failsafe_probe_timeout = spec.failsafe_probe_timeout;
      failsafe_max_missing_peers = spec.failsafe_max_missing_peers;
      failsafe_ttl = spec.failsafe_ttl;
    } in
    set_failsafe_state
      (if spec.enable_failsafe_mode then FailsafeState.inactive else FailsafeState.disabled)
      configured

-- The beginning of a time without the store.
unfoldable pub mark_degraded : Time → FailsafeKeeper → FailsafeKeeper
mark_degraded now p =
    if p.dcs_degraded then p else record p { dcs_degraded = true; dcs_degraded_since = now }

-- `handleDCSDegraded`
unfoldable pub handle_dcs_degraded : Time → FailsafeKeeper → FailsafeKeeper
unfolding set_failsafe_state
handle_dcs_degraded now p =
    let marked = mark_degraded now p in
    if not marked.failsafe_enabled
    then set_failsafe_state FailsafeState.disabled marked
    else if not (ltb_ℤ (sub_time now marked.dcs_degraded_since) marked.failsafe_ttl)
    then set_failsafe_state FailsafeState.expired marked
    else set_failsafe_state FailsafeState.active marked

-- `handleDCSRecovered`
unfoldable pub handle_dcs_recovered : FailsafeKeeper → FailsafeKeeper
unfolding set_failsafe_state
handle_dcs_recovered p =
    if not p.dcs_degraded
    then p
    else set_failsafe_state
        (if p.failsafe_enabled then FailsafeState.inactive else FailsafeState.disabled)
        (record p { dcs_degraded = false; dcs_degraded_since = 0 })

-- `applyRuntimeConfigFromClusterData`
unfoldable pub apply_runtime_config : DefSpec → FailsafeKeeper → FailsafeKeeper
apply_runtime_config spec p =
    apply_failsafe_runtime_config spec
      (record p { sleep_interval = spec.sleep_interval; request_timeout = spec.request_timeout })

-- The keeper that `NewPostgresKeeper` builds.
abbrev pub new_keeper : FailsafeKeeper
new_keeper = record {
  state = FailsafeState.disabled;
  dcs_degraded_since = 0;
  sleep_interval = (with_defaults empty_spec).sleep_interval;
  request_timeout = (with_defaults empty_spec).request_timeout;
  failsafe_probe_interval = (with_defaults empty_spec).failsafe_probe_interval;
  failsafe_probe_timeout = (with_defaults empty_spec).failsafe_probe_timeout;
  failsafe_ttl = (with_defaults empty_spec).failsafe_ttl;
  failsafe_max_missing_peers = (with_defaults empty_spec).failsafe_max_missing_peers;
  failsafe_enabled = (with_defaults empty_spec).enable_failsafe_mode;
  dcs_degraded = false;
}
