-- ===== src/Examples/Specs.antt =====
-- The theorems on specifications, applied to concrete ones.
use hysteron.Base.{
  some, none, text, text_eq, lookup, add_duration, wrap_int64, true, ◌≡◌, refl, ◌≤◌, ◌+◌, ◌*◌,
  pos_part, arith,
}
use hysteron.Cluster.Spec.{ClusterSpec, with_defaults}
use hysteron.Cluster.Document.{Cluster}
use hysteron.Cluster.Checks.{
  validate_durations, validate_intervals, validate_failsafe, validate_proxy_timing,
  validate_ha_timing, non_negative, validate_standbys, validate_tls_mode, validate_each,
}
use hysteron.Cluster.SlotChecks.{validate_slots, validate_ttl, validate_logical_slots}
use hysteron.Cluster.Validate.{
  validate_mode, validate_with_mode, validate_init_mode, validate_access_mode, validate_role,
  update_spec, replace_spec, same_init_mode, validate, is_valid, update_spec, updated, new_cluster,
}
use hysteron.Cluster.Validate.Accepted.{IsSound, validate-IsSound}
use hysteron.Cluster.Validate.Durations.{validate-Fits}
use hysteron.Cluster.Validate.Updates.{here, next, Keeps, Updates-Keeps}
use hysteron.Examples.World.{fresh_spec}

fresh_spec_accepted : validate fresh_spec ≡ none
unfolding validate validate_durations validate_intervals validate_failsafe validate_proxy_timing
    validate_ha_timing non_negative with_defaults add_duration wrap_int64 validate_standbys
    validate_tls_mode validate_mode validate_with_mode validate_slots validate_each validate_ttl
    validate_logical_slots lookup text_eq validate_init_mode validate_access_mode validate_role
fresh_spec_accepted = refl

pub fresh_spec_valid : is_valid fresh_spec ≡ true
unfolding is_valid
fresh_spec_valid = rw (fresh_spec_accepted, is_valid) refl

validate-IsSound_example : IsSound (with_defaults fresh_spec)
validate-IsSound_example = validate-IsSound fresh_spec fresh_spec_accepted

validate-Fits_example :
    pos_part (with_defaults fresh_spec).sleep_interval
      + 2 * pos_part (with_defaults fresh_spec).request_timeout
    ≤ pos_part (with_defaults fresh_spec).fail_interval
validate-Fits_example =
    validate-Fits fresh_spec fresh_spec_accepted (unfold with_defaults in omega arith)

-- The cluster, and the same one with another number of standbys.
abbrev first_cluster : Cluster
first_cluster = new_cluster (text "c") fresh_spec 5

abbrev wider_spec : ClusterSpec
wider_spec = record fresh_spec { max_standbys = some 30 }

wider_spec_accepted : validate wider_spec ≡ none
unfolding validate validate_durations validate_intervals validate_failsafe validate_proxy_timing
    validate_ha_timing non_negative with_defaults add_duration wrap_int64 validate_standbys
    validate_tls_mode validate_mode validate_with_mode validate_slots validate_each validate_ttl
    validate_logical_slots lookup text_eq validate_init_mode validate_access_mode validate_role
wider_spec_accepted = refl

widened :
    update_spec first_cluster wider_spec ≡ updated (record first_cluster { spec = wider_spec })
unfolding update_spec replace_spec same_init_mode with_defaults
widened = rw (wider_spec_accepted, update_spec) refl

Updates-Keeps_example : Keeps first_cluster (record first_cluster { spec = wider_spec })
Updates-Keeps_example = Updates-Keeps first_cluster (next wider_spec here widened)
