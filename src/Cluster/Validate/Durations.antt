-- ===== src/Cluster/Validate/Durations.antt =====
-- The order of the intervals and timeouts of an accepted specification.
use hysteron.Base.{
  Text, false, none, List, [], ◌∷◌, ◌≡◌, refl, arith, All, ◌≤◌, ◌<◌, ◌+◌, ◌*◌, ◌^◌, pos_part,
  neg_part, Duration, add_duration, wrap_int64, ltb_ℤ, leb_ℤ, pos, negsuc,
}
use hysteron.Cluster.Spec.{ClusterSpec, DefSpec, with_defaults}
use hysteron.Cluster.Checks.{
  reject_if, must_be_positive, non_negative, validate_ha_timing, validate_durations,
  interval_fields, proxy_fields, validate_intervals, validate_failsafe, validate_proxy_timing,
  probe_timeout_over_interval, ttl_under_probe_interval, check_interval_not_under_timeout,
}
use hysteron.Cluster.Validate.{validate}
use hysteron.Cluster.Validate.Parts.{validate-Passes, orelse-eq-none, reject_if-eq-none}

abbrev pub NonNegative : Duration → Type 0
NonNegative d = neg_part d ≡ 0

-- Every interval and timeout is at least zero, and their order is right.
pub record Ordered (s : DefSpec) : Type 0 where
  pub sleep_interval : NonNegative s.sleep_interval
  pub request_timeout : NonNegative s.request_timeout
  pub convergence_timeout : NonNegative s.convergence_timeout
  pub init_timeout : NonNegative s.init_timeout
  pub sync_timeout : NonNegative s.sync_timeout
  pub db_wait_ready_timeout : NonNegative s.db_wait_ready_timeout
  pub fail_interval : NonNegative s.fail_interval
  pub auto_failback_min_uptime : NonNegative s.auto_failback_min_uptime
  pub auto_failback_cooldown : NonNegative s.auto_failback_cooldown
  pub failsafe_probe_interval : NonNegative s.failsafe_probe_interval
  pub failsafe_probe_timeout : NonNegative s.failsafe_probe_timeout
  pub failsafe_ttl : NonNegative s.failsafe_ttl
  pub dead_keeper_removal_interval : NonNegative s.dead_keeper_removal_interval
  pub proxy_check_interval : NonNegative s.proxy_check_interval
  pub proxy_timeout : NonNegative s.proxy_timeout
  pub failsafe_probe : pos_part s.failsafe_probe_timeout ≤ pos_part s.failsafe_probe_interval
  pub failsafe_expiry : pos_part s.failsafe_probe_interval ≤ pos_part s.failsafe_ttl
  pub proxy : pos_part s.proxy_check_interval < pos_part s.proxy_timeout

pub non_negative-All :
    (fields : List (Text × Duration))
    → non_negative fields ≡ none
    → All (λ f. NonNegative f.1) fields
unfolding non_negative
non_negative-All [] h = tt
non_negative-All ((field, d) ∷ fields) h =
    let (ok, rest) = orelse-eq-none (reject_if (ltb_ℤ d (pos 0)) (must_be_positive field)) _ h in
    (
      sign d (reject_if-eq-none (ltb_ℤ d (pos 0)) (must_be_positive field) ok),
      non_negative-All fields rest,
    )
  where
    sign : (d : Duration) → ltb_ℤ d (pos 0) ≡ false → NonNegative d
    sign (pos n) e = refl
    sign (negsuc n) e = absurd (ground arith)

pub validate_durations-Ordered : (s : DefSpec) → validate_durations s ≡ none → Ordered s
unfolding validate_durations validate_intervals validate_failsafe validate_proxy_timing
validate_durations-Ordered s h =
    let (intervals, h1) = orelse-eq-none (validate_intervals s) _ h in
    let (failsafe, h2) = orelse-eq-none (validate_failsafe s) _ h1 in
    let (proxy, _) = orelse-eq-none (validate_proxy_timing s) _ h2 in
    let (limits, check) = orelse-eq-none (non_negative (proxy_fields s)) _ proxy in
    let (probe, ttl) =
      orelse-eq-none
        (reject_if (ltb_ℤ s.failsafe_probe_interval s.failsafe_probe_timeout)
          probe_timeout_over_interval)
        _ failsafe in
    let fields = non_negative-All (interval_fields s) intervals in
    let proxies = non_negative-All (proxy_fields s) limits in
    let (f0, (f1, (f2, (f3, (f4, (f5, (f6, (f7, (f8, (f9, (f10, (f11, _)))))))))))) = fields in
    let (p0, (p1, (p2, _))) = proxies in
    (record {
      sleep_interval = f0;
      request_timeout = f1;
      convergence_timeout = f2;
      init_timeout = f3;
      sync_timeout = f4;
      db_wait_ready_timeout = f5;
      fail_interval = f6;
      auto_failback_min_uptime = f7;
      auto_failback_cooldown = f8;
      failsafe_probe_interval = f9;
      failsafe_probe_timeout = f10;
      failsafe_ttl = f11;
      dead_keeper_removal_interval = p0;
      proxy_check_interval = p1;
      proxy_timeout = p2;
      failsafe_probe =
          no_less s.failsafe_probe_interval s.failsafe_probe_timeout f9 f10
            (reject_if-eq-none _ probe_timeout_over_interval probe);
      failsafe_expiry =
          no_less s.failsafe_ttl s.failsafe_probe_interval f11 f9
            (reject_if-eq-none _ ttl_under_probe_interval ttl);
      proxy =
          less s.proxy_timeout s.proxy_check_interval p2 p1
            (reject_if-eq-none _ check_interval_not_under_timeout check);
    })
  where
    no_less :
        (a b : Duration)
        → NonNegative a
        → NonNegative b
        → ltb_ℤ a b ≡ false
        → pos_part b ≤ pos_part a
    no_less a b x y e = ground arith

    less :
        (a b : Duration)
        → NonNegative a
        → NonNegative b
        → leb_ℤ a b ≡ false
        → pos_part b < pos_part a
    less a b x y e = ground arith

-- Where the sum does not leave int64, the time of a round with two requests is within the fail
-- interval.
pub validate_ha_timing-Fits :
    (sleep_interval request_timeout fail_interval : Duration)
    → NonNegative sleep_interval
    → NonNegative request_timeout
    → NonNegative fail_interval
    → pos_part sleep_interval + 2 * pos_part request_timeout < 2 ^ 63
    → validate_ha_timing sleep_interval request_timeout fail_interval ≡ none
    → pos_part sleep_interval + 2 * pos_part request_timeout ≤ pos_part fail_interval
unfolding validate_ha_timing add_duration wrap_int64
validate_ha_timing-Fits (pos a) (pos b) (pos c) x y z small h = ground arith
validate_ha_timing-Fits (negsuc a) b c x y z small h = absurd (omega arith)
validate_ha_timing-Fits (pos a) (negsuc b) c x y z small h = absurd (omega arith)
validate_ha_timing-Fits (pos a) (pos b) (negsuc c) x y z small h = absurd (omega arith)

-- Where sleepInterval + 2 * requestTimeout stays within an int64, a specification that `Validate`
-- accepts has that sum within failInterval.
pub validate-Fits :
    (spec : ClusterSpec)
    → validate spec ≡ none
    → let s = with_defaults spec in
      let round = pos_part s.sleep_interval + 2 * pos_part s.request_timeout in
      round < 2 ^ 63 → round ≤ pos_part s.fail_interval
unfolding validate_durations
validate-Fits spec h small =
    let s = with_defaults spec in
    let durations = (validate-Passes spec h).durations in
    let o = validate_durations-Ordered s durations in
    let (_, h1) = orelse-eq-none (validate_intervals s) _ durations in
    let (_, h2) = orelse-eq-none (validate_failsafe s) _ h1 in
    let (_, timing) = orelse-eq-none (validate_proxy_timing s) _ h2 in
    validate_ha_timing-Fits s.sleep_interval s.request_timeout s.fail_interval o.sleep_interval
      o.request_timeout o.fail_interval small timing
