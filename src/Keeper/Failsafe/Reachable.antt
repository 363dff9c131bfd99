-- ===== src/Keeper/Failsafe/Reachable.antt =====
-- The failsafe mode over a run of polls: from the start of the keeper, any sequence of polls that
-- fail, polls that succeed, and configurations that a successful poll applies.
use hysteron.Base.{
  true, false, ◌≤◌, ◌≡◌, refl, ◌⊎◌, inl, inr, arith, Bool-cases, Time, ltb_ℤ, sub_time,
}
use hysteron.Cluster.Spec.{DefSpec, with_defaults}
use hysteron.Keeper.Failsafe.{
  FailsafeState, FailsafeKeeper, mark_degraded, handle_dcs_degraded, handle_dcs_recovered,
  apply_runtime_config, apply_failsafe_runtime_config, set_failsafe_state, new_keeper,
}

-- The keeper after a run whose last poll was at `now`, `down` telling since when every poll has
-- failed.
pub data Down : Type 0 where
  up : Down
  since : Time → Down

pub data Reach : Time → Down → FailsafeKeeper → Type 0 where
  started : Reach 0 Down.up new_keeper
  first_failure :
      (earlier now : Time) (p : FailsafeKeeper)
      → Reach earlier Down.up p
      → earlier ≤ now
      → Reach now (Down.since now) (handle_dcs_degraded now p)
  next_failure :
      (earlier now t : Time) (p : FailsafeKeeper)
      → Reach earlier (Down.since t) p
      → earlier ≤ now
      → Reach now (Down.since t) (handle_dcs_degraded now p)
  recovered :
      (earlier now : Time) (d : Down) (p : FailsafeKeeper)
      → Reach earlier d p
      → earlier ≤ now
      → Reach now Down.up (handle_dcs_recovered p)
  configured :
      (now : Time) (spec : DefSpec) (p : FailsafeKeeper)
      → Reach now Down.up p
      → Reach now Down.up (apply_runtime_config spec p)

-- Active only within the time to live of the first failure, and expired only after it.
pub record WithinTtl (now : Time) (d : Down) (p : FailsafeKeeper) : Type 0 where
  pub while_up : d ≡ Down.up → p.dcs_degraded ≡ false
  pub while_down :
      (t : Time) → d ≡ Down.since t → (p.dcs_degraded ≡ true) × (p.dcs_degraded_since ≡ t)
  pub active :
      p.state ≡ FailsafeState.active
      → (t : Time) × (d ≡ Down.since t) × (ltb_ℤ (sub_time now t) p.failsafe_ttl ≡ true)
  pub expired :
      p.state ≡ FailsafeState.expired
      → (t : Time) × (d ≡ Down.since t) × (ltb_ℤ (sub_time now t) p.failsafe_ttl ≡ false)
  pub disabled : (p.failsafe_enabled ≡ false) → p.state ≡ FailsafeState.disabled

failure_lem :
    (now t : Time) (p : FailsafeKeeper)
    → ((p.dcs_degraded ≡ false) × (t ≡ now))
      ⊎ ((p.dcs_degraded ≡ true) × (p.dcs_degraded_since ≡ t))
    → WithinTtl now (Down.since t) (handle_dcs_degraded now p)
unfolding handle_dcs_degraded mark_degraded set_failsafe_state
failure_lem now t p h = record {
  while_up = λ e. ground arith;
  while_down = λ u e. ground arith;
  active = λ e. (t, refl, ground arith);
  expired = λ e. (t, refl, ground arith);
  disabled = λ e. ground arith;
}

recovery_lem :
    (now earlier : Time) (d : Down) (p : FailsafeKeeper)
    → WithinTtl earlier d p
    → WithinTtl now Down.up (handle_dcs_recovered p)
unfolding handle_dcs_recovered set_failsafe_state
recovery_lem now earlier d p w = elim (Bool-cases p.dcs_degraded) [
  | inl degraded ↦ record {
    while_up = λ e. ground arith;
    while_down = λ u e. cc;
    active = λ e. ground arith;
    expired = λ e. ground arith;
    disabled = λ e. ground arith;
  }
  | inr fine ↦ record {
    while_up = λ e. ground arith;
    while_down = λ u e. cc;
    active = λ e.
        let was : p.state ≡ FailsafeState.active = ground arith in
        let (t, down, _) = w.active was in let degraded = (w.while_down t down).0 in ground arith;
    expired = λ e.
        let was : p.state ≡ FailsafeState.expired = ground arith in
        let (t, down, _) = w.expired was in let degraded = (w.while_down t down).0 in ground arith;
    disabled = λ e. ground (arith, w.disabled);
  }
]

configuration_lem :
    (now : Time) (spec : DefSpec) (p : FailsafeKeeper)
    → WithinTtl now Down.up p
    → WithinTtl now Down.up (apply_runtime_config spec p)
unfolding apply_runtime_config apply_failsafe_runtime_config set_failsafe_state
configuration_lem now spec p w = record {
  while_up = λ e. ground (arith, w.while_up refl);
  while_down = λ u e. cc;
  active = λ e. ground arith;
  expired = λ e. ground arith;
  disabled = λ e. ground arith;
}

-- After any run of polls and configurations from the start of the keeper, the failsafe mode is
-- active only while every poll since some instant has failed and the time to live since the first
-- of these failures is not over, and it is expired only where that time is over; a keeper with the
-- mode turned off is in the state `disabled`.
pub Reach-WithinTtl :
    (now : Time) (d : Down) (p : FailsafeKeeper) → Reach now d p → WithinTtl now d p
unfolding with_defaults
Reach-WithinTtl _ _ _ Reach.started = record {
  while_up = λ e. refl;
  while_down = λ u e. cc;
  active = λ e. ground arith;
  expired = λ e. ground arith;
  disabled = λ e. refl;
}
Reach-WithinTtl _ _ _ (Reach.first_failure earlier now q r le) =
    failure_lem now now q (inl ((Reach-WithinTtl earlier Down.up q r).while_up refl, refl))
Reach-WithinTtl _ _ _ (Reach.next_failure earlier now t q r le) =
    failure_lem now t q (inr ((Reach-WithinTtl earlier (Down.since t) q r).while_down t refl))
Reach-WithinTtl _ _ _ (Reach.recovered earlier now e q r le) =
    recovery_lem now earlier e q (Reach-WithinTtl earlier e q r)
Reach-WithinTtl _ _ _ (Reach.configured now spec q r) =
    configuration_lem now spec q (Reach-WithinTtl now Down.up q r)
