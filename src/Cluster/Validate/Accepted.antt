-- ===== src/Cluster/Validate/Accepted.antt =====
-- What is true of a specification that `Validate` accepts.
use hysteron.Base.{
  text, ltb, Text, elems, false, Option, some, none, List, [], ◌∷◌, ◌≡◌, ◌≢◌, refl, arith, inl, inr,
  ◌⊎◌, All, ◌≤◌, map, Duration,
}
use hysteron.Cluster.Enums.{ClusterRole, ClusterInitMode}
use hysteron.Cluster.Settings.{StandbyConfig, ManagedLogicalReplicationSlot}
use hysteron.Cluster.Spec.{ClusterSpec, DefSpec, with_defaults}
use hysteron.Cluster.Checks.{
  SpecError, reject_if, must_be_at_least_one, reserved_slot_name, standby_with_new,
  validate_standbys, validate_each,
}
use hysteron.Cluster.SlotChecks.{
  validate_ttl, validate_replication_slot_matcher, validate_slots, validate_logical_slots,
  validate_replication_slot, validate_replication_slot_name, is_hysteron_name,
}
use hysteron.Cluster.Validate.Durations.{
  NonNegative, Ordered, validate_durations-Ordered, non_negative-All,
}
use hysteron.Cluster.Validate.SlotNames.{
  SlotName, Distinct, validate_each-All, validate_logical_slots-Distinct,
  validate_replication_slot_name-SlotName,
}
use hysteron.Cluster.Validate.{validate, validate_init_mode, validate_role, is_standby_cluster}
use hysteron.Cluster.Validate.Parts.{validate-Passes, orelse-eq-none, reject_if-eq-none}

-- The role, with what it needs.
abbrev pub Runnable : DefSpec → Type 0
Runnable s =
    (s.role ≡ ClusterRole.master)
    ⊎ ((s.role ≡ ClusterRole.standby)
        × ((config : StandbyConfig) × (s.standby_config ≡ some config))
        × (s.init_mode ≢ some ClusterInitMode.fresh))

abbrev pub names : List ManagedLogicalReplicationSlot → List Text
names slots = map (λ slot. slot.name) slots

abbrev pub given : Option Duration → List Duration
given none = []
given (some d) = d ∷ []

pub record IsSound (s : DefSpec) : Type 0 where
  pub ordered : Ordered s
  pub slot_ttl : All NonNegative (given s.member_replication_slot_ttl)
  pub standbys : 1 ≤ s.max_standbys
  pub per_sender : 1 ≤ s.max_standbys_per_sender
  pub synchronous : 1 ≤ s.max_synchronous_standbys
  pub enough : s.min_synchronous_standbys ≤ s.max_synchronous_standbys
  pub runnable : Runnable s
  pub slots :
      All
        (λ name. SlotName name × (is_hysteron_name name ≡ false))
        (elems s.additional_master_replication_slots)
  pub distinct : Distinct (names (elems s.managed_logical_replication_slots))

-- The mode of initialisation does not fit the role.
abbrev mode_error : ClusterRole → ClusterInitMode → Option SpecError
mode_error r ClusterInitMode.fresh = reject_if (is_standby_cluster r) standby_with_new
mode_error r _ = none

validate_init_mode-role :
    (s : DefSpec) (mode : ClusterInitMode)
    → validate_init_mode s mode ≡ none
    → mode_error s.role mode ≡ none
unfolding validate_init_mode
validate_init_mode-role s ClusterInitMode.fresh h = h
validate_init_mode-role s ClusterInitMode.pitr h = refl
validate_init_mode-role s ClusterInitMode.existing h = refl
validate_init_mode-role s (ClusterInitMode.unknown m) h = refl

validate_role-Runnable :
    (s : DefSpec) (mode : ClusterInitMode)
    → s.init_mode ≡ some mode
    → mode_error s.role mode ≡ none
    → validate_role s.role s.standby_config ≡ none
    → Runnable s
unfolding validate_role
validate_role-Runnable s mode e known h = go s.role s.standby_config mode e known h
  where
    go :
        (r : ClusterRole) (c : Option StandbyConfig) (mode : ClusterInitMode)
        → s.init_mode ≡ some mode
        → mode_error r mode ≡ none
        → validate_role r c ≡ none
        → (r ≡ ClusterRole.master)
          ⊎ ((r ≡ ClusterRole.standby)
              × ((config : StandbyConfig) × (c ≡ some config))
              × (s.init_mode ≢ some ClusterInitMode.fresh))
    go ClusterRole.master c mode e known h = inl refl
    go ClusterRole.standby none mode e known h = cc
    go ClusterRole.standby (some config) ClusterInitMode.fresh e known h = cc
    go ClusterRole.standby (some config) ClusterInitMode.pitr e known h =
        inr (refl, (config, refl), λ k. cc)
    go ClusterRole.standby (some config) ClusterInitMode.existing e known h =
        inr (refl, (config, refl), λ k. cc)
    go ClusterRole.standby (some config) (ClusterInitMode.unknown m) e known h =
        inr (refl, (config, refl), λ k. cc)
    go (ClusterRole.unknown r) c mode e known h = cc

names-All :
    (slots : List Text)
    → All (λ slot. validate_replication_slot slot ≡ none) slots
    → All (λ name. SlotName name × (is_hysteron_name name ≡ false)) slots
unfolding validate_replication_slot
names-All [] h = tt
names-All (slot ∷ slots) (first, rest) =
    let (name, free) = orelse-eq-none (validate_replication_slot_name slot) _ first in
    (
      (
        validate_replication_slot_name-SlotName slot name,
        reject_if-eq-none (is_hysteron_name slot) (reserved_slot_name slot) free,
      ),
      names-All slots rest,
    )

validate_ttl-NonNegative :
    (ttl : Option Duration) → validate_ttl ttl ≡ none → All NonNegative (given ttl)
unfolding validate_ttl
validate_ttl-NonNegative none h = tt
validate_ttl-NonNegative (some ttl) h = non_negative-All _ h

validate_slots-Names :
    (s : DefSpec)
    → validate_slots s ≡ none
    → All
        (λ name. SlotName name × (is_hysteron_name name ≡ false))
        (elems s.additional_master_replication_slots)
      × All NonNegative (given s.member_replication_slot_ttl)
      × Distinct (names (elems s.managed_logical_replication_slots))
unfolding validate_slots
validate_slots-Names s h =
    let additional = elems s.additional_master_replication_slots in
    let slots = elems s.managed_logical_replication_slots in
    let (h0, r0) = orelse-eq-none (validate_each validate_replication_slot additional) _ h in
    let (h1, r1) =
      orelse-eq-none
        (validate_each validate_replication_slot_name (elems s.ignore_master_replication_slots)) _
        r0 in
    let (h2, r2) =
      orelse-eq-none
        (validate_each validate_replication_slot_matcher
          (elems s.ignore_master_replication_slot_matchers))
        _ r1 in
    let (h3, r3) = orelse-eq-none (validate_ttl s.member_replication_slot_ttl) _ r2 in
    let (h4, _) = orelse-eq-none (validate_logical_slots [] slots) _ r3 in
    (
      names-All additional (validate_each-All validate_replication_slot additional h0),
      validate_ttl-NonNegative s.member_replication_slot_ttl h3,
      (validate_logical_slots-Distinct [] slots h4).0,
    )

-- A specification that `Validate` accepts is sound: its intervals, its timeouts and the time to live
-- of the members' slots are not negative and ordered as the failsafe mode and the proxies need, it
-- allows at least one standby, in all and at a sender, the numbers of synchronous standbys are in order, its role has what it needs, the additional slots have names of PostgreSQL
-- that are not Hysteron's own, and no managed logical slot stands there twice.
pub validate-IsSound : (spec : ClusterSpec) → validate spec ≡ none → IsSound (with_defaults spec)
unfolding validate_standbys
validate-IsSound spec h =
    let s = with_defaults spec in
    let p = validate-Passes spec h in
    let (h1, r1) =
      orelse-eq-none (reject_if (ltb s.max_standbys 1) (must_be_at_least_one (text "maxStandbys")))
        _ p.standbys in
    let (slots, slot_ttl, distinct) = validate_slots-Names s p.slots in
    (record {
      ordered = validate_durations-Ordered s p.durations;
      slot_ttl = slot_ttl;
      standbys = ground arith;
      per_sender = ground (arith, p.standbys);
      synchronous = ground (arith, p.standbys);
      enough = ground (arith, p.standbys);
      runnable =
          validate_role-Runnable s p.mode p.init_mode
            (validate_init_mode-role s p.mode p.known_mode) p.role;
      slots = slots;
      distinct = distinct;
    })
