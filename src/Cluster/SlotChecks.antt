-- ===== src/Cluster/SlotChecks.antt =====
-- internal/cluster/validate.go: the checks of a specification on replication slots.
use hysteron.Base.{
  Text, text, text_eq, Map, lookup, elems, Bool, true, false, not, Option, some, none, ℕ, List, [],
  ◌∷◌, ◌&&◌, ◌||◌, Duration, leb, ◌==◌, if◌then◌else◌,
}
use hysteron.Utils.Strings.{is_empty, trim_space, to_lower, has_prefix}
use hysteron.Utils.Slices.{contains}
use hysteron.Cluster.Enums.{ReplicationSlotType}
use hysteron.Cluster.Settings.{ReplicationSlotMatcher, ManagedLogicalReplicationSlot}
use hysteron.Cluster.Spec.{DefSpec}
use hysteron.Cluster.Checks.{
  SpecError, ◌orelse◌, reject_if, non_negative, validate_each, unknown_value, wrong_slot_name,
  reserved_slot_name, duplicated_slot_name, slot_without_database, slot_without_plugin,
  physical_matcher_with_database, matcher_must_be_logical, empty_matcher, wal_level_not_logical,
  no_managed_logical_slots, hot_standby_feedback_off,
}

-- `IsValidReplSlotName`, the expression ^[a-z0-9_]+$.
abbrev pub is_slot_char : ℕ → Bool
is_slot_char c = (leb b'a' c && leb c b'z') || (leb b'0' c && leb c b'9') || c == b'_'

unfoldable pub all_slot_chars : Text → Bool
all_slot_chars [] = true
all_slot_chars (c ∷ s) = is_slot_char c && all_slot_chars s

unfoldable pub is_valid_repl_slot_name : Text → Bool
unfolding all_slot_chars
is_valid_repl_slot_name name = not (is_empty name) && all_slot_chars name

-- `IsHysteronName`
unfoldable pub is_hysteron_name : Text → Bool
unfolding has_prefix
is_hysteron_name name = has_prefix name (text "hysteron_")

-- `validateReplicationSlotName`
unfoldable pub validate_replication_slot_name : Text → Option SpecError
validate_replication_slot_name slot =
    reject_if (not (is_valid_repl_slot_name slot)) (wrong_slot_name slot)

-- `validateReplicationSlot`
unfoldable pub validate_replication_slot : Text → Option SpecError
validate_replication_slot slot =
    validate_replication_slot_name slot
    orelse reject_if (is_hysteron_name slot) (reserved_slot_name slot)

unfoldable pub validate_matcher_type : ReplicationSlotType → Option SpecError
validate_matcher_type (ReplicationSlotType.unknown t) =
    reject_if (not (is_empty t)) (unknown_value (text "type"))
validate_matcher_type _ = none

abbrev is_physical : ReplicationSlotType → Bool
is_physical ReplicationSlotType.physical = true
is_physical _ = false

abbrev is_logical : ReplicationSlotType → Bool
is_logical ReplicationSlotType.logical = true
is_logical _ = false

-- `matcher.Type == ""`
abbrev is_untyped : ReplicationSlotType → Bool
is_untyped (ReplicationSlotType.unknown t) = is_empty t
is_untyped _ = false

-- `validateReplicationSlotMatcher`
unfoldable pub validate_replication_slot_matcher : ReplicationSlotMatcher → Option SpecError
validate_replication_slot_matcher m =
    let located = not (is_empty (trim_space m.database)) || not (is_empty (trim_space m.plugin)) in
    (if is_empty m.name then none else validate_replication_slot_name m.name)
    orelse validate_matcher_type m.slot_type
    orelse reject_if (is_physical m.slot_type && located) physical_matcher_with_database
    orelse reject_if (located && not (is_untyped m.slot_type) && not (is_logical m.slot_type))
        matcher_must_be_logical
    orelse reject_if (is_empty m.name && is_untyped m.slot_type && not located) empty_matcher

-- The loop over the managed logical slots, which remembers the names that it has seen.
unfoldable pub validate_logical_slots :
    List Text → List ManagedLogicalReplicationSlot → Option SpecError
validate_logical_slots seen [] = none
validate_logical_slots seen (slot ∷ slots) =
    validate_replication_slot_name slot.name
    orelse reject_if (contains seen slot.name) (duplicated_slot_name slot.name)
    orelse reject_if (is_empty (trim_space slot.database)) (slot_without_database slot.name)
    orelse reject_if (is_empty (trim_space slot.plugin)) (slot_without_plugin slot.name)
    orelse validate_logical_slots (slot.name ∷ seen) slots

-- `s.PGParameters[name]`, trimmed and in lower case.
unfoldable pub parameter : Text → Map Text → Text
parameter name ps = elim (lookup name ps) [ none ↦ [] | some v ↦ to_lower (trim_space v) ]

unfoldable pub is_enabled : Text → Bool
is_enabled v = text_eq v (text "on") || text_eq v (text "true") || text_eq v (text "1")

-- The value of `hot_standby_feedback`, where there is one.
unfoldable pub validate_feedback : Map Text → Option SpecError
validate_feedback ps = elim (lookup (text "hot_standby_feedback") ps) [
  | none ↦ none
  | some raw ↦ reject_if (not (is_enabled (to_lower (trim_space raw)))) hot_standby_feedback_off
]

unfoldable pub validate_ttl : Option Duration → Option SpecError
validate_ttl none = none
validate_ttl (some ttl) = non_negative ((text "memberReplicationSlotTTL", ttl) ∷ [])

-- The replication slots of `Validate`.
unfoldable pub validate_slots : DefSpec → Option SpecError
validate_slots s =
    let slots = elems s.managed_logical_replication_slots in
    let parameters = elems s.pg_parameters in
    validate_each validate_replication_slot (elems s.additional_master_replication_slots)
    orelse validate_each validate_replication_slot_name (elems s.ignore_master_replication_slots)
    orelse validate_each validate_replication_slot_matcher
        (elems s.ignore_master_replication_slot_matchers)
    orelse validate_ttl s.member_replication_slot_ttl
    orelse validate_logical_slots [] slots
    orelse reject_if
        (not (is_empty slots)
          && not (text_eq (parameter (text "wal_level") parameters) (text "logical")))
        wal_level_not_logical
    orelse reject_if (s.enable_logical_slot_failover && is_empty slots) no_managed_logical_slots
    orelse (if s.enable_logical_slot_failover then validate_feedback parameters else none)
