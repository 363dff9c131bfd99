-- ===== src/Keeper/LogicalSlots.antt =====
-- internal/runtime/keeper/replication.go: how far a standby advances its logical replication slots.
pub mod Targets
use hysteron.Base.{
  Text, text_eq, Map, lookup, insert, Bool, true, false, not, Option, some, none, ℕ, List, [], ◌∷◌,
  ◌&&◌, ◌||◌, ◌==◌, leb, if◌then◌else◌, sort_texts,
}
use hysteron.Cluster.Enums.{ReplicationSlotType, Role}
use hysteron.Cluster.Settings.{ManagedLogicalReplicationSlot, ReplicationSlotMatcher}
use hysteron.Cluster.Entities.{Db}
use hysteron.Cluster.SlotChecks.{is_hysteron_name}

pub record LogicalReplicationSlot : Type 0 where
  pub name : Text
  pub database : Text
  pub plugin : Text
  pub confirmed_flush_lsn : ℕ
  pub active : Bool
  pub failover : Bool
  pub synced : Bool

is_empty : {A : Type 0} → List A → Bool
is_empty [] = true
is_empty _ = false

-- A matcher's type that lets logical slots through.
unfoldable pub takes_logical : ReplicationSlotType → Bool
unfolding is_empty
takes_logical ReplicationSlotType.logical = true
takes_logical ReplicationSlotType.physical = false
takes_logical (ReplicationSlotType.unknown t) = is_empty t

-- A matcher without a text matches every one.
unfoldable pub allows : Text → Text → Bool
unfolding is_empty
allows pattern value = is_empty pattern || text_eq pattern value

-- `isIgnoredLogicalSlotByMatcher`, of the parts of a slot that it reads.
unfoldable pub is_ignored_logical_slot_by_matcher :
    Text → Text → Text → List ReplicationSlotMatcher → Bool
is_ignored_logical_slot_by_matcher name database plugin [] = false
is_ignored_logical_slot_by_matcher name database plugin (m ∷ matchers) =
    if takes_logical m.slot_type
      && allows m.name name
      && allows m.database database
      && allows m.plugin plugin
    then true
    else is_ignored_logical_slot_by_matcher name database plugin matchers

-- `computeLogicalSlotAdvanceTarget`
unfoldable pub compute_logical_slot_advance_target : ℕ → ℕ → ℕ → Option ℕ
compute_logical_slot_advance_target desired replay current =
    if desired == 0 || replay == 0
    then none
    else (let target = if leb replay desired then replay else desired in
        if leb target current then none else some target)

pub record LogicalSlotAdvanceOperation : Type 0 where
  pub name : Text
  pub database : Text
  pub target_lsn : ℕ

-- The slots by their names.
unfoldable pub slots_by_name :
    List LogicalReplicationSlot → Map LogicalReplicationSlot → Map LogicalReplicationSlot
slots_by_name [] m = m
slots_by_name (slot ∷ slots) m = slots_by_name slots (insert slot.name slot m)

-- The slot on the standby is the one that is wanted.
unfoldable pub is_same_slot : ManagedLogicalReplicationSlot → LogicalReplicationSlot → Bool
is_same_slot desired current =
    text_eq current.database desired.database && text_eq current.plugin desired.plugin

-- The operation for one wanted slot.
unfoldable pub advance :
    Map LogicalReplicationSlot
    → Map ℕ
    → ℕ
    → List ReplicationSlotMatcher
    → ManagedLogicalReplicationSlot
    → Option LogicalSlotAdvanceOperation
advance by_name master_lsn replay matchers d =
    if is_ignored_logical_slot_by_matcher d.name d.database d.plugin matchers
    then none
    else elim (lookup d.name master_lsn) [
      | none ↦ none
      | some desired ↦ elim (lookup d.name by_name) [
        | none ↦ none
        | some c ↦
            if is_ignored_logical_slot_by_matcher c.name c.database c.plugin matchers
              || not (is_same_slot d c)
            then none
            else elim (compute_logical_slot_advance_target desired replay c.confirmed_flush_lsn) [
              | none ↦ none
              | some target ↦
                  some (record { name = d.name; database = d.database; target_lsn = target })
            ]
      ]
    ]

unfoldable pub advance_all :
    Map LogicalReplicationSlot
    → Map ℕ
    → ℕ
    → List ReplicationSlotMatcher
    → List ManagedLogicalReplicationSlot
    → List LogicalSlotAdvanceOperation
advance_all by_name master_lsn replay matchers [] = []
advance_all by_name master_lsn replay matchers (d ∷ desired) =
    let rest = advance_all by_name master_lsn replay matchers desired in
    elim (advance by_name master_lsn replay matchers d) [ none ↦ rest | some op ↦ op ∷ rest ]

-- `evaluateManagedLogicalSlotAdvanceOperations`
unfoldable pub evaluate_managed_logical_slot_advance_operations :
    List ManagedLogicalReplicationSlot
    → List LogicalReplicationSlot
    → Map ℕ
    → ℕ
    → List ReplicationSlotMatcher
    → List LogicalSlotAdvanceOperation
unfolding is_empty
evaluate_managed_logical_slot_advance_operations desired current master_lsn replay matchers =
    if is_empty desired || is_empty current || is_empty master_lsn || replay == 0
    then []
    else advance_all (slots_by_name current []) master_lsn replay matchers desired

abbrev is_master : Role → Bool
is_master Role.master = true
is_master _ = false

-- `masterManagedLogicalSlotLSN`; a nil map is an empty one here.
unfoldable pub master_managed_logical_slot_lsn : List Db → Map ℕ
master_managed_logical_slot_lsn [] = []
master_managed_logical_slot_lsn (db ∷ dbs) =
    if is_master db.spec.role
    then db.status.managed_logical_slots
    else master_managed_logical_slot_lsn dbs
