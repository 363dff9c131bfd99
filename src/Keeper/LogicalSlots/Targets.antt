-- ===== src/Keeper/LogicalSlots/Targets.antt =====
-- How far `evaluateManagedLogicalSlotAdvanceOperations` of internal/runtime/keeper/replication.go
-- lets a standby advance.
use mathlib.Core.Path.{subst}
use hysteron.Base.{
  ◌||◌, ◌==◌, Text, text_eq, text_eq_iff, Map, lookup, lookup-insert, insert, true, some, none, ℕ,
  ◌<◌, ◌≤◌, List, [], ◌∷◌, ◌≡◌, refl, ◌⊎◌, inl, inr, arith, Member, All, Bool-cases, Option-cases,
}
use hysteron.Cluster.Settings.{ManagedLogicalReplicationSlot, ReplicationSlotMatcher}
use hysteron.Keeper.LogicalSlots.{
  is_empty, LogicalReplicationSlot, LogicalSlotAdvanceOperation,
  compute_logical_slot_advance_target, is_same_slot, slots_by_name, advance, advance_all,
  evaluate_managed_logical_slot_advance_operations,
}

-- The operation advances a slot that the standby has, beyond where it is, and neither beyond what
-- the standby has replayed nor beyond the slot of the master.
pub record IsWithin (current : List LogicalReplicationSlot) (master_lsn : Map ℕ) (replay : ℕ)
    (op : LogicalSlotAdvanceOperation) : Type 0 where
  pub slot : LogicalReplicationSlot
  pub present : Member slot current
  pub same_name : slot.name ≡ op.name
  pub same_database : slot.database ≡ op.database
  pub forward : slot.confirmed_flush_lsn < op.target_lsn
  pub replayed : op.target_lsn ≤ replay
  pub master : ℕ
  pub known : lookup op.name master_lsn ≡ some master
  pub behind_master : op.target_lsn ≤ master

-- What is found by its name is a slot of the list, of that name.
lookup-slots_by_name :
    (slots : List LogicalReplicationSlot) (m : Map LogicalReplicationSlot) (name : Text)
    {slot : LogicalReplicationSlot}
    → lookup name (slots_by_name slots m) ≡ some slot
    → (Member slot slots × (slot.name ≡ name)) ⊎ (lookup name m ≡ some slot)
unfolding slots_by_name
lookup-slots_by_name [] m name h = inr h
lookup-slots_by_name (s ∷ slots) m name {slot} h =
    elim (lookup-slots_by_name slots (insert s.name s m) name {slot = slot} h) [
      | inl (later, named) ↦ inl (inr later, named)
      | inr before ↦ elim (Bool-cases (text_eq s.name name)) [
        | inl here ↦
            let it : slot ≡ s = ground (arith, lookup-insert s.name name s m) in
            inl (inl it, rw it ((text_eq_iff s.name name).0 here))
        | inr other ↦ inr (ground (arith, lookup-insert s.name name s m))
      ]
    ]

target_within :
    (desired replay current target : ℕ)
    → compute_logical_slot_advance_target desired replay current ≡ some target
    → (current < target) × (target ≤ replay) × (target ≤ desired)
unfolding compute_logical_slot_advance_target
target_within desired replay current target h = (ground arith, ground arith, ground arith)

lookup-nil : (name : Text) {c : LogicalReplicationSlot} → lookup name [] ≡ some c → ⊥
unfolding lookup
lookup-nil name h = cc

module _ (by_name : Map LogicalReplicationSlot) (master_lsn : Map ℕ) (replay : ℕ)
    (matchers : List ReplicationSlotMatcher) (d : ManagedLogicalReplicationSlot)
    (desired : List ManagedLogicalReplicationSlot) where
  advance_all-none :
      advance by_name master_lsn replay matchers d ≡ none
      → advance_all by_name master_lsn replay matchers (d ∷ desired)
        ≡ advance_all by_name master_lsn replay matchers desired
  unfolding advance_all
  advance_all-none h = rw (h, advance_all) refl

  advance_all-some :
      (op : LogicalSlotAdvanceOperation)
      → advance by_name master_lsn replay matchers d ≡ some op
      → advance_all by_name master_lsn replay matchers (d ∷ desired)
        ≡ op ∷ advance_all by_name master_lsn replay matchers desired
  unfolding advance_all
  advance_all-some op h = rw (h, advance_all) refl

module _ (current : List LogicalReplicationSlot) (master_lsn : Map ℕ) (replay : ℕ)
    (matchers : List ReplicationSlotMatcher) where
  advance-IsWithin :
      (d : ManagedLogicalReplicationSlot) (op : LogicalSlotAdvanceOperation)
      → advance (slots_by_name current []) master_lsn replay matchers d ≡ some op
      → IsWithin current master_lsn replay op
  unfolding advance is_same_slot
  advance-IsWithin d op h = elim (Option-cases (lookup d.name master_lsn)) [
    | inl unknown ↦ ground arith
    | inr (desired, known) ↦ elim (Option-cases (lookup d.name (slots_by_name current []))) [
      | inl missing ↦ ground arith
      | inr (c, found) ↦
          elim (Option-cases
            (compute_logical_slot_advance_target desired replay c.confirmed_flush_lsn)) [
              | inl behind ↦ ground arith
              | inr (target, e) ↦
                  let it : record { name = d.name; database = d.database; target_lsn = target }
                      ≡ op =
                    ground arith in
                  let same : text_eq c.database d.database ≡ true = ground arith in
                  let (forward, replayed, behind) =
                    target_within desired replay c.confirmed_flush_lsn target e in
                  subst (IsWithin current master_lsn replay) it (record {
                    slot = c;
                    present = (in_list d.name c found).0;
                    same_name = (in_list d.name c found).1;
                    same_database = (text_eq_iff c.database d.database).0 same;
                    forward = forward;
                    replayed = replayed;
                    master = desired;
                    known = known;
                    behind_master = behind;
                  })
            ]
    ]
  ]
    where
      in_list :
          (name : Text) (c : LogicalReplicationSlot)
          → lookup name (slots_by_name current []) ≡ some c
          → Member c current × (c.name ≡ name)
      in_list name c found = elim (lookup-slots_by_name current [] name {slot = c} found) [
        | inl there ↦ there
        | inr nowhere ↦ absurd (lookup-nil name nowhere)
      ]

  advance_all-IsWithin :
      (desired : List ManagedLogicalReplicationSlot)
      → All
          (IsWithin current master_lsn replay)
          (advance_all (slots_by_name current []) master_lsn replay matchers desired)
  unfolding advance_all
  advance_all-IsWithin [] = tt
  advance_all-IsWithin (d ∷ desired) =
      let rest = advance_all-IsWithin desired in
      elim (Option-cases (advance (slots_by_name current []) master_lsn replay matchers d)) [
        | inl idle ↦
            rw
              (advance_all-none (slots_by_name current []) master_lsn replay matchers d desired
                idle)
              rest
        | inr (op, e) ↦
            rw
              (advance_all-some (slots_by_name current []) master_lsn replay matchers d desired op
                e)
              (advance-IsWithin d op e, rest)
      ]

-- Every operation that is planned advances a slot of the standby, of the same name and database:
-- beyond its confirmed position, not beyond what the standby has replayed, and not beyond the
-- position of the slot on the master.
pub evaluate_managed_logical_slot_advance_operations-AllWithin :
    (desired : List ManagedLogicalReplicationSlot) (current : List LogicalReplicationSlot)
    (master_lsn : Map ℕ) (replay : ℕ) (matchers : List ReplicationSlotMatcher)
    → All (IsWithin current master_lsn replay) (
        evaluate_managed_logical_slot_advance_operations desired current master_lsn replay matchers)
unfolding evaluate_managed_logical_slot_advance_operations
evaluate_managed_logical_slot_advance_operations-AllWithin desired current master_lsn replay
      matchers =
    elim (Bool-cases (is_empty desired || is_empty current || is_empty master_lsn || replay == 0)) [
      | inl nothing ↦ rw nothing tt
      | inr something ↦
          rw something (advance_all-IsWithin current master_lsn replay matchers desired)
    ]
