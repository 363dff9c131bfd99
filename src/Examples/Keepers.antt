-- ===== src/Examples/Keepers.antt =====
-- The theorems on the keeper, applied to a run with two failed polls and to the slots of a server.
use hysteron.Base.{
  insert, All, Text, text, text_eq, lookup, filter, true, false, some, [], ◌∷◌, List, pos, sub_time,
  Member, ◌≡◌, ◌⊎◌, refl, arith,
}
use hysteron.Utils.Slices.{contains}
use hysteron.Utils.Strings.{has_prefix}
use hysteron.Cluster.SlotChecks.{is_hysteron_name}
use hysteron.Cluster.Spec.{with_defaults, empty_spec, DefSpec}
use hysteron.Keeper.Failsafe.{new_keeper, handle_dcs_degraded, apply_runtime_config}
use hysteron.Keeper.Slots.{
  SlotView, update_repl_slots, managed_replication_slots, want_followers, want_additional, want,
  is_ignored, is_ignored_physical_slot_by_matcher, drop_slots, is_to_drop,
  should_drop_unmanaged_hysteron_slot, is_unused, drop_slot, create_slots,
}
use hysteron.Cluster.Settings.{ManagedLogicalReplicationSlot}
use hysteron.Keeper.LogicalSlots.{
  LogicalReplicationSlot, compute_logical_slot_advance_target, slots_by_name, is_same_slot,
  is_ignored_logical_slot_by_matcher, advance, advance_all,
  evaluate_managed_logical_slot_advance_operations,
}
use hysteron.Keeper.LogicalSlots.Targets.{
  IsWithin, evaluate_managed_logical_slot_advance_operations-AllWithin,
}
use hysteron.Keeper.Slots.Drops.{IsDroppable, wanted_slots, updated, update_repl_slots-Keeps}
use hysteron.Keeper.Failsafe.Reachable.{Down, Reach, WithinTtl, Reach-WithinTtl}

-- The failsafe mode is turned on.
abbrev failsafe_spec : DefSpec
failsafe_spec = with_defaults (record empty_spec { enable_failsafe_mode = some true })

-- Configured at the start, then the polls at 10 and 20 fail.
two_failures : Reach 20 (Down.since 10) (
    handle_dcs_degraded 20 (handle_dcs_degraded 10 (apply_runtime_config failsafe_spec new_keeper)))
two_failures =
    Reach.next_failure 10 20 10 _
      (Reach.first_failure 0 10 _ (Reach.configured 0 failsafe_spec new_keeper Reach.started)
        (omega arith))
      (omega arith)

Reach-WithinTtl_example : WithinTtl 20 (Down.since 10) (
    handle_dcs_degraded 20 (handle_dcs_degraded 10 (apply_runtime_config failsafe_spec new_keeper)))
Reach-WithinTtl_example =
    Reach-WithinTtl 20 (Down.since 10)
      (handle_dcs_degraded 20
        (handle_dcs_degraded 10 (apply_runtime_config failsafe_spec new_keeper)))
      two_failures

abbrev slot_view : SlotView
slot_view = record {
  member_slot_ttl = pos 10;
  orphan_member_slots = (text "hysteron_db9", 100) ∷ [];
  physical_slot_state =
      (text "hysteron_db9", record { name = text "hysteron_db9"; active = false; has_xmin = false })
      ∷ [];
  known_db_uids = text "db2" ∷ text "db3" ∷ [];
}

abbrev server : List Text
server = text "hysteron_db2" ∷ text "hysteron_db9" ∷ text "other" ∷ []

-- The slot of a member that left goes, the foreign one stays, and that of a new follower comes.
slots_run :
    update_repl_slots
      (λ s. false)
      (λ s. false)
      slot_view
      200
      server
      (text "db1")
      (text "db2" ∷ text "db3" ∷ [])
      []
      []
      []
    ≡ (true, text "hysteron_db2" ∷ text "other" ∷ text "hysteron_db3" ∷ [])
unfolding update_repl_slots managed_replication_slots want_followers want_additional want is_ignored
    is_ignored_physical_slot_by_matcher drop_slots is_to_drop should_drop_unmanaged_hysteron_slot
    is_unused drop_slot create_slots contains lookup text_eq filter sub_time is_hysteron_name
    has_prefix
slots_run = refl

update_repl_slots-Keeps_example :
    ((contains server (text "hysteron_db9") ≡ false)
      ⊎ (Member
            (text "hysteron_db9")
            (updated
              (λ s. false)
              (λ s. false)
              slot_view
              200
              server
              (text "db1")
              (text "db2" ∷ text "db3" ∷ [])
              []
              []
              []).1
          ⊎ IsDroppable slot_view 200 [] []
              (wanted_slots
                (λ s. false)
                (λ s. false)
                slot_view
                200
                server
                (text "db1")
                (text "db2" ∷ text "db3" ∷ [])
                []
                []
                [])
              (text "hysteron_db9")))
    × (((updated
            (λ s. false)
            (λ s. false)
            slot_view
            200
            server
            (text "db1")
            (text "db2" ∷ text "db3" ∷ [])
            []
            []
            []).0
          ≡ false)
        ⊎ ((contains
                (wanted_slots
                  (λ s. false)
                  (λ s. false)
                  slot_view
                  200
                  server
                  (text "db1")
                  (text "db2" ∷ text "db3" ∷ [])
                  []
                  []
                  [])
                (text "hysteron_db9")
              ≡ false)
            ⊎ Member
                (text "hysteron_db9")
                (updated
                  (λ s. false)
                  (λ s. false)
                  slot_view
                  200
                  server
                  (text "db1")
                  (text "db2" ∷ text "db3" ∷ [])
                  []
                  []
                  []).1))
update_repl_slots-Keeps_example =
    update_repl_slots-Keeps (λ s. false) (λ s. false) slot_view 200 server (text "db1")
      (text "db2" ∷ text "db3" ∷ []) [] [] [] (text "hysteron_db9")

-- A logical slot of a standby that is at 40, has replayed up to 70, with the master at 90.
abbrev wanted_slot : ManagedLogicalReplicationSlot
wanted_slot = record { name = text "audit"; database = text "shop"; plugin = text "pgoutput" }

abbrev standby_slot : LogicalReplicationSlot
standby_slot = record {
  name = text "audit";
  database = text "shop";
  plugin = text "pgoutput";
  confirmed_flush_lsn = 40;
  active = false;
  failover = false;
  synced = false;
}

planned :
    evaluate_managed_logical_slot_advance_operations
      (wanted_slot ∷ [])
      (standby_slot ∷ [])
      ((text "audit", 90) ∷ [])
      70
      []
    ≡ record { name = text "audit"; database = text "shop"; target_lsn = 70 } ∷ []
unfolding evaluate_managed_logical_slot_advance_operations advance_all advance slots_by_name insert
    lookup text_eq is_same_slot is_ignored_logical_slot_by_matcher
    compute_logical_slot_advance_target
planned = refl

evaluate_managed_logical_slot_advance_operations-AllWithin_example :
    All (IsWithin (standby_slot ∷ []) ((text "audit", 90) ∷ []) 70) (
      evaluate_managed_logical_slot_advance_operations
        (wanted_slot ∷ [])
        (standby_slot ∷ [])
        ((text "audit", 90) ∷ [])
        70
        [])
evaluate_managed_logical_slot_advance_operations-AllWithin_example =
    evaluate_managed_logical_slot_advance_operations-AllWithin (wanted_slot ∷ [])
      (standby_slot ∷ []) ((text "audit", 90) ∷ []) 70 []
