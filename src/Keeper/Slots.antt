-- ===== src/Keeper/Slots.antt =====
-- internal/runtime/keeper/replication.go: which physical replication slots a keeper drops and
-- creates. The server is the list of its slots; `drop_fails` and `create_fails` tell which calls of
-- the PostgreSQL manager return an error, and a call that does leaves the slots as they are.
pub mod Drops
use hysteron.Base.{
  Text, text, text_eq, Map, lookup, has_key, Bool, true, false, not, Option, some, none, List, [],
  ◌∷◌, ◌++◌, ◌&&◌, ◌||◌, Duration, pos, leb_ℤ, ltb_ℤ, sub_time, Time, if◌then◌else◌, filter,
}
use hysteron.Cluster.Enums.{ReplicationSlotType}
use hysteron.Cluster.Settings.{ReplicationSlotMatcher}
use hysteron.Cluster.SlotChecks.{is_hysteron_name}
use hysteron.Utils.Slices.{contains}
use hysteron.Sentinel.Update.MemberSlots.{hysteron_name}

pub record PhysicalReplicationSlot : Type 0 where
  pub name : Text
  pub active : Bool
  pub has_xmin : Bool

-- What a keeper knows of slots: those that the sentinel tracks as left over, and since when; the
-- state of the slots on the server; and the uids of the databases.
pub record SlotView : Type 0 where
  pub member_slot_ttl : Duration
  pub orphan_member_slots : Map Time
  pub physical_slot_state : Map PhysicalReplicationSlot
  pub known_db_uids : List Text

is_empty : Text → Bool
is_empty [] = true
is_empty _ = false

-- A matcher's type that lets physical slots through.
unfoldable pub takes_physical : ReplicationSlotType → Bool
unfolding is_empty
takes_physical ReplicationSlotType.physical = true
takes_physical ReplicationSlotType.logical = false
takes_physical (ReplicationSlotType.unknown t) = is_empty t

unfoldable pub matches : Text → ReplicationSlotMatcher → Bool
unfolding is_empty
matches slot m =
    takes_physical m.slot_type
    && (is_empty m.name || text_eq m.name slot)
    && is_empty m.database
    && is_empty m.plugin

-- `isIgnoredPhysicalSlotByMatcher`
unfoldable pub is_ignored_physical_slot_by_matcher : Text → List ReplicationSlotMatcher → Bool
is_ignored_physical_slot_by_matcher slot [] = false
is_ignored_physical_slot_by_matcher slot (m ∷ matchers) =
    if matches slot m then true else is_ignored_physical_slot_by_matcher slot matchers

-- What the keeper is told to leave alone.
unfoldable pub is_ignored : List Text → List ReplicationSlotMatcher → Text → Bool
is_ignored ignored matchers slot =
    contains ignored slot || is_ignored_physical_slot_by_matcher slot matchers

-- A slot joins the set of the wanted ones, unless it is ignored.
unfoldable pub want : List Text → List ReplicationSlotMatcher → Text → List Text → List Text
want ignored matchers slot set =
    if is_ignored ignored matchers slot || contains set slot then set else set ++ slot ∷ []

unfoldable pub want_followers :
    Text → List Text → List ReplicationSlotMatcher → List Text → List Text → List Text
want_followers uid ignored matchers [] set = set
want_followers uid ignored matchers (follower ∷ followers) set =
    want_followers uid ignored matchers followers
      (if text_eq follower uid then set else want ignored matchers (hysteron_name follower) set)

unfoldable pub want_additional :
    List Text → List ReplicationSlotMatcher → List Text → List Text → List Text
want_additional ignored matchers [] set = set
want_additional ignored matchers (slot ∷ slots) set =
    want_additional ignored matchers slots (want ignored matchers (hysteron_name slot) set)

-- `managedReplicationSlots`, the first of its results; the second is the set of the ignored slots.
unfoldable pub managed_replication_slots :
    Text → List Text → List Text → List Text → List ReplicationSlotMatcher → List Text
managed_replication_slots uid followers additional ignored matchers =
    want_additional ignored matchers additional (want_followers uid ignored matchers followers [])

-- `strings.TrimPrefix`, and `NameFromHysteronName`.
unfoldable pub trim_prefix : Text → Text → Text → Text
trim_prefix whole s [] = s
trim_prefix whole [] (p ∷ prefix) = whole
trim_prefix whole (c ∷ s) (p ∷ prefix) =
    if text_eq (c ∷ []) (p ∷ []) then trim_prefix whole s prefix else whole

unfoldable pub name_from_hysteron_name : Text → Text
name_from_hysteron_name name = trim_prefix name name (text "hysteron_")

-- Whether the slot of a member that is left over may go, by its state on the server.
unfoldable pub is_unused : Option PhysicalReplicationSlot → Bool
is_unused none = false
is_unused (some slot) = not slot.active && not slot.has_xmin

-- `shouldDropUnmanagedHysteronSlot`, without the reason for the log.
unfoldable pub should_drop_unmanaged_hysteron_slot : SlotView → Time → Text → Bool
should_drop_unmanaged_hysteron_slot v now slot =
    if leb_ℤ v.member_slot_ttl (pos 0) then true else elim (lookup slot v.orphan_member_slots) [
      | none ↦
          not (is_hysteron_name slot && contains v.known_db_uids (name_from_hysteron_name slot))
      | some since ↦
          if ltb_ℤ (sub_time now since) v.member_slot_ttl
          then false
          else is_unused (lookup slot v.physical_slot_state)
    ]

-- The slot is to be dropped.
unfoldable pub is_to_drop :
    SlotView → Time → List Text → List ReplicationSlotMatcher → List Text → Text → Bool
is_to_drop v now ignored matchers wanted slot =
    is_hysteron_name slot
    && not (is_ignored ignored matchers slot)
    && not (contains wanted slot)
    && should_drop_unmanaged_hysteron_slot v now slot

-- `DropReplicationSlot` on the server.
unfoldable pub drop_slot : (Text → Bool) → Text → List Text → List Text
drop_slot drop_fails slot server =
    if drop_fails slot then server else filter (λ s. not (text_eq s slot)) server

-- "Drop internal replication slots": an error of a drop is only logged.
unfoldable pub drop_slots : (Text → Bool) → (Text → Bool) → List Text → List Text → List Text
drop_slots drop_fails to_drop [] server = server
drop_slots drop_fails to_drop (slot ∷ slots) server =
    drop_slots drop_fails to_drop slots
      (if to_drop slot then drop_slot drop_fails slot server else server)

-- "Create internal replication slots": the first error ends the loop, and is what it returns.
unfoldable pub create_slots : (Text → Bool) → List Text → List Text → List Text → Bool × List Text
create_slots create_fails cur [] server = (true, server)
create_slots create_fails cur (slot ∷ slots) server =
    if contains cur slot
    then create_slots create_fails cur slots server
    else if create_fails slot
    then (false, server)
    else create_slots create_fails cur slots (server ++ slot ∷ [])

-- `updateReplSlots` on a server whose slots are `cur`: whether it returns without an error, and
-- the slots of the server afterwards.
unfoldable pub update_repl_slots :
    (Text → Bool)
    → (Text → Bool)
    → SlotView
    → Time
    → List Text
    → Text
    → List Text
    → List Text
    → List Text
    → List ReplicationSlotMatcher
    → Bool × List Text
update_repl_slots drop_fails create_fails v now cur uid followers additional ignored matchers =
    let wanted = managed_replication_slots uid followers additional ignored matchers in
    create_slots create_fails cur wanted
      (drop_slots drop_fails (is_to_drop v now ignored matchers wanted) cur cur)
