-- ===== src/Sentinel/Update/MemberSlots.antt =====
-- `computeOrphanMemberSlots` of cluster_update.go: since when the replication slot of a member that
-- no longer follows the master has been left over. A nil map is an empty one here: the code makes no
-- difference but for the JSON document.
pub mod Tracking
use hysteron.Base.{
  Text, text, Map, lookup, insert, delete, has_key, Bool, true, false, Option, some, none, List, [],
  ◌∷◌, ◌++◌, Time, if◌then◌else◌, map,
}
use hysteron.Utils.Slices.{contains}

-- `HysteronName`
abbrev pub hysteron_name : Text → Text
hysteron_name name = text "hysteron_" ++ name

-- The slots of the followers.
unfoldable pub slots_of : List Text → List Text
slots_of [] = []
slots_of (uid ∷ uids) = hysteron_name uid ∷ slots_of uids

-- The slots of the current followers are no longer left over.
unfoldable pub forget_slots : List Text → Map Time → Map Time
forget_slots [] out = out
forget_slots (slot ∷ slots) out = forget_slots slots (delete slot out)

-- Those of previous followers are, from now on if they were not before.
unfoldable pub track_slots : List Text → Time → List Text → Map Time → Map Time
track_slots current now [] out = out
track_slots current now (slot ∷ slots) out =
    track_slots current now slots
      (if contains current slot then out else if has_key slot out then out else insert slot now out)

unfoldable pub compute_orphan_member_slots :
    List Text → List Text → Map Time → Bool → Time → Map Time
compute_orphan_member_slots prev_followers current_followers prev_orphans master_changed now =
    if master_changed
    then []
    else track_slots (slots_of current_followers) now (slots_of prev_followers)
        (forget_slots (slots_of current_followers) prev_orphans)
