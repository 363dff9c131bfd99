-- ===== src/Sentinel/Update/MemberSlots/Tracking.antt =====
-- Which slots are tracked, and since when.
use hysteron.Base.{
  Text, text_eq, text_eq_iff, Map, lookup, lookup-insert, lookup-delete, insert, delete, has_key,
  true, false, some, none, List, [], ◌∷◌, ◌≡◌, refl, inl, inr, arith, Bool-cases, Time,
  if◌then◌else◌,
}
use hysteron.Utils.Slices.{contains}
use hysteron.Sentinel.Update.MemberSlots.{
  slots_of, forget_slots, track_slots, compute_orphan_member_slots,
}

lookup-forget_slots :
    (slots : List Text) (out : Map Time) (slot : Text)
    → lookup slot (forget_slots slots out) ≡ (if contains slots slot then none else lookup slot out)
unfolding forget_slots contains
lookup-forget_slots [] out slot = refl
lookup-forget_slots (first ∷ slots) out slot = ground (
  arith,
  lookup-forget_slots slots (delete first out) slot,
  lookup-delete first slot out,
  text_eq_iff first slot,
  text_eq_iff slot first,
)

has_key-insert :
    (k j : Text) (v : Time) (m : Map Time)
    → has_key j (insert k v m) ≡ (if text_eq k j then true else has_key j m)
unfolding has_key
has_key-insert k j v m = ground (arith, lookup-insert k j v m)

lookup-track_slots :
    (current : List Text) (now : Time) (slots : List Text) (out : Map Time) (slot : Text)
    → lookup slot (track_slots current now slots out) ≡ (
        if has_key slot out
        then lookup slot out
        else if contains current slot
        then none
        else if contains slots slot
        then some now
        else none)
unfolding track_slots contains
lookup-track_slots current now [] out slot = unfold has_key in ground arith
lookup-track_slots current now (first ∷ slots) out slot =
    elim (Bool-cases (contains current first)) [
      | inl yours ↦
          rw yours
            (ground (arith, lookup-track_slots current now slots out slot, text_eq_iff slot first))
      | inr others ↦ elim (Bool-cases (has_key first out)) [
        | inl held ↦
            rw (others, held)
              (ground
                (arith, lookup-track_slots current now slots out slot, text_eq_iff slot first))
        | inr free ↦
            rw (others, free)
              (ground (
                arith,
                lookup-track_slots current now slots (insert first now out) slot,
                lookup-insert first slot now out,
                has_key-insert first slot now out,
                text_eq_iff slot first,
                text_eq_iff first slot,
              ))
      ]
    ]

-- While the master stays, the slot of a current follower is not tracked; another slot keeps the
-- instant at which it was left over, or begins to be tracked now if it is of a previous follower.
pub lookup-compute_orphan_member_slots :
    (prev_followers current_followers : List Text) (prev_orphans : Map Time) (now : Time)
    (slot : Text)
    → lookup slot
        (compute_orphan_member_slots prev_followers current_followers prev_orphans false now)
      ≡ (if contains (slots_of current_followers) slot
          then none
          else if has_key slot prev_orphans
          then lookup slot prev_orphans
          else if contains (slots_of prev_followers) slot
          then some now
          else none)
unfolding compute_orphan_member_slots has_key
lookup-compute_orphan_member_slots prev_followers current_followers prev_orphans now slot =
    let current = slots_of current_followers in
    ground (
      arith,
      lookup-forget_slots current prev_orphans slot,
      lookup-track_slots current now (slots_of prev_followers) (forget_slots current prev_orphans)
          slot,
    )
