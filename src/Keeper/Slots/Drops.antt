-- ===== src/Keeper/Slots/Drops.antt =====
-- Which slots `updateReplSlots` of internal/runtime/keeper/replication.go leaves on the server.
use hysteron.Base.{
  Text, text_eq, text_eq_iff, lookup, Bool, true, false, not, Option, some, none, List, [], ◌∷◌,
  ◌++◌, ◌≡◌, refl, ◌⊎◌, inl, inr, arith, pos, leb_ℤ, ltb_ℤ, sub_time, Time, Member, Member-append,
  Member-filter, Bool-cases, Option-cases, filter, if◌then◌else◌,
}
use hysteron.Cluster.Settings.{ReplicationSlotMatcher}
use hysteron.Cluster.SlotChecks.{is_hysteron_name}
use hysteron.Utils.Slices.{contains}
use hysteron.Utils.Slices.Sets.{contains_iff}
use hysteron.Keeper.Slots.{
  PhysicalReplicationSlot, SlotView, is_ignored, managed_replication_slots, name_from_hysteron_name,
  is_unused, should_drop_unmanaged_hysteron_slot, is_to_drop, drop_slot, drop_slots, create_slots,
  update_repl_slots,
}

-- The slot of a member that left longer ago than the time to live; nobody uses it.
pub record IsExpired (v : SlotView) (now : Time) (slot : Text) : Type 0 where
  pub since : Time
  pub tracked : lookup slot v.orphan_member_slots ≡ some since
  pub elapsed : ltb_ℤ (sub_time now since) v.member_slot_ttl ≡ false
  pub on_server : PhysicalReplicationSlot
  pub seen : lookup slot v.physical_slot_state ≡ some on_server
  pub inactive : on_server.active ≡ false
  pub without_xmin : on_server.has_xmin ≡ false

-- The slot is of no known member and not tracked.
pub record IsStray (v : SlotView) (slot : Text) : Type 0 where
  pub untracked : lookup slot v.orphan_member_slots ≡ none
  pub unknown : contains v.known_db_uids (name_from_hysteron_name slot) ≡ false

-- Why a slot may be dropped.
pub record IsDroppable (v : SlotView) (now : Time) (ignored : List Text)
    (matchers : List ReplicationSlotMatcher) (wanted : List Text) (slot : Text) : Type 0 where
  pub own : is_hysteron_name slot ≡ true
  pub heeded : is_ignored ignored matchers slot ≡ false
  pub unwanted : contains wanted slot ≡ false
  pub why : (leb_ℤ v.member_slot_ttl (pos 0) ≡ true) ⊎ (IsStray v slot ⊎ IsExpired v now slot)

is_unused-seen :
    (o : Option PhysicalReplicationSlot)
    → is_unused o ≡ true
    → (p : PhysicalReplicationSlot) × (o ≡ some p) × (p.active ≡ false) × (p.has_xmin ≡ false)
unfolding is_unused
is_unused-seen none h = cc
is_unused-seen (some p) h = (p, refl, ground arith, ground arith)

is_to_drop-IsDroppable :
    (v : SlotView) (now : Time) (ignored : List Text) (matchers : List ReplicationSlotMatcher)
    (wanted : List Text) (slot : Text)
    → is_to_drop v now ignored matchers wanted slot ≡ true
    → IsDroppable v now ignored matchers wanted slot
unfolding is_to_drop should_drop_unmanaged_hysteron_slot
is_to_drop-IsDroppable v now ignored matchers wanted slot h = record {
  own = named;
  heeded = ground arith;
  unwanted = ground arith;
  why = elim (Bool-cases (leb_ℤ v.member_slot_ttl (pos 0))) [
    | inl off ↦ inl off
    | inr on ↦ inr (elim (Option-cases (lookup slot v.orphan_member_slots)) [
      | inl untracked ↦ inl (record { untracked = untracked; unknown = ground arith })
      | inr (since, tracked) ↦
          let (p, seen, inactive, without_xmin) =
            is_unused-seen (lookup slot v.physical_slot_state) (ground arith) in
          inr (record {
            since = since;
            tracked = tracked;
            elapsed = ground arith;
            on_server = p;
            seen = seen;
            inactive = inactive;
            without_xmin = without_xmin;
          })
    ])
  ];
}
  where
    named : is_hysteron_name slot ≡ true
    named = ground arith

-- A slot that is not to be dropped stays.
Member-drop_slots :
    (drop_fails to_drop : Text → Bool) (slots server : List Text) (s : Text)
    → to_drop s ≡ false
    → Member s server
    → Member s (drop_slots drop_fails to_drop slots server)
unfolding drop_slots drop_slot
Member-drop_slots drop_fails to_drop [] server s stays m = m
Member-drop_slots drop_fails to_drop (slot ∷ slots) server s stays m =
    elim (Bool-cases (to_drop slot)) [
      | inr kept ↦ rw kept (Member-drop_slots drop_fails to_drop slots server s stays m)
      | inl dropped ↦
          rw dropped (Member-drop_slots drop_fails to_drop slots _ s stays (left dropped))
    ]
  where
    left :
        to_drop slot ≡ true
        → Member s (if drop_fails slot then server else filter (λ x. not (text_eq x slot)) server)
    left dropped =
        let other : text_eq s slot ≡ false = ground (arith, text_eq_iff s slot) in
        elim (Bool-cases (drop_fails slot)) [
          | inl failed ↦ rw failed m
          | inr done ↦
              rw done (Member-filter (λ x. not (text_eq x slot)) s server m (rw other refl))
        ]

-- No slot goes away by the creation of others.
Member-create_slots :
    (create_fails : Text → Bool) (cur slots server : List Text) (s : Text)
    → Member s server
    → Member s (create_slots create_fails cur slots server).1
unfolding create_slots
Member-create_slots create_fails cur [] server s m = m
Member-create_slots create_fails cur (slot ∷ slots) server s m =
    let skip = Member-create_slots create_fails cur slots server s m in
    let added =
      Member-create_slots create_fails cur slots (server ++ slot ∷ []) s
        ((Member-append s server (slot ∷ [])).1 (inl m)) in
    elim (Bool-cases (contains cur slot)) [
      | inl there ↦ rw there skip
      | inr missing ↦ elim (Bool-cases (create_fails slot)) [
        | inl failed ↦ rw (missing, failed) m
        | inr done ↦ rw (missing, done) added
      ]
    ]

-- Without an error every wanted slot is there, if it still is where it was there before.
create_slots-all :
    (create_fails : Text → Bool) (cur slots server : List Text) (s : Text)
    → (create_slots create_fails cur slots server).0 ≡ true
    → (contains cur s ≡ true → Member s server)
    → Member s slots
    → Member s (create_slots create_fails cur slots server).1
unfolding create_slots
create_slots-all create_fails cur [] server s h kept m = absurd m
create_slots-all create_fails cur (slot ∷ slots) server s h kept m =
    elim (Bool-cases (contains cur slot)) [
      | inl there ↦ rw there (elim m [
        | inl e ↦ Member-create_slots create_fails cur slots server s (kept (rw (← e) at there))
        | inr later ↦ create_slots-all create_fails cur slots server s (rw there at h) kept later
      ])
      | inr missing ↦ elim (Bool-cases (create_fails slot)) [
        | inl failed ↦ absurd (stopped missing failed)
        | inr done ↦
            rw (missing, done)
              (elim m [
                | inl e ↦
                    Member-create_slots create_fails cur slots (server ++ slot ∷ []) s
                      ((Member-append s server (slot ∷ [])).1 (inr (inl e)))
                | inr later ↦
                    create_slots-all create_fails cur slots (server ++ slot ∷ []) s
                      (rw (missing, done) at h)
                      (λ there. (Member-append s server (slot ∷ [])).1 (inl (kept there))) later
              ])
      ]
    ]
  where
    stopped : contains cur slot ≡ false → create_fails slot ≡ true → ⊥
    stopped missing failed = let f : false ≡ true = rw (missing, failed) at h in cc

module _ (drop_fails create_fails : Text → Bool) (v : SlotView) (now : Time) (cur : List Text)
    (uid : Text) (followers additional ignored : List Text)
    (matchers : List ReplicationSlotMatcher) where
  abbrev pub wanted_slots : List Text
  wanted_slots = managed_replication_slots uid followers additional ignored matchers

  abbrev pub updated : Bool × List Text
  updated =
      update_repl_slots drop_fails create_fails v now cur uid followers additional ignored matchers

  stays :
      (s : Text)
      → is_to_drop v now ignored matchers wanted_slots s ≡ false
      → Member s cur
      → Member s updated.1
  unfolding update_repl_slots
  stays s kept m =
      let to_drop = is_to_drop v now ignored matchers wanted_slots in
      Member-create_slots create_fails cur wanted_slots (drop_slots drop_fails to_drop cur cur) s
        (Member-drop_slots drop_fails to_drop cur cur s kept m)

  wanted_stays :
      (s : Text)
      → contains wanted_slots s ≡ true
      → is_to_drop v now ignored matchers wanted_slots s ≡ false
  unfolding is_to_drop
  wanted_stays s h = ground arith

  made : (s : Text) → updated.0 ≡ true → contains wanted_slots s ≡ true → Member s updated.1
  unfolding update_repl_slots
  made s h wanted =
      let to_drop = is_to_drop v now ignored matchers wanted_slots in
      create_slots-all create_fails cur wanted_slots (drop_slots drop_fails to_drop cur cur) s h
        (λ there.
          Member-drop_slots drop_fails to_drop cur cur s (wanted_stays s wanted)
            ((contains_iff cur s).0 there))
        ((contains_iff wanted_slots s).0 wanted)

  -- A slot of the server is still there after `updateReplSlots`, or it may be dropped: it is named
  -- as one of Hysteron's, neither ignored nor wanted, and slots of former members are not kept, or
  -- it is not tracked and of no known member, or it has been left over for the time to live, is
  -- inactive and holds no xmin. If there is no error, every wanted slot is there.
  pub update_repl_slots-Keeps :
      (s : Text)
      → ((contains cur s ≡ false)
          ⊎ (Member s updated.1 ⊎ IsDroppable v now ignored matchers wanted_slots s))
        × ((updated.0 ≡ false) ⊎ ((contains wanted_slots s ≡ false) ⊎ Member s updated.1))
  update_repl_slots-Keeps s = (
    elim (Bool-cases (contains cur s)) [
      | inr absent ↦ inl absent
      | inl there ↦ inr (elim (Bool-cases (is_to_drop v now ignored matchers wanted_slots s)) [
        | inl dropped ↦ inr (is_to_drop-IsDroppable v now ignored matchers wanted_slots s dropped)
        | inr kept ↦ inl (stays s kept ((contains_iff cur s).0 there))
      ])
    ],
    elim (Bool-cases updated.0) [
      | inr failed ↦ inl failed
      | inl done ↦ inr (elim (Bool-cases (contains wanted_slots s)) [
        | inr unwanted ↦ inl unwanted
        | inl wanted ↦ inr (made s done wanted)
      ])
    ],
  )
