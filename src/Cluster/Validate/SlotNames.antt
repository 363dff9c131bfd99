-- ===== src/Cluster/Validate/SlotNames.antt =====
-- The names of the replication slots of an accepted specification.
use mathlib.Core.Path.{subst}
use hysteron.Base.{
  Text, true, Option, none, ℕ, List, [], ◌∷◌, ◌≡◌, ◌≢◌, refl, arith, inl, inr, ◌⊎◌, All, Member,
  ◌≤◌, map,
}
use hysteron.Utils.Strings.{is_empty, trim_space}
use hysteron.Utils.Slices.{contains}
use hysteron.Utils.Slices.Sets.{contains_iff}
use hysteron.Cluster.Settings.{ManagedLogicalReplicationSlot}
use hysteron.Cluster.Checks.{
  SpecError, reject_if, validate_each, duplicated_slot_name, slot_without_database,
  slot_without_plugin,
}
use hysteron.Cluster.SlotChecks.{
  validate_logical_slots, validate_replication_slot_name, all_slot_chars, is_slot_char,
  is_valid_repl_slot_name,
}
use hysteron.Cluster.Validate.Parts.{orelse-eq-none, reject_if-eq-none}

-- A name that PostgreSQL takes for a replication slot.
abbrev pub SlotChar : ℕ → Type 0
SlotChar c = ((b'a' ≤ c) × (c ≤ b'z')) ⊎ (((b'0' ≤ c) × (c ≤ b'9')) ⊎ (c ≡ b'_'))

abbrev pub SlotName : Text → Type 0
SlotName name = (name ≢ []) × All SlotChar name

all_slot_chars-All : (s : Text) → all_slot_chars s ≡ true → All SlotChar s
unfolding all_slot_chars
all_slot_chars-All [] h = tt
all_slot_chars-All (c ∷ s) h = (chars c (ground arith), all_slot_chars-All s (ground arith))
  where
    chars : (c : ℕ) → is_slot_char c ≡ true → SlotChar c
    chars c e = ground arith

pub validate_replication_slot_name-SlotName :
    (name : Text) → validate_replication_slot_name name ≡ none → SlotName name
unfolding validate_replication_slot_name is_valid_repl_slot_name
validate_replication_slot_name-SlotName [] h = cc
validate_replication_slot_name-SlotName (c ∷ s) h =
    ((λ e. cc), all_slot_chars-All (c ∷ s) (ground arith))

pub validate_each-All :
    {A : Type 0} (f : A → Option SpecError) (xs : List A)
    → validate_each f xs ≡ none
    → All (λ x. f x ≡ none) xs
unfolding validate_each
validate_each-All f [] h = tt
validate_each-All f (x ∷ xs) h =
    let (first, rest) = orelse-eq-none (f x) _ h in (first, validate_each-All f xs rest)

-- No element twice.
abbrev pub Distinct : List Text → Type 0
Distinct [] = Unit
Distinct (x ∷ xs) = (¬ Member x xs) × Distinct xs

pub validate_logical_slots-Distinct :
    (seen : List Text) (slots : List ManagedLogicalReplicationSlot)
    → validate_logical_slots seen slots ≡ none
    → Distinct (map (λ slot. slot.name) slots)
      × ((name : Text) → Member name (map (λ slot. slot.name) slots) → ¬ Member name seen)
unfolding validate_logical_slots
validate_logical_slots-Distinct seen [] h = (tt, λ name m. absurd m)
validate_logical_slots-Distinct seen (slot ∷ slots) h =
    let (_, h1) = orelse-eq-none (validate_replication_slot_name slot.name) _ h in
    let (fresh, h2) =
      orelse-eq-none (reject_if (contains seen slot.name) (duplicated_slot_name slot.name)) _ h1 in
    let (_, h3) =
      orelse-eq-none
        (reject_if (is_empty (trim_space slot.database)) (slot_without_database slot.name)) _ h2 in
    let (_, h4) =
      orelse-eq-none (reject_if (is_empty (trim_space slot.plugin)) (slot_without_plugin slot.name))
        _ h3 in
    let (distinct, unseen) = validate_logical_slots-Distinct (slot.name ∷ seen) slots h4 in
    ((λ m. unseen slot.name m (inl refl), distinct), new fresh unseen)
  where
    new :
        reject_if (contains seen slot.name) (duplicated_slot_name slot.name) ≡ none
        → ((name : Text) → Member name (map (λ s. s.name) slots) → ¬ Member name (slot.name ∷ seen))
        → (name : Text) → Member name (map (λ s. s.name) (slot ∷ slots))
        → ¬ Member name seen
    new fresh unseen name (inl e) m =
        let is_new = reject_if-eq-none (contains seen slot.name) _ fresh in
        let is_old = (contains_iff seen slot.name).1 (subst (λ n. Member n seen) e m) in cc
    new fresh unseen name (inr k) m = unseen name k (inr m)
