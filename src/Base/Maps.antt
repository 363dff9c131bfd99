-- ===== src/Base/Maps.antt =====
-- A Go map keyed by strings: an association list. The order of the list stands for the order in
-- which the program's `range` happens to go through the map.
use mathlib.Core.Path.{◌≡◌, refl}
use mathlib.Core.Bool.{Bool, true, false}
use mathlib.Core.Option.{Option, none, some}
use mathlib.Core.List.{List, [], ◌∷◌, map}
use native.Mathlib.Omega.{arith}
use hysteron.Base.Tests.{if◌then◌else◌}
use hysteron.Base.Lists.{Member, All}
use hysteron.Base.Strings.{Text, text_eq, text_eq_iff}

abbrev pub Map : Type 0 → Type 0
Map V = List (Text × V)

module _ {V : Type 0} where
  -- `m[k]`, with its `ok`.
  unfoldable pub lookup : Text → Map V → Option V
  lookup k [] = none
  lookup k ((j, v) ∷ m) = if text_eq j k then some v else lookup k m

  -- `m[k] = v`
  unfoldable pub insert : Text → V → Map V → Map V
  insert k v [] = (k, v) ∷ []
  insert k v ((j, w) ∷ m) = if text_eq j k then (k, v) ∷ m else (j, w) ∷ insert k v m

  -- `delete(m, k)`
  unfoldable pub delete : Text → Map V → Map V
  delete k [] = []
  delete k ((j, w) ∷ m) = if text_eq j k then delete k m else (j, w) ∷ delete k m

  abbrev pub values : Map V → List V
  values m = map (λ e. e.1) m

  abbrev pub keys : Map V → List Text
  keys m = map (λ e. e.0) m

  -- `_, ok := m[k]`
  unfoldable pub has_key : Text → Map V → Bool
  has_key k m = elim (lookup k m) [ none ↦ false | some _ ↦ true ]

  pub lookup-insert :
      (k j : Text) (v : V) (m : Map V)
      → lookup j (insert k v m) ≡ (if text_eq k j then some v else lookup j m)
  unfolding lookup insert
  lookup-insert k j v [] = refl
  lookup-insert k j v ((i, w) ∷ m) =
      ground (arith, text_eq_iff k j, text_eq_iff i k, text_eq_iff i j, lookup-insert k j v m)

  pub lookup-delete :
      (k j : Text) (m : Map V) → lookup j (delete k m) ≡ (if text_eq k j then none else lookup j m)
  unfolding lookup delete
  lookup-delete k j [] = ground arith
  lookup-delete k j ((i, w) ∷ m) =
      ground (arith, text_eq_iff k j, text_eq_iff i k, text_eq_iff i j, lookup-delete k j m)

  -- What `lookup` finds is a value, and an insertion adds at most its own.
  pub Member-of_lookup : (k : Text) (m : Map V) {v : V} → lookup k m ≡ some v → Member v (values m)
  unfolding lookup
  Member-of_lookup k [] h = cc
  Member-of_lookup k ((j, w) ∷ m) {v} h = ground (arith, Member-of_lookup k m {v = v})

  pub All-insert {κ} :
      (P : V → Type κ) (k : Text) (v : V) (m : Map V)
      → All P (values m)
      → P v
      → All P (values (insert k v m))
  unfolding insert
  All-insert P k v [] h p = (p, tt)
  All-insert P k v ((j, w) ∷ m) (hw, h) p = ground (arith, All-insert P k v m h p)

  pub All-delete {κ} :
      (P : V → Type κ) (k : Text) (m : Map V) → All P (values m) → All P (values (delete k m))
  unfolding delete
  All-delete P k [] h = tt
  All-delete P k ((j, w) ∷ m) (hw, h) = ground (arith, All-delete P k m h)
