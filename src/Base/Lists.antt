-- ===== src/Base/Lists.antt =====
-- Lists measured by native numbers, predicates on their elements, and Boolean filters.
use Prim.Native.Nat.{ℕ, suc}
use mathlib.Core.Path.{◌≡◌, refl, sym, subst}
use mathlib.Core.Logic.{◌⊎◌, inl, inr, ◌↔◌}
use mathlib.Core.Bool.{Bool, true, false}
use mathlib.Core.Option.{Option, none, some}
use mathlib.Core.List.{List, [], ◌∷◌, ◌++◌, map}
use native.Mathlib.Omega.{arith}
use hysteron.Base.Tests.{if◌then◌else◌}

module _ {ℓ} {A : Type ℓ} where
  abbrev pub length : List A → ℕ
  length [] = 0
  length (x ∷ xs) = suc (length xs)

  abbrev pub head? : List A → Option A
  head? [] = none
  head? (x ∷ xs) = some x

  -- The elements that pass a test, in their order.
  unfoldable pub filter : (A → Bool) → List A → List A
  filter p [] = []
  filter p (x ∷ xs) = if p x then x ∷ filter p xs else filter p xs

  -- The first element that passes a test.
  unfoldable pub find_first : (A → Bool) → List A → Option A
  find_first p [] = none
  find_first p (x ∷ xs) = if p x then some x else find_first p xs

abbrev pub Member : {A : Type 0} → A → List A → Type 0
Member a [] = ⊥
Member a (x ∷ xs) = (a ≡ x) ⊎ Member a xs

module _ {ℓ κ} {A : Type ℓ} (P : A → Type κ) where
  abbrev pub All : List A → Type κ
  All [] = Unit
  All (x ∷ xs) = P x × All xs

module _ {κ} {A : Type 0} (P : A → Type κ) where
  pub All-append : (xs ys : List A) → All P xs → All P ys → All P (xs ++ ys)
  All-append [] ys _ hy = hy
  All-append (x ∷ xs) ys (px, hx) hy = (px, All-append xs ys hx hy)

  -- A predicate holds of each member, and conversely.
  pub All-Member : (xs : List A) → All P xs → (a : A) → Member a xs → P a
  All-Member [] h a m = absurd m
  All-Member (x ∷ xs) (px, h) a (inl e) = subst P (sym e) px
  All-Member (x ∷ xs) (px, h) a (inr m) = All-Member xs h a m

  pub All-of_Member : (xs : List A) → ((a : A) → Member a xs → P a) → All P xs
  All-of_Member [] h = tt
  All-of_Member (x ∷ xs) h = (h x (inl refl), All-of_Member xs (λ a m. h a (inr m)))

module _ {A : Type 0} where
  pub Member-append : (a : A) (xs ys : List A) → Member a (xs ++ ys) ↔ (Member a xs ⊎ Member a ys)
  Member-append a xs ys = (to xs, from xs)
    where
      to : (xs : List A) → Member a (xs ++ ys) → Member a xs ⊎ Member a ys
      to [] m = inr m
      to (x ∷ xs) (inl e) = inl (inl e)
      to (x ∷ xs) (inr m) = elim (to xs m) [ inl l ↦ inl (inr l) | inr r ↦ inr r ]

      from : (xs : List A) → Member a xs ⊎ Member a ys → Member a (xs ++ ys)
      from [] (inl m) = absurd m
      from [] (inr m) = m
      from (x ∷ xs) (inl (inl e)) = inl e
      from (x ∷ xs) (inl (inr m)) = inr (from xs (inl m))
      from (x ∷ xs) (inr m) = inr (from xs (inr m))

  -- What a filter keeps: the members that pass the test.
  pub Member-of_filter :
      (p : A → Bool) (a : A) (xs : List A) → Member a (filter p xs) → Member a xs × (p a ≡ true)
  unfolding filter
  Member-of_filter p a [] m = absurd m
  Member-of_filter p a (x ∷ xs) m = ground (arith, Member-of_filter p a xs)

  pub Member-filter :
      (p : A → Bool) (a : A) (xs : List A) → Member a xs → p a ≡ true → Member a (filter p xs)
  unfolding filter
  Member-filter p a [] m h = absurd m
  Member-filter p a (x ∷ xs) m h = ground (arith, Member-filter p a xs)

  pub All-filter {κ} :
      (P : A → Type κ) (p : A → Bool) (xs : List A)
      → ((a : A) → p a ≡ true → P a)
      → All P (filter p xs)
  All-filter P p xs h = All-of_Member P _ (λ a m. h a (Member-of_filter p a xs m).1)

  -- `find_first` returns a member that passes the test.
  pub find_first_sound :
      (p : A → Bool) (xs : List A) {a : A} → find_first p xs ≡ some a → Member a xs × (p a ≡ true)
  unfolding find_first
  find_first_sound p [] h = cc
  find_first_sound p (x ∷ xs) {a} h = ground (arith, find_first_sound p xs {a = a})

  -- It returns none only where no member passes.
  pub find_first-eq-none :
      (p : A → Bool) (xs : List A) → find_first p xs ≡ none → All (λ a. p a ≡ false) xs
  unfolding find_first
  find_first-eq-none p [] h = tt
  find_first-eq-none p (x ∷ xs) h = ground (arith, find_first-eq-none p xs)

-- What a member of an image is the image of.
pub Member-of_map :
    {A B : Type 0} (f : A → B) (xs : List A) (b : B)
    → Member b (map f xs)
    → (a : A) × Member a xs × (f a ≡ b)
Member-of_map f [] b m = absurd m
Member-of_map f (x ∷ xs) b (inl e) = (x, inl refl, sym e)
Member-of_map f (x ∷ xs) b (inr m) = let (a, ma, e) = Member-of_map f xs b m in (a, inr ma, e)
