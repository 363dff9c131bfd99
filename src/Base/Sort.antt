-- ===== src/Base/Sort.antt =====
-- Sorting by a Boolean `less`, as `sort.Strings`, `sort.Sort` and `sort.Slice` do.
pub mod Texts
use mathlib.Core.Path.{◌≡◌}
use mathlib.Core.Logic.{inl, inr}
use mathlib.Core.Bool.{Bool, true, false}
use mathlib.Core.List.{List, [], ◌∷◌, Perm}
use mathlib.Core.List.Perm
use native.Mathlib.Omega.{arith}
use hysteron.Base.Tests.{if◌then◌else◌, Bool-cases}
use hysteron.Base.Lists.{All, All-Member, All-of_Member, Member}
use hysteron.Base.Strings.{Text, text_lt, text_lt_asymm, text_lt_trans, text_lt_total}

-- `less b a ≡ false` reads: a may stand before b.
pub record IsWeakOrder {A : Type 0} (less : A → A → Bool) : Type 0 where
  pub asymm : (a b : A) → less a b ≡ true → less b a ≡ false
  pub trans : (a b c : A) → less b a ≡ false → less c b ≡ false → less c a ≡ false

module _ {A : Type 0} (less : A → A → Bool) where
  insert_sorted : A → List A → List A
  insert_sorted x [] = x ∷ []
  insert_sorted x (y ∷ ys) = if less y x then y ∷ insert_sorted x ys else x ∷ y ∷ ys

  unfoldable pub sort_by : List A → List A
  unfolding insert_sorted
  sort_by [] = []
  sort_by (x ∷ xs) = insert_sorted x (sort_by xs)

  -- No element stands behind one that it is less than.
  abbrev pub IsSorted : List A → Type 0
  IsSorted [] = Unit
  IsSorted (x ∷ xs) = All (λ y. less y x ≡ false) xs × IsSorted xs

  insert_sorted-perm : (x : A) (xs : List A) → Perm (insert_sorted x xs) (x ∷ xs)
  unfolding insert_sorted
  insert_sorted-perm x [] = Perm.refl _
  insert_sorted-perm x (y ∷ ys) = elim (Bool-cases (less y x)) [
    | inl h ↦
        rw (h, insert_sorted)
          (Perm.trans (Perm.cons y (insert_sorted-perm x ys)) (Perm.swap x y ys))
    | inr h ↦ rw (h, insert_sorted) (Perm.refl _)
  ]

  -- Sorting rearranges its input.
  pub sort_by-perm : (xs : List A) → Perm (sort_by xs) xs
  unfolding sort_by
  sort_by-perm [] = Perm.refl _
  sort_by-perm (x ∷ xs) =
      Perm.trans (insert_sorted-perm x (sort_by xs)) (Perm.cons x (sort_by-perm xs))

  Member-of_insert_sorted :
      (a x : A) (xs : List A) → Member a (insert_sorted x xs) → Member a (x ∷ xs)
  unfolding insert_sorted
  Member-of_insert_sorted a x [] m = m
  Member-of_insert_sorted a x (y ∷ ys) m = ground (arith, Member-of_insert_sorted a x ys)

  Member-insert_sorted : (a x : A) (xs : List A) → Member a (x ∷ xs) → Member a (insert_sorted x xs)
  unfolding insert_sorted
  Member-insert_sorted a x [] m = m
  Member-insert_sorted a x (y ∷ ys) m = ground (arith, Member-insert_sorted a x ys)

  pub Member-of_sort_by : (a : A) (xs : List A) → Member a (sort_by xs) → Member a xs
  unfolding sort_by
  Member-of_sort_by a [] m = m
  Member-of_sort_by a (x ∷ xs) m =
      ground (arith, Member-of_insert_sorted a x (sort_by xs), Member-of_sort_by a xs)

  pub Member-sort_by : (a : A) (xs : List A) → Member a xs → Member a (sort_by xs)
  unfolding sort_by
  Member-sort_by a [] m = m
  Member-sort_by a (x ∷ xs) m =
      ground (arith, Member-insert_sorted a x (sort_by xs), Member-sort_by a xs)

module _ {A : Type 0} {less : A → A → Bool} (o : IsWeakOrder less) where
  insert_sorted-IsSorted :
      (x : A) (xs : List A) → IsSorted less xs → IsSorted less (insert_sorted less x xs)
  unfolding insert_sorted
  insert_sorted-IsSorted x [] s = (tt, tt)
  insert_sorted-IsSorted x (y ∷ ys) (below, s) = elim (Bool-cases (less y x)) [
    | inl h ↦
        rw (h, insert_sorted)
          (
            All-of_Member _ _
                (λ a m. not_below (o.asymm y x h) a (Member-of_insert_sorted less a x ys m)),
            insert_sorted-IsSorted x ys s,
          )
    | inr h ↦
        rw (h, insert_sorted)
          ((h, All-of_Member _ _ (λ a m. o.trans x y a h (All-Member _ ys below a m))), (below, s))
  ]
    where
      not_below : less x y ≡ false → (a : A) → Member a (x ∷ ys) → less a y ≡ false
      not_below h a (inl e) = rw e h
      not_below h a (inr m) = All-Member _ ys below a m

  -- The result is in order.
  pub sort_by-IsSorted : (xs : List A) → IsSorted less (sort_by less xs)
  unfolding sort_by
  sort_by-IsSorted [] = tt
  sort_by-IsSorted (x ∷ xs) = insert_sorted-IsSorted x (sort_by less xs) (sort_by-IsSorted xs)

pub text_lt-IsWeakOrder : IsWeakOrder text_lt
text_lt-IsWeakOrder = record {
  asymm = text_lt_asymm;
  trans = λ a b c h k. ground (arith, text_lt_trans c a b, text_lt_total a b);
}

-- `sort.Strings`
unfoldable pub sort_texts : List Text → List Text
unfolding sort_by
sort_texts = sort_by text_lt
