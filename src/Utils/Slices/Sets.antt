-- ===== src/Utils/Slices/Sets.antt =====
-- The slice helpers as operations on sets, and the comparison without order as equality of bags.
use mathlib.Core.List.{Perm}
use mathlib.Core.List.Perm
use hysteron.Base.{
  Text, text_eq_iff, true, false, not, List, [], ◌∷◌, ◌≡◌, sym, ◌∙◌, ◌↔◌, arith, length, ◌==◌,
  if◌then◌else◌, Member, Member-of_filter, Member-filter, sort_texts, sort_texts_of_perm,
  sort_texts-perm, length_of_perm,
}
use hysteron.Utils.Slices.{
  contains, same_elements, compare_string_slice_no_order, common_elements, difference,
}

pub contains_iff : (xs : List Text) (v : Text) → (contains xs v ≡ true) ↔ Member v xs
unfolding contains
contains_iff [] v = ((λ h. cc), λ m. absurd m)
contains_iff (x ∷ xs) v = (
  λ h. ground (arith, text_eq_iff v x, contains_iff xs v),
  λ m. ground (arith, text_eq_iff v x, contains_iff xs v),
)

-- `CommonElements(a, b)` holds exactly the members of both.
pub Member-common_elements :
    (a b : List Text) (v : Text) → Member v (common_elements a b) ↔ (Member v a × Member v b)
unfolding common_elements
Member-common_elements a b v = (
  λ m. let (in_a, c) = Member-of_filter (λ w. contains b w) v a m in (in_a, (contains_iff b v).0 c),
  λ (in_a, in_b). Member-filter (λ w. contains b w) v a in_a ((contains_iff b v).1 in_b),
)

-- `Difference(a, b)` holds exactly the members of a that are not in b.
pub Member-difference :
    (a b : List Text) (v : Text) → Member v (difference a b) ↔ (Member v a × ¬ (Member v b))
unfolding difference
Member-difference a b v = (
  λ m.
      let (in_a, c) = Member-of_filter (λ w. not (contains b w)) v a m in
      (in_a, λ in_b. ground (arith, contains_iff b v)),
  λ (in_a, out_b).
      Member-filter (λ w. not (contains b w)) v a in_a (ground (arith, contains_iff b v)),
)

pub same_elements_iff :
    (a b : List Text) → length a ≡ length b → (same_elements a b ≡ true) ↔ (a ≡ b)
unfolding same_elements
same_elements_iff [] [] e = ground arith
same_elements_iff [] (w ∷ b) e = absurd (omega arith)
same_elements_iff (v ∷ a) [] e = absurd (omega arith)
same_elements_iff (v ∷ a) (w ∷ b) e = ground (arith, text_eq_iff v w, same_elements_iff a b)

-- `CompareStringSliceNoOrder(a, b)` is true exactly where b is a rearrangement of a.
pub compare_string_slice_no_order_iff :
    (a b : List Text) → (compare_string_slice_no_order a b ≡ true) ↔ Perm a b
unfolding compare_string_slice_no_order
compare_string_slice_no_order_iff a b = (to, from)
  where
    sizes : length a ≡ length b → length (sort_texts a) ≡ length (sort_texts b)
    sizes e =
        length_of_perm _ _ (sort_texts-perm a) ∙ e ∙ sym (length_of_perm _ _ (sort_texts-perm b))

    to :
        (if length a == length b then same_elements (sort_texts a) (sort_texts b) else false) ≡ true
        → Perm a b
    to h =
        let e : length a ≡ length b = ground arith in
        let same : sort_texts a ≡ sort_texts b =
          (same_elements_iff _ _ (sizes e)).0 (ground arith) in
        Perm.trans (Perm.symm (sort_texts-perm a)) (rw same (sort_texts-perm b))

    from :
        Perm a b
        → (if length a == length b then same_elements (sort_texts a) (sort_texts b) else false)
          ≡ true
    from p = ground (
      arith,
      length_of_perm a b p,
      sort_texts_of_perm a b p,
      same_elements_iff (sort_texts a) (sort_texts b),
    )
