-- ===== src/Utils/Slices.antt =====
-- internal/utils/slices/slice.go. `slices.Contains` is the standard library's.
pub mod Sets
use hysteron.Base.{
  Text, text_eq, Bool, true, false, not, ◌&&◌, List, [], ◌∷◌, filter, length, ◌==◌, if◌then◌else◌,
  sort_texts,
}

-- `slices.Contains`
unfoldable pub contains : List Text → Text → Bool
contains [] v = false
contains (x ∷ xs) v = if text_eq v x then true else contains xs v

-- The loop over the indices of two slices of one length; past the end of `b` the code would
-- panic, which the test of the lengths rules out.
unfoldable pub same_elements : List Text → List Text → Bool
same_elements [] b = true
same_elements (v ∷ a) [] = false
same_elements (v ∷ a) (w ∷ b) = if text_eq v w then same_elements a b else false

-- `CompareStringSlice`
unfoldable pub compare_string_slice : List Text → List Text → Bool
unfolding same_elements
compare_string_slice a b = if length a == length b then same_elements a b else false

-- `CompareStringSliceNoOrder`
unfoldable pub compare_string_slice_no_order : List Text → List Text → Bool
unfolding same_elements
compare_string_slice_no_order a b =
    if length a == length b then same_elements (sort_texts a) (sort_texts b) else false

-- `CommonElements`
unfoldable pub common_elements : List Text → List Text → List Text
common_elements a b = filter (λ v. contains b v) a

-- `Difference`
unfoldable pub difference : List Text → List Text → List Text
difference a b = filter (λ v. not (contains b v)) a
