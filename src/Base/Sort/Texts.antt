-- ===== src/Base/Sort/Texts.antt =====
-- Sorting texts gives one list for all rearrangements of its input.
use mathlib.Core.Path.{◌≡◌, refl, ◌∙◌}
use mathlib.Core.Logic.{∥∥₁_elim, ◌↔◌}
use mathlib.Core.List.{List, [], ◌∷◌, Perm, Permᴰ}
use native.Mathlib.Omega.{arith}
use native.Mathlib.Nat.{ℕ_set}
use hysteron.Base.Lists.{length, Member}
use hysteron.Base.Strings.{Text, text_lt, text_lt_asymm, text_lt_trans, text_lt_total}
use hysteron.Base.Sort.{
  insert_sorted, sort_by, sort_by-perm, sort_texts, Member-of_sort_by, Member-sort_by,
}

List_Text-set : IsSet (List Text)
List_Text-set = hlevel

insert_sorted_comm :
    (a b : Text) (s : List Text)
    → insert_sorted text_lt a (insert_sorted text_lt b s)
      ≡ insert_sorted text_lt b (insert_sorted text_lt a s)
unfolding insert_sorted
insert_sorted_comm a b [] = ground (arith, text_lt_asymm a b, text_lt_total a b)
insert_sorted_comm a b (c ∷ s) = ground (
  arith,
  text_lt_asymm a b,
  text_lt_total a b,
  text_lt_trans c a b,
  text_lt_trans c b a,
  text_lt_trans a b c,
  insert_sorted_comm a b s,
)

sort_by_of_permᴰ : {a b : List Text} → Permᴰ a b → sort_by text_lt a ≡ sort_by text_lt b
unfolding sort_by
sort_by_of_permᴰ Permᴰ.nil = refl
sort_by_of_permᴰ (Permᴰ.cons e p) = cc (e, sort_by_of_permᴰ p)
sort_by_of_permᴰ (Permᴰ.swap {a = a} {b = b} {l = l} e f) =
    rw (← e, ← f) (insert_sorted_comm a b (sort_by text_lt l))
sort_by_of_permᴰ (Permᴰ.trans p q) = sort_by_of_permᴰ p ∙ sort_by_of_permᴰ q

pub sort_texts_of_perm : (a b : List Text) → Perm a b → sort_texts a ≡ sort_texts b
unfolding sort_texts
sort_texts_of_perm a b p = ∥∥₁_elim p (List_Text-set _ _) (λ d. sort_by_of_permᴰ d)

length_of_permᴰ : {a b : List Text} → Permᴰ a b → length a ≡ length b
length_of_permᴰ Permᴰ.nil = refl
length_of_permᴰ (Permᴰ.cons e p) = omega (arith, length_of_permᴰ p)
length_of_permᴰ (Permᴰ.swap e f) = refl
length_of_permᴰ (Permᴰ.trans p q) = length_of_permᴰ p ∙ length_of_permᴰ q

pub length_of_perm : (a b : List Text) → Perm a b → length a ≡ length b
length_of_perm a b p = ∥∥₁_elim p (ℕ_set _ _) (λ d. length_of_permᴰ d)

pub sort_texts-perm : (a : List Text) → Perm (sort_texts a) a
unfolding sort_texts
sort_texts-perm a = sort_by-perm text_lt a

pub Member-sort_texts : (u : Text) (uids : List Text) → Member u (sort_texts uids) ↔ Member u uids
unfolding sort_texts
Member-sort_texts u uids = (Member-of_sort_by text_lt u uids, Member-sort_by text_lt u uids)
