-- ===== src/Sentinel/Update/Specs/Orders.antt =====
-- Go ranges over a map in no fixed order: what the end of a round in cluster_update.go makes of the
-- databases, in whatever order it comes by them.
use mathlib.Core.Path.{subst}
use mathlib.Core.Logic.{∥∥₁_elim, ∥∥₁_map}
use mathlib.Core.List.{Perm, Permᴰ}
use mathlib.Core.List.Permᴰ
use hysteron.Base.{
  Text, Map, lookup, values, List, [], ◌∷◌, ◌≡◌, refl, sym, ap, ◌∙◌, Bool, true, false, All, filter,
  some, sort_texts_of_perm, Option, if◌then◌else◌,
}
use hysteron.Cluster.Entities.{Db, DbSpec}
use hysteron.Cluster.Document.{ClusterData, def_spec}
use hysteron.Sentinel.Selection.{db_type}
use hysteron.Sentinel.Update.Specs.{followers_of, is_follower}
use hysteron.Sentinel.Update.Specs.Views.{db_type-lookup}
use hysteron.Sentinel.Update.Specs.Settings.{AllSet}
use hysteron.Sentinel.Update.Specs.Settled.{IsSettled}

-- The same map, ranged over in another order: the same entries, and the same value under each key.
pub record Reordered {V : Type 0} (a b : Map V) : Type 0 where
  pub entries : Perm a b
  pub found : (k : Text) → lookup k b ≡ lookup k a

module _ {A : Type 0} where
  filter_of_permᴰ : (p : A → Bool) {a b : List A} → Permᴰ a b → Permᴰ (filter p a) (filter p b)
  unfolding filter
  filter_of_permᴰ p Permᴰ.nil = Permᴰ.nil
  filter_of_permᴰ p (Permᴰ.cons {a} {b} {l₁} {l₂} e d) =
      subst (λ x. Permᴰ (filter p (a ∷ l₁)) (filter p (x ∷ l₂))) e
        (kept (p a) (filter_of_permᴰ p d))
    where
      kept :
          (t : Bool)
          → Permᴰ (filter p l₁) (filter p l₂)
          → Permᴰ
              (if t then a ∷ filter p l₁ else filter p l₁)
              (if t then a ∷ filter p l₂ else filter p l₂)
      kept true rest = Permᴰ.cons refl rest
      kept false rest = rest
  filter_of_permᴰ p (Permᴰ.swap {a} {b} {a'} {b'} {l} e f) =
      subst (λ x. Permᴰ (filter p (a ∷ b ∷ l)) (filter p (x ∷ b' ∷ l))) f
        (subst (λ x. Permᴰ (filter p (a ∷ b ∷ l)) (filter p (b ∷ x ∷ l))) e (kept (p a) (p b)))
    where
      kept :
          (s t : Bool)
          → Permᴰ
              (if s
                then a ∷ (if t then b ∷ filter p l else filter p l)
                else (if t then b ∷ filter p l else filter p l))
              (if t
                then b ∷ (if s then a ∷ filter p l else filter p l)
                else (if s then a ∷ filter p l else filter p l))
      kept true true = Permᴰ.swap refl refl
      kept true false = Permᴰ.refl _
      kept false true = Permᴰ.refl _
      kept false false = Permᴰ.refl _
  filter_of_permᴰ p (Permᴰ.trans d e) = Permᴰ.trans (filter_of_permᴰ p d) (filter_of_permᴰ p e)

  All_of_permᴰ : (P : A → Type 0) {a b : List A} → Permᴰ a b → All P a → All P b
  All_of_permᴰ P Permᴰ.nil h = tt
  All_of_permᴰ P (Permᴰ.cons e d) (x, h) = (subst P e x, All_of_permᴰ P d h)
  All_of_permᴰ P (Permᴰ.swap e f) (x, (y, h)) = (subst P f y, (subst P e x, h))
  All_of_permᴰ P (Permᴰ.trans d e) h = All_of_permᴰ P e (All_of_permᴰ P d h)

-- The sort makes one list of followers of all orders.
followers_of_perm :
    (m w : Text) (a b : Map Db)
    → Perm a b
    → followers_of m w (values a) ≡ followers_of m w (values b)
unfolding followers_of
followers_of_perm m w a b p = sort_texts_of_perm _ _ (
    ∥∥₁_map p (λ d.
      Permᴰ.map (λ (db : Db). db.uid) (filter_of_permᴰ (is_follower m w) (Permᴰ.map (λ e. e.1) d))))

-- The settings of all databases depend on the types only.
AllSet-of_types :
    (a b : ClusterData) (dbs : Map Db)
    → def_spec a ≡ def_spec b
    → ((uid : Text) → db_type a uid ≡ db_type b uid)
    → AllSet a dbs
    → AllSet b dbs
unfolding AllSet
AllSet-of_types a b [] e types h = tt
AllSet-of_types a b ((uid, db) ∷ dbs) e types (taken, h) =
    (rw (sym e, sym (types db.uid)) taken, AllSet-of_types a b dbs e types h)

Option_DbSpec-set : IsSet (Option DbSpec)
Option_DbSpec-set = hlevel

All-prop :
    {A : Type 0} (P : A → Type 0) → ((a : A) → IsProp (P a)) → (xs : List A) → IsProp (All P xs)
All-prop P h [] = hlevel
All-prop P h (x ∷ xs) = hlevel (h x, All-prop P h xs)

AllSet-Perm : (cd : ClusterData) (a b : Map Db) → Perm a b → AllSet cd a → AllSet cd b
unfolding AllSet
AllSet-Perm cd a b p h =
    ∥∥₁_elim p (All-prop _ (λ e. Option_DbSpec-set _ _) b) (λ d. All_of_permᴰ _ d h)

-- A settled document stays settled in whatever order its databases come.
pub Reordered-IsSettled :
    (m w : Text) (cd : ClusterData) (dbs : Map Db)
    → Reordered cd.dbs dbs
    → IsSettled m w cd
    → IsSettled m w (record cd { dbs = dbs })
unfolding def_spec
Reordered-IsSettled m w cd dbs order s = record {
  master = s.master;
  found = order.found m ∙ s.found;
  followers = s.followers ∙ ap some (followers_of_perm s.master.uid w cd.dbs dbs order.entries);
  all_set =
      let again : ClusterData = record cd { dbs = dbs } in
      AllSet-Perm again cd.dbs dbs order.entries (
        AllSet-of_types cd again cd.dbs refl
          (λ uid. db_type-lookup cd again uid (sym (order.found uid))) s.all_set);
}
