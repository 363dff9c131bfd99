-- ===== src/Sentinel/Update/Specs/Written.antt =====
-- What the end of a round in cluster_update.go writes, in one expression, and what of the databases
-- it leaves as it was.
use mathlib.Core.Option
use hysteron.Base.{
  Text, Map, lookup, lookup-insert, values, Option, some, none, ℕ, ◌≡◌, refl, sym, ap, ◌∙◌, inl,
  inr, arith, Option-cases, Bool-cases, insert, Time, text_eq_iff,
}
use hysteron.Cluster.Entities.{Db, DbStatus}
use hysteron.Cluster.Document.{ClusterData, def_spec}
use hysteron.Sentinel.Update.Specs.{
  set_db_specs, set_db_spec_from_cluster_spec, followers_of, update_followers, update_orphan_slots,
  is_empty, put_slots, bump_generations, finish_update, finish_round,
}
use hysteron.Sentinel.Update.Specs.Changes.{}
use hysteron.Sentinel.Update.Specs.Views.{view, lookup-view, view-insert, view-bump_generations}
use hysteron.Sentinel.Update.Specs.Settings.{}

module _ {B : Type 0} (f : Db → B)
    (blind : (db : Db) (status : DbStatus) → f (record db { status = status }) ≡ f db) where
  view-put_slots :
      (now : Time) (cd newcd : ClusterData) (found : Option Db)
      → lookup newcd.cluster.status.master newcd.dbs ≡ found
      → view f (put_slots now cd newcd found) ≡ view f newcd.dbs
  unfolding put_slots
  view-put_slots now cd newcd none h = refl
  view-put_slots now cd newcd (some master) h =
      view-insert f newcd.cluster.status.master master _ newcd.dbs h (blind master _)

  -- The slots that are left over are no part of a specification.
  pub view-update_orphan_slots :
      (now : Time) (cd newcd : ClusterData)
      → view f (update_orphan_slots now cd newcd).dbs ≡ view f newcd.dbs
  unfolding update_orphan_slots
  view-update_orphan_slots now cd newcd = elim (Bool-cases (is_empty newcd.cluster.status.master)) [
    | inl nobody ↦ rw nobody refl
    | inr named ↦ rw named (view-put_slots now cd newcd _ refl)
  ]

-- What a round writes.
unfoldable pub round_result : Time → ClusterData → ClusterData → ClusterData
round_result now cd set = record (update_orphan_slots now cd set) {
  dbs = bump_generations cd.dbs (update_orphan_slots now cd set).dbs;
}

pub view-round_result :
    {B : Type 0} (f : Db → B)
    → ((db : Db) (status : DbStatus) → f (record db { status = status }) ≡ f db)
    → ((db : Db) (g : ℕ) → f (record db { generation = g }) ≡ f db)
    → (now : Time) (cd set : ClusterData) → view f (round_result now cd set).dbs ≡ view f set.dbs
unfolding round_result
view-round_result f blind ageless now cd set =
    view-bump_generations f ageless cd.dbs (update_orphan_slots now cd set).dbs
    ∙ view-update_orphan_slots f blind now cd set

-- What one map holds under a key another of the same sight holds, as far as it is seen.
pub lookup-of_view :
    {A B : Type 0} (f : A → B) (k : Text) (a b : Map A) (v : A)
    → view f a ≡ view f b
    → lookup k b ≡ some v
    → (v' : A) × (lookup k a ≡ some v') × (f v' ≡ f v)
lookup-of_view {A = A} f k a b v e h =
    let seen : Option.map f (lookup k a) ≡ some (f v) =
      sym (lookup-view f k a) ∙ ap (lookup k) e ∙ lookup-view f k b ∙ ap (Option.map f) h in
    elim (Option-cases (lookup k a)) [
      | inl absent ↦ absurd (none_seen absent seen)
      | inr (v', found) ↦ (v', found, some_seen v' found seen)
    ]
  where
    none_seen : lookup k a ≡ none → Option.map f (lookup k a) ≡ some (f v) → ⊥
    none_seen absent seen = let n : none ≡ some (f v) = rw absent at seen in cc

    some_seen :
        (v' : A) → lookup k a ≡ some v' → Option.map f (lookup k a) ≡ some (f v) → f v' ≡ f v
    some_seen v' found seen = let n : some (f v') ≡ some (f v) = rw found at seen in cc

pub def_spec-round_result :
    (now : Time) (cd set : ClusterData) → def_spec (round_result now cd set) ≡ def_spec set
unfolding def_spec round_result update_orphan_slots
def_spec-round_result now cd set = refl

pub lookup-insert_same : (k : Text) (v : Db) (dbs : Map Db) → lookup k (insert k v dbs) ≡ some v
lookup-insert_same k v dbs = ground (arith, lookup-insert k k v dbs, text_eq_iff k k)

-- The document with the followers of the master.
unfoldable pub with_followers_of : Text → Db → Map Db → Db
with_followers_of w master dbs = record master {
  spec = record master.spec { followers = some (followers_of master.uid w (values dbs)) };
}

unfoldable pub with_followers : Text → Text → Db → ClusterData → ClusterData
with_followers m w master newcd = record newcd {
  dbs = insert m (with_followers_of w master newcd.dbs) newcd.dbs;
}

pub update_followers-found :
    (m w : Text) (newcd : ClusterData) (master : Db)
    → lookup m newcd.dbs ≡ some master
    → update_followers m w newcd.dbs ≡ some (with_followers m w master newcd).dbs
unfolding update_followers with_followers with_followers_of
update_followers-found m w newcd master known = rw (known, update_followers) refl

pub finish_update-set :
    (now : Time) (cd nd : ClusterData) (dbs : Map Db)
    → set_db_specs nd nd.dbs ≡ some dbs
    → finish_update now cd nd ≡ some (round_result now cd (record nd { dbs = dbs }))
unfolding finish_update set_db_spec_from_cluster_spec round_result
finish_update-set now cd nd dbs e = rw (e, set_db_spec_from_cluster_spec, finish_update) refl

pub finish_update-panic :
    (now : Time) (cd nd : ClusterData)
    → set_db_specs nd nd.dbs ≡ none
    → finish_update now cd nd ≡ none
unfolding finish_update set_db_spec_from_cluster_spec
finish_update-panic now cd nd e = rw (e, set_db_spec_from_cluster_spec, finish_update) refl

pub finish_round-found :
    (now : Time) (cd newcd : ClusterData) (m w : Text) (master : Db)
    → lookup m newcd.dbs ≡ some master
    → finish_round now cd m w newcd ≡ finish_update now cd (with_followers m w master newcd)
unfolding finish_round with_followers
finish_round-found now cd newcd m w master known =
    rw (update_followers-found m w newcd master known, finish_round) refl

pub finish_round-missing :
    (now : Time) (cd newcd : ClusterData) (m w : Text)
    → lookup m newcd.dbs ≡ none
    → finish_round now cd m w newcd ≡ none
unfolding finish_round update_followers
finish_round-missing now cd newcd m w absent = rw (absent, update_followers, finish_round) refl
