-- ===== src/Sentinel/Update/SyncStandbys.antt =====
-- "Setup synchronous standbys" of `updateCluster` in cluster_update.go: which standbys the master
-- waits for. `good` are the good standbys of the document `cd` in the making, `cur_master` the
-- master's record of the document before, `master` the one in the making.
pub mod Merge
pub mod Fill
pub mod Best
pub mod Wanted
pub mod Await
pub mod Overlap
pub mod Sufficient
use hysteron.Base.{
  Text, Map, lookup, has_key, insert, values, Bool, true, false, not, Option, some, none, ℕ, zero,
  suc, ◌+◌, ◌-◌, List, [], ◌∷◌, ◌++◌, ◌&&◌, ◌||◌, ltb, ◌==◌, if◌then◌else◌, elems, sort_texts,
  filter, length, Time,
}
use hysteron.Cluster.Spec.{DefSpec}
use hysteron.Cluster.Entities.{Db, DbSpec, DbStatus, Keeper}
use hysteron.Cluster.Document.{ClusterData}
use hysteron.Utils.Slices.{contains, common_elements, difference, compare_string_slice_no_order}
use hysteron.Sentinel.State.{Sentinel, M}
use hysteron.Sentinel.Selection.{find_best_standbys, forbids}
use hysteron.Sentinel.Update.Promotion.{fake_standby_name}

-- The standbys that are in sync already, of those that are required: the known ones and the ones
-- that the master reports now.
unfoldable pub in_sync : Db → List Text
in_sync master =
    let required = elems master.spec.synchronous_standbys in
    let known = common_elements (elems master.status.synchronous_standbys) required in
    let reported = common_elements (elems master.status.cur_synchronous_standbys) required in
    known ++ difference reported known

-- One of the standbys was removed or is not good.
unfoldable pub some_unusable : ClusterData → Map Db → List Text → Bool
some_unusable cd good [] = false
some_unusable cd good (uid ∷ uids) =
    not (has_key uid cd.dbs) || not (has_key uid good) || some_unusable cd good uids

-- The reported and required standbys of a record agree.
unfoldable pub settled : Db → Bool
settled master =
    compare_string_slice_no_order (elems master.status.synchronous_standbys)
      (elems master.spec.synchronous_standbys)

-- Takes the standbys in sync into the status, and gives up waiting for the others if one of them
-- cannot come; sorting the specification sorts the status, which is the same array then.
unfoldable pub await_in_sync : ClusterData → Map Db → Db → Db
await_in_sync cd good master =
    if settled master
    then master
    else (let now_in_sync = in_sync master in
        let missing = difference (elems master.spec.synchronous_standbys) now_in_sync in
        if some_unusable cd good missing
        then record master {
          status = record master.status { synchronous_standbys = some (sort_texts now_in_sync) };
          spec = record master.spec { synchronous_standbys = some (sort_texts now_in_sync) };
        }
        else record master {
          status = record master.status { synchronous_standbys = some now_in_sync };
        })

-- `m[uid] = struct{}{}` on a set.
unfoldable pub add_to_set : Text → List Text → List Text
add_to_set uid set = if contains set uid then set else set ++ uid ∷ []

unfoldable pub set_of : List Text → List Text → List Text
set_of [] set = set
set_of (uid ∷ uids) set = set_of uids (add_to_set uid set)

unfoldable pub drop : ℕ → List Text → List Text
drop zero set = set
drop (suc n) [] = []
drop (suc n) (uid ∷ set) = drop n set

-- The previous standbys that exist and are good, no more than the maximum.
unfoldable pub kept_standbys : ClusterData → Map Db → ℕ → List Text → List Text
kept_standbys cd good max prev =
    let usable = filter (λ uid. has_key uid good) (filter (λ uid. has_key uid cd.dbs) prev) in
    drop (length usable - max) usable

-- The keeper of the standby declares `--can-be-synchronous-replica=false`.
unfoldable pub refuses_sync : ClusterData → Text → Bool
refuses_sync cd uid = elim (lookup uid cd.dbs) [
  | none ↦ false
  | some db ↦ elim (lookup db.spec.keeper_uid cd.keepers) [
    | none ↦ false
    | some keeper ↦ forbids keeper.status.can_be_synchronous_replica
  ]
]

-- One round of the loop that adds good standbys; `left` are still wanted.
unfoldable pub offer_best : ClusterData → ℕ → List Text → Text → ℕ × List Text
offer_best cd left set uid =
    if left == 0 || contains set uid || refuses_sync cd uid
    then (left, set)
    else (left - 1, set ++ uid ∷ [])

unfoldable pub add_best : ClusterData → ℕ → List Db → List Text → List Text
add_best cd left [] set = set
add_best cd left (db ∷ dbs) set =
    let (left', set') = offer_best cd left set db.uid in add_best cd left' dbs set'

-- One round of the loop that keeps previous standbys for the minimum.
unfoldable pub offer_previous : List Text → ℕ → List Text → Text → ℕ × List Text
offer_previous prev left set uid =
    if left == 0 || contains set uid || not (contains prev uid)
    then (left, set)
    else (left - 1, set ++ uid ∷ [])

unfoldable pub add_previous : List Text → ℕ → List Db → List Text → List Text
add_previous prev left [] set = set
add_previous prev left (db ∷ dbs) set =
    let (left', set') = offer_previous prev left set db.uid in add_previous prev left' dbs set'

unfoldable pub all_in : List Text → List Text → Bool
all_in prev [] = true
all_in prev (uid ∷ set) = contains prev uid && all_in prev set

-- Adds the previous standbys that still exist.
unfoldable pub add_all_previous : List Text → List Db → List Text → List Text
add_all_previous prev [] set = set
add_all_previous prev (db ∷ dbs) set =
    add_all_previous prev dbs (if contains prev db.uid then add_to_set db.uid set else set)

-- The merge: a set with a new standby takes all the previous ones along.
unfoldable pub merge_previous : List Text → List Db → List Text → List Text
merge_previous prev dbs set = if all_in prev set then set else add_all_previous prev dbs set

-- The wanted set of standbys.
unfoldable pub wanted_standbys : DefSpec → ClusterData → Map Db → List Db → List Text → List Text
wanted_standbys spec cd good best prev =
    let kept = kept_standbys cd good spec.max_synchronous_standbys prev in
    let filled = add_best cd (spec.max_synchronous_standbys - length kept) best kept in
    let enough =
      add_previous prev (spec.min_synchronous_standbys - length filled) (values cd.dbs) filled in
    merge_previous prev (values cd.dbs) enough

-- The master's record with its new standbys, and the one that never answers if they are too few.
unfoldable pub with_standbys : DefSpec → List Text → Db → Db
with_standbys spec set master = record master {
  spec = record master.spec {
    synchronous_replication = true;
    synchronous_standbys = some (sort_texts set);
    external_synchronous_standbys =
        some
          (if ltb (length set) spec.min_synchronous_standbys then fake_standby_name ∷ [] else []);
  };
  status = record master.status {
    synchronous_standbys = some (common_elements (elems master.status.synchronous_standbys) set);
  };
}

-- "Setup synchronous standbys" with synchronous replication; the master stands under the key
-- `master_uid` of the document.
unfoldable pub setup_standbys : Time → DefSpec → ClusterData → Map Db → Text → Db → Db → M Db
setup_standbys now spec cd good master_uid cur_master master s =
    let awaited = await_in_sync cd good master in
    if not (settled awaited)
    then some (awaited, s)
    else (let cd' : ClusterData = record cd { dbs = insert master_uid awaited cd.dbs } in
        elim (find_best_standbys now cd' cur_master s) [
          | none ↦ none
          | some (best, s') ↦
              let prev = set_of (elems awaited.spec.synchronous_standbys) [] in
              some (with_standbys spec (wanted_standbys spec cd' good best prev) awaited, s')
        ])
