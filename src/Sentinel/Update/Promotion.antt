-- ===== src/Sentinel/Update/Promotion.antt =====
-- `updateCluster` of cluster_update.go in the normal phase, after the decision: the promotion of a
-- new master, and the proxies' way to it.
pub mod Routing
pub mod Detours
pub mod Standbys
use mathlib.Core.List.{map}
use hysteron.Base.{
  Text, text, text_eq, Map, lookup, insert, Bool, true, false, not, Option, some, none, ℕ, ◌+◌,
  List, [], ◌∷◌, ◌&&◌, ltb, ◌==◌, if◌then◌else◌, Slice, elems, sort_texts,
}
use hysteron.Cluster.Enums.{external, ClusterRole, Role}
use hysteron.Cluster.Settings.{FollowConfig, StandbyConfig}
use hysteron.Cluster.Spec.{DefSpec}
use hysteron.Cluster.Entities.{Db, DbSpec, Proxy, ProxySpec, ProxyInfo}
use hysteron.Cluster.Document.{ClusterStatus, Cluster, ClusterData}
use hysteron.Utils.Slices.{compare_string_slice}
use hysteron.Sentinel.Selection.{sync_repl}

-- `fakeStandbyName`
abbrev pub fake_standby_name : Text
fake_standby_name = text "hysteronfakestandby"

abbrev pub is_standby_role : ClusterRole → Bool
is_standby_role ClusterRole.standby = true
is_standby_role _ = false

is_empty : {A : Type 0} → List A → Bool
is_empty [] = true
is_empty _ = false

-- The external source that the master of a standby cluster follows.
external_follow : StandbyConfig → FollowConfig
external_follow c = record {
  standby_settings = c.standby_settings;
  archive_recovery_settings = c.archive_recovery_settings;
  follow_type = external;
  db_uid = [];
}

-- The role of a new master and what it follows; a standby cluster without `standbyConfig` is a
-- panic.
unfoldable pub master_role : DefSpec → Option (Role × Option FollowConfig)
unfolding external_follow
master_role spec =
    if is_standby_role spec.role
    then elim spec.standby_config [
      | none ↦ none
      | some c ↦ some (Role.standby, some (external_follow c))
    ]
    else some (Role.master, none)

-- Tells the proxies that there is no active master.
unfoldable pub detach_proxy : Proxy → Proxy
unfolding is_empty
detach_proxy p =
    if is_empty p.spec.master_db_uid
    then p
    else record p { spec = record p.spec { master_db_uid = [] }; generation = p.generation + 1 }

-- The synchronous standbys of the old master, the new master replaced by the old one.
unfoldable pub swap_standbys : Text → Text → List Text → List Text
swap_standbys new_uid old_uid [] = []
swap_standbys new_uid old_uid (uid ∷ uids) =
    (if text_eq uid new_uid then old_uid else uid) ∷ swap_standbys new_uid old_uid uids

-- A standby that never answers, where there is none and at least one is required.
unfoldable pub placeholder : DefSpec → List Text → List Text
unfolding is_empty
placeholder spec standbys =
    if is_empty standbys && ltb 0 spec.min_synchronous_standbys then fake_standby_name ∷ [] else []

-- The synchronous replication of the new master.
unfoldable pub take_over_standbys : DefSpec → Db → Text → DbSpec → DbSpec
take_over_standbys spec old new_uid s =
    if sync_repl spec
    then (let standbys = swap_standbys new_uid old.uid (elems old.spec.synchronous_standbys) in
        record s {
          synchronous_replication = true;
          synchronous_standbys = some (sort_texts standbys);
          external_synchronous_standbys = some (placeholder spec standbys);
        })
    else record s {
      synchronous_replication = false;
      synchronous_standbys = none;
      external_synchronous_standbys = none;
    }

-- The old master loses its followers.
unfoldable pub without_followers : Db → Db
without_followers db = record db { spec = record db.spec { followers = some [] } }

-- The new master's record.
unfoldable pub crowned : DefSpec → Role → Option FollowConfig → Db → Db → Db
crowned spec role follow old new = record new {
  spec =
      take_over_standbys spec old new.uid (record new.spec { role = role; follow_config = follow });
}

-- The document with a new master among the databases.
unfoldable pub with_master : Text → Db → Map Db → ClusterData → ClusterData
with_master new_uid new dbs cd = record cd {
  cluster = record cd.cluster { status = record cd.cluster.status { master = new_uid } };
  dbs = insert new_uid new dbs;
  proxy = detach_proxy cd.proxy;
}

-- "New master elected"; the databases are found under the keys `old_uid` and `new_uid`.
unfoldable pub promote : DefSpec → Text → Text → ClusterData → Option ClusterData
promote spec old_uid new_uid cd = elim (lookup old_uid cd.dbs) [
  | none ↦ none
  | some old ↦ elim (master_role spec) [
    | none ↦ none
    | some (role, follow) ↦
        let dbs = insert old_uid (without_followers old) cd.dbs in
        elim (lookup new_uid dbs) [
          | none ↦ none
          | some new ↦
              some
                (with_master new_uid (crowned spec role follow (without_followers old) new) dbs cd)
        ]
  ]
]

-- Every active proxy has taken in the proxy object as it is.
unfoldable pub all_converged : ℕ → List ProxyInfo → Bool
all_converged generation [] = true
all_converged generation (pi ∷ pis) = pi.generation == generation && all_converged generation pis

same_slice : Slice → List Text → Bool
same_slice none xs = false
same_slice (some ys) xs = compare_string_slice ys xs

-- The proxy object while the master stays: the master is announced once all proxies have dropped
-- the old one, and afterwards the enabled proxies are kept up to date.
unfoldable pub converge_proxy : List ProxyInfo → Text → Proxy → Proxy
unfolding is_empty same_slice
converge_proxy pis master p =
    if is_empty p.spec.master_db_uid
    then if all_converged p.generation pis
      then record p {
        spec = record p.spec { master_db_uid = master };
        generation = p.generation + 1;
      }
      else p
    else let enabled = sort_texts (map (λ (pi : ProxyInfo). pi.uid) pis) in
      if same_slice p.spec.enabled_proxies enabled then p else record p {
        spec = record p.spec { enabled_proxies = some enabled };
        generation = p.generation + 1;
      }

-- The step of the round from the decision to the proxies.
unfoldable pub hand_over : DefSpec → List ProxyInfo → Text → Text → ClusterData → Option ClusterData
hand_over spec pis cur_uid wanted cd =
    if text_eq cur_uid wanted
    then some (record cd { proxy = converge_proxy pis cur_uid cd.proxy })
    else promote spec cur_uid wanted cd
