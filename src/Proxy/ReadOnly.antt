-- ===== src/Proxy/ReadOnly.antt =====
-- internal/runtime/proxy/routing.go and internal/utils/readonly/priority.go: the destinations of
-- read-only clients. Resolving a listen address and port is a parameter, `resolve`, whose `none` is
-- an error of `net.ResolveTCPAddr`.
pub mod Destinations
use hysteron.Base.{
  Text, text_eq, Map, lookup, keys, elems, Bool, true, false, not, Option, some, none, ℕ, ◌-◌, List,
  [], ◌∷◌, ◌++◌, ◌&&◌, ltb, ◌==◌, if◌then◌else◌, sort_texts, map,
}
use hysteron.Cluster.Enums.{Role}
use hysteron.Cluster.Entities.{Db}
use hysteron.Cluster.Document.{ClusterData}
use hysteron.Utils.Slices.{contains}

pub data ReplicaPriority : Type 0 where
  sync async any : ReplicaPriority
  unknown : Text → ReplicaPriority

unfoldable pub is_empty : {A : Type 0} → List A → Bool
is_empty [] = true
is_empty _ = false

unfoldable pub or_else : {A : Type 0} → List A → List A → List A
unfolding is_empty
or_else preferred others = if is_empty preferred then others else preferred

-- `SelectPriority`
unfoldable pub select_priority : {A : Type 0} → ReplicaPriority → List A → List A → List A
unfolding or_else
select_priority ReplicaPriority.any sync_standbys async_standbys = sync_standbys ++ async_standbys
select_priority ReplicaPriority.async sync_standbys async_standbys =
    or_else async_standbys sync_standbys
select_priority _ sync_standbys async_standbys = or_else sync_standbys async_standbys

-- `XLogLag`
unfoldable pub xlog_lag : ℕ → ℕ → ℕ
xlog_lag primary_xlog_pos standby_xlog_pos =
    if ltb standby_xlog_pos primary_xlog_pos then primary_xlog_pos - standby_xlog_pos else 0

-- `DBStatusEligible`
unfoldable pub db_status_eligible : Db → Bool
unfolding is_empty
db_status_eligible db =
    db.status.healthy
    && db.status.current_generation == db.generation
    && not (is_empty db.status.listen_address)
    && not (is_empty db.status.port)

pub record ReadOnlyOptions : Type 0 where
  pub replica_priority : ReplicaPriority
  pub max_lag : ℕ
  pub include_primary : Bool
  pub no_fallback : Bool

abbrev is_standby : Role → Bool
is_standby Role.standby = true
is_standby _ = false

-- `proxyDestination`; `Addr` are the resolved addresses.
pub record ProxyDestination (Addr : Type 0) : Type 0 where
  pub db_uid : Text
  pub addr : Addr
  pub lag : ℕ

module _ {Addr : Type 0} (resolve : Text → Text → Option Addr) where
  -- `readOnlyDestinationFromDB`
  unfoldable pub read_only_destination_from_db : Db → ℕ → Option (ProxyDestination Addr)
  read_only_destination_from_db db lag = elim (resolve db.status.listen_address db.status.port) [
    | none ↦ none
    | some addr ↦ some (record { db_uid = db.uid; addr = addr; lag = lag })
  ]

  -- The destination of a standby that read-only clients may use.
  unfoldable pub standby_destination : ReadOnlyOptions → Db → Db → Option (ProxyDestination Addr)
  standby_destination options primary db =
      if text_eq db.uid primary.uid
      then none
      else if not (is_standby db.spec.role && db_status_eligible db)
      then none
      else (let lag = xlog_lag primary.status.xlog_pos db.status.xlog_pos in
          if ltb options.max_lag lag then none else read_only_destination_from_db db lag)

  -- Appends a destination to the synchronous or to the asynchronous standbys.
  unfoldable pub file_destination :
      Bool
      → Option (ProxyDestination Addr)
      → List (ProxyDestination Addr) × List (ProxyDestination Addr)
      → List (ProxyDestination Addr) × List (ProxyDestination Addr)
  file_destination is_sync none pools = pools
  file_destination true (some dest) (syncs, asyncs) = (syncs ++ dest ∷ [], asyncs)
  file_destination false (some dest) (syncs, asyncs) = (syncs, asyncs ++ dest ∷ [])

  -- One round of the loop over the databases; `db == nil` is `none`.
  unfoldable pub offer_standby :
      ReadOnlyOptions
      → Db
      → Option Db
      → List (ProxyDestination Addr) × List (ProxyDestination Addr)
      → List (ProxyDestination Addr) × List (ProxyDestination Addr)
  offer_standby options primary none pools = pools
  offer_standby options primary (some db) pools =
      file_destination (contains (elems primary.status.synchronous_standbys) db.uid)
        (standby_destination options primary db) pools

  unfoldable pub standby_candidates :
      ReadOnlyOptions
      → ClusterData
      → Db
      → List Text
      → List (ProxyDestination Addr) × List (ProxyDestination Addr)
      → List (ProxyDestination Addr) × List (ProxyDestination Addr)
  standby_candidates options cd primary [] pools = pools
  standby_candidates options cd primary (uid ∷ uids) pools =
      standby_candidates options cd primary uids
        (offer_standby options primary (lookup uid cd.dbs) pools)

  -- `readOnlyStandbyCandidates`
  unfoldable pub read_only_standby_candidates :
      ReadOnlyOptions
      → ClusterData
      → Db
      → List (ProxyDestination Addr) × List (ProxyDestination Addr)
  read_only_standby_candidates options cd primary =
      standby_candidates options cd primary (sort_texts (keys cd.dbs)) ([], [])

  -- Appends a destination that resolved.
  unfoldable pub add_destination :
      Option (ProxyDestination Addr) → List (ProxyDestination Addr) → List (ProxyDestination Addr)
  add_destination none selected = selected
  add_destination (some dest) selected = selected ++ dest ∷ []

  unfoldable pub with_primary : Db → List (ProxyDestination Addr) → List (ProxyDestination Addr)
  with_primary primary selected = add_destination (read_only_destination_from_db primary 0) selected

  -- The primary among the destinations, by the options.
  unfoldable pub fall_back :
      ReadOnlyOptions → Db → List (ProxyDestination Addr) → List (ProxyDestination Addr)
  unfolding is_empty
  fall_back options primary selected =
      if is_empty selected && not options.no_fallback
      then with_primary primary selected
      else selected

  -- The selection of `readOnlyDestinations`.
  unfoldable pub select_destinations :
      ReadOnlyOptions → ClusterData → Db → List (ProxyDestination Addr)
  select_destinations options cd primary =
      let (syncs, asyncs) = read_only_standby_candidates options cd primary in
      let standbys = select_priority options.replica_priority syncs asyncs in
      fall_back options primary
        (if options.include_primary then with_primary primary standbys else standbys)

  -- `readOnlyDestinations`; `listening` is `c.readOnly != nil`.
  unfoldable pub read_only_destinations :
      Bool → ReadOnlyOptions → ClusterData → Option Db → List Addr
  read_only_destinations listening options cd none = []
  read_only_destinations false options cd (some primary) = []
  read_only_destinations true options cd (some primary) =
      map (λ dest. dest.addr) (select_destinations options cd primary)
