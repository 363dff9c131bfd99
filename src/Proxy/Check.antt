-- ===== src/Proxy/Check.antt =====
-- internal/runtime/proxy/checker_loop.go: a round of the proxy, and the methods of checker.go and
-- routing.go that it calls. What the store, the listeners and the resolver answer in a round is an
-- argument. A document holds a proxy
-- object, as `NewClusterData` makes it. The stopping of the listeners is left out.
pub mod Serving
pub mod Failing
use hysteron.Base.{
  Text, lookup, elems, Bool, true, false, not, Option, some, none, ℕ, List, [], Duration, ltb_ℤ,
  ◌&&◌, ◌==◌, if◌then◌else◌,
}
use hysteron.Cluster.Validate.{is_valid}
use hysteron.Cluster.Entities.{Db}
use hysteron.Cluster.Document.{ClusterData, def_spec}
use hysteron.Utils.Slices.{contains}
use hysteron.Proxy.ReadOnly.{ReadOnlyOptions, read_only_destinations}

pub data CheckError : Type 0 where
  context_ended get_cluster_data start_writable_listener start_read_only_listener : CheckError
  unsupported_clusterdata_format invalid_cluster_spec set_proxy_info_failed : CheckError

-- What a proxy publishes of itself: the fields of `ProxyInfo` that the sentinel decides on.
pub record Announcement : Type 0 where
  pub uid : Text
  pub generation : ℕ
  pub proxy_timeout : Duration

-- `ClusterChecker`; `published` is the info that the store has from it.
pub record Checker (Addr : Type 0) : Type 0 where
  pub uid : Text
  pub writable : Bool
  pub read_only : Bool
  pub read_only_options : ReadOnlyOptions
  pub writable_destination : Option Addr
  pub read_only_pool : List Addr
  pub proxy_check_interval : Duration
  pub proxy_timeout : Duration
  pub published : Option Announcement

-- The answers of a round: whether the context ended before it, the document (`none` if the read
-- failed, `some none` if there is none), whether the listeners start, whether the info is written,
-- and whether an error of the round is the end of its context.
pub record Round : Type 0 where
  pub ended : Bool
  pub document : Option (Option ClusterData)
  pub writable_starts : Bool
  pub read_only_starts : Bool
  pub publishes : Bool
  pub timed_out : Bool

-- `CurrentCDFormatVersion`
abbrev pub current_cd_format_version : ℕ
current_cd_format_version = 1

-- The greater of the current timeout and the wanted one.
unfoldable pub greater_timeout : Duration → Duration → Duration
greater_timeout current wanted = if ltb_ℤ current wanted then wanted else current

module _ {Addr : Type 0} where
  -- `setWritableDestination`
  unfoldable pub set_writable_destination : Option Addr → Checker Addr → Checker Addr
  set_writable_destination addr c =
      if c.writable then record c { writable_destination = addr } else c

  -- `setReadOnlyDestinations`
  unfoldable pub set_read_only_destinations : List Addr → Checker Addr → Checker Addr
  set_read_only_destinations addrs c =
      if c.read_only then record c { read_only_pool = addrs } else c

  -- `clearDestinations`
  unfoldable pub clear_destinations : Checker Addr → Checker Addr
  clear_destinations c = set_read_only_destinations [] (set_writable_destination none c)

  -- `updateRuntimeConfig`
  unfoldable pub update_runtime_config : Duration → Duration → Checker Addr → Checker Addr
  update_runtime_config interval timeout c = record c {
    proxy_check_interval = interval;
    proxy_timeout = timeout;
  }

  -- `SetProxyInfo` where it succeeds, for a proxy with a writable listener.
  unfoldable pub set_proxy_info : ℕ → Duration → Checker Addr → Checker Addr
  set_proxy_info generation timeout c =
      if c.writable
      then record c {
        published = some (record { uid = c.uid; generation = generation; proxy_timeout = timeout });
      }
      else c

  -- The info of this round, and the intervals of the document.
  unfoldable pub register : ClusterData → Checker Addr → Checker Addr
  register cd c =
      let spec = def_spec cd in
      update_runtime_config spec.proxy_check_interval spec.proxy_timeout
        (set_proxy_info cd.proxy.generation (greater_timeout c.proxy_timeout spec.proxy_timeout) c)

  -- No database for the master: a failure to register is not an error.
  unfoldable pub without_master : Round → ClusterData → Checker Addr → Checker Addr
  without_master r cd c =
      let idle = clear_destinations c in
      if c.writable && not r.publishes then idle else register cd idle

  -- At the end of the context the destinations are cleared.
  unfoldable pub settle : Bool → Checker Addr × Option CheckError → Checker Addr
  settle timed_out (c, none) = c
  settle timed_out (c, some _) = if timed_out then clear_destinations c else c

  module _ (resolve : Text → Text → Option Addr) where
    -- The destinations, where this proxy is enabled.
    unfoldable pub serve : ClusterData → Db → Addr → Checker Addr → Checker Addr
    serve cd db addr c =
        let enabled = contains (elems cd.proxy.spec.enabled_proxies) c.uid in
        let pool = read_only_destinations resolve c.read_only c.read_only_options cd (some db) in
        set_read_only_destinations pool
          (set_writable_destination (if enabled then some addr else none) c)

    -- A failure to register with a master defined is an error.
    unfoldable pub with_master :
        Round → ClusterData → Db → Addr → Checker Addr → Checker Addr × Option CheckError
    with_master r cd db addr c =
        if c.writable && not r.publishes
        then (c, some set_proxy_info_failed)
        else (serve cd db addr (register cd c), none)

    -- `Check` from the look at the master on.
    unfoldable pub route : Round → ClusterData → Checker Addr → Checker Addr × Option CheckError
    route r cd c = elim (lookup cd.proxy.spec.master_db_uid cd.dbs) [
      | none ↦ (without_master r cd c, none)
      | some db ↦ elim (resolve db.status.listen_address db.status.port) [
        | none ↦ (clear_destinations c, none)
        | some addr ↦ with_master r cd db addr c
      ]
    ]

    -- `Check` from the look at the document on.
    unfoldable pub apply_document :
        Round → Option ClusterData → Checker Addr → Checker Addr × Option CheckError
    apply_document r none c = (clear_destinations c, none)
    apply_document r (some cd) c =
        if not (cd.format_version == current_cd_format_version)
        then (clear_destinations c, some unsupported_clusterdata_format)
        else if not (is_valid cd.cluster.spec)
        then (clear_destinations c, some invalid_cluster_spec)
        else route r cd c

    -- `Check`
    unfoldable pub check : Round → Checker Addr → Checker Addr × Option CheckError
    check r c = if r.ended then (c, some context_ended) else elim r.document [
      | none ↦ (c, some get_cluster_data)
      | some document ↦
          if c.writable && not r.writable_starts
          then (c, some start_writable_listener)
          else if c.read_only && not r.read_only_starts
          then (c, some start_read_only_listener)
          else apply_document r document c
    ]

    -- The timer's case of `Start`
    unfoldable pub tick : Round → Checker Addr → Checker Addr
    tick r c = settle r.timed_out (check r c)
