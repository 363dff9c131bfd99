-- ===== src/Proxy/ReadOnly/Destinations.antt =====
-- Which databases read-only clients are sent to.
use hysteron.Base.{
  Text, text_eq_iff, lookup, keys, values, elems, Bool, true, false, not, Option, some, none, ◌≤◌,
  ◌+◌, List, [], ◌∷◌, ◌≡◌, ◌≢◌, refl, ◌⊎◌, inl, if◌then◌else◌, ◌&&◌, inr, arith, Option-cases, All,
  All-append, All-Member, All-of_Member, Member, Member-of_lookup, Member-of_map, sort_texts,
}
use hysteron.Cluster.Enums.{Role}
use hysteron.Cluster.Entities.{Db}
use hysteron.Cluster.Document.{ClusterData}
use hysteron.Utils.Slices.{contains}
use hysteron.Proxy.ReadOnly.{
  ReplicaPriority, ReadOnlyOptions, ProxyDestination, is_empty, or_else, select_priority, xlog_lag,
  db_status_eligible, is_standby, read_only_destination_from_db, standby_destination,
  file_destination, offer_standby, standby_candidates, read_only_standby_candidates, with_primary,
  add_destination, fall_back, select_destinations, read_only_destinations,
}

-- A standby that read-only clients may use: healthy, at the wanted generation, and behind the
-- primary by no more than the maximal lag.
pub record IsReadable (options : ReadOnlyOptions) (primary db : Db) : Type 0 where
  pub other : db.uid ≢ primary.uid
  pub standby : db.spec.role ≡ Role.standby
  pub healthy : db.status.healthy ≡ true
  pub converged : db.status.current_generation ≡ db.generation
  pub near : primary.status.xlog_pos ≤ db.status.xlog_pos + options.max_lag

module _ {Addr : Type 0} (resolve : Text → Text → Option Addr) where
  -- The destination of a database whose address resolves to it.
  abbrev pub LeadsTo : ProxyDestination Addr → Db → Type 0
  LeadsTo d db =
      (d.db_uid ≡ db.uid) × (resolve db.status.listen_address db.status.port ≡ some d.addr)

  standby_destination-IsReadable :
      (options : ReadOnlyOptions) (primary db : Db) (d : ProxyDestination Addr)
      → standby_destination resolve options primary db ≡ some d
      → IsReadable options primary db × LeadsTo d db
  unfolding standby_destination read_only_destination_from_db db_status_eligible xlog_lag
  standby_destination-IsReadable options primary db d h =
      elim (Option-cases (resolve db.status.listen_address db.status.port)) [
        | inl n ↦ ground arith
        | inr (addr, e) ↦ (
          record {
            other = ground (arith, text_eq_iff db.uid primary.uid);
            standby = role_of db.spec.role (ground arith);
            healthy = ground arith;
            converged = ground arith;
            near = ground arith;
          },
          (ground arith, ground arith),
        )
      ]
    where
      role_of : (r : Role) → is_standby r ≡ true → r ≡ Role.standby
      role_of Role.standby e = refl
      role_of Role.master e = cc
      role_of Role.undefined e = cc

  -- A destination of a standby of the document that may be used.
  abbrev pub ForStandby : ReadOnlyOptions → ClusterData → Db → ProxyDestination Addr → Type 0
  ForStandby options cd primary d =
      (db : Db) × Member db (values cd.dbs) × IsReadable options primary db × LeadsTo d db

  module _ (options : ReadOnlyOptions) (cd : ClusterData) (primary : Db) where
    abbrev AllStandbys : List (ProxyDestination Addr) → Type 0
    AllStandbys = All (ForStandby options cd primary)

    file_destination-AllStandbys :
        (is_sync : Bool) (o : Option (ProxyDestination Addr))
        (pools : List (ProxyDestination Addr) × List (ProxyDestination Addr))
        → ((d : ProxyDestination Addr) → o ≡ some d → ForStandby options cd primary d)
        → AllStandbys pools.0 × AllStandbys pools.1
        → let after = file_destination resolve is_sync o pools in
          AllStandbys after.0 × AllStandbys after.1
    unfolding file_destination
    file_destination-AllStandbys is_sync none pools h p = p
    file_destination-AllStandbys true (some d) (syncs, asyncs) h (p, q) =
        (All-append _ syncs (d ∷ []) p (h d refl, tt), q)
    file_destination-AllStandbys false (some d) (syncs, asyncs) h (p, q) =
        (p, All-append _ asyncs (d ∷ []) q (h d refl, tt))

    offer_standby-AllStandbys :
        (o : Option Db) (pools : List (ProxyDestination Addr) × List (ProxyDestination Addr))
        → ((db : Db) → o ≡ some db → Member db (values cd.dbs))
        → AllStandbys pools.0 × AllStandbys pools.1
        → let after = offer_standby resolve options primary o pools in
          AllStandbys after.0 × AllStandbys after.1
    unfolding offer_standby
    offer_standby-AllStandbys none pools h p = p
    offer_standby-AllStandbys (some db) pools h p =
        file_destination-AllStandbys (contains (elems primary.status.synchronous_standbys) db.uid)
          (standby_destination resolve options primary db) pools
          (λ d found.
            let (readable, leads) = standby_destination-IsReadable options primary db d found in
            (db, h db refl, readable, leads))
          p

    standby_candidates-AllStandbys :
        (uids : List Text) (pools : List (ProxyDestination Addr) × List (ProxyDestination Addr))
        → AllStandbys pools.0 × AllStandbys pools.1
        → let after = standby_candidates resolve options cd primary uids pools in
          AllStandbys after.0 × AllStandbys after.1
    unfolding standby_candidates
    standby_candidates-AllStandbys [] pools p = p
    standby_candidates-AllStandbys (uid ∷ uids) pools p =
        standby_candidates-AllStandbys uids
          (offer_standby resolve options primary (lookup uid cd.dbs) pools)
          (offer_standby-AllStandbys (lookup uid cd.dbs) pools
            (λ db e. Member-of_lookup uid cd.dbs {v = db} e) p)

    select_priority-AllStandbys :
        (priority : ReplicaPriority) (syncs asyncs : List (ProxyDestination Addr))
        → AllStandbys syncs
        → AllStandbys asyncs
        → AllStandbys (select_priority priority syncs asyncs)
    unfolding select_priority or_else is_empty
    select_priority-AllStandbys ReplicaPriority.any syncs asyncs p q = All-append _ syncs asyncs p q
    select_priority-AllStandbys ReplicaPriority.async syncs [] p q = p
    select_priority-AllStandbys ReplicaPriority.async syncs (d ∷ asyncs) p q = q
    select_priority-AllStandbys ReplicaPriority.sync [] asyncs p q = q
    select_priority-AllStandbys ReplicaPriority.sync (d ∷ syncs) asyncs p q = p
    select_priority-AllStandbys (ReplicaPriority.unknown t) [] asyncs p q = q
    select_priority-AllStandbys (ReplicaPriority.unknown t) (d ∷ syncs) asyncs p q = p

    -- Where the primary may be among the destinations.
    abbrev pub MayUsePrimary : Type 0
    MayUsePrimary = (options.include_primary ≡ true) ⊎ (options.no_fallback ≡ false)

    abbrev pub Allowed : ProxyDestination Addr → Type 0
    Allowed d = ForStandby options cd primary d ⊎ (LeadsTo d primary × MayUsePrimary)

    with_primary-Allowed :
        (selected : List (ProxyDestination Addr))
        → MayUsePrimary
        → All Allowed selected
        → All Allowed (with_primary resolve primary selected)
    unfolding with_primary add_destination read_only_destination_from_db
    with_primary-Allowed selected may p =
        go (read_only_destination_from_db resolve primary 0) (λ d e. ground arith)
      where
        go :
            (o : Option (ProxyDestination Addr))
            → ((d : ProxyDestination Addr) → o ≡ some d → LeadsTo d primary)
            → All Allowed (add_destination resolve o selected)
        go none h = p
        go (some d) h = All-append _ selected (d ∷ []) p (inr (h d refl, may), tt)

    fall_back-Allowed :
        (selected : List (ProxyDestination Addr))
        → All Allowed selected
        → All Allowed (fall_back resolve options primary selected)
    unfolding fall_back
    fall_back-Allowed selected p = go (is_empty selected) options.no_fallback inr
      where
        go :
            (is_nothing no_fallback : Bool)
            → (no_fallback ≡ false → MayUsePrimary)
            → All Allowed (
                if is_nothing && not no_fallback
                then with_primary resolve primary selected
                else selected)
        go true false may = with_primary-Allowed selected (may refl) p
        go true true may = p
        go false _ may = p

    included-Allowed :
        (standbys : List (ProxyDestination Addr)) (included : Bool)
        → (included ≡ true → MayUsePrimary)
        → All Allowed standbys
        → All Allowed (if included then with_primary resolve primary standbys else standbys)
    included-Allowed standbys true may p = with_primary-Allowed standbys (may refl) p
    included-Allowed standbys false may p = p

    select_destinations-Allowed : All Allowed (select_destinations resolve options cd primary)
    unfolding select_destinations read_only_standby_candidates
    select_destinations-Allowed =
        let uids = sort_texts (keys cd.dbs) in
        let (syncs, asyncs) = standby_candidates resolve options cd primary uids ([], []) in
        let (p, q) = standby_candidates-AllStandbys uids ([], []) (tt, tt) in
        let standbys = select_priority options.replica_priority syncs asyncs in
        let all_standbys = select_priority-AllStandbys options.replica_priority syncs asyncs p q in
        let allowed : All Allowed standbys =
          All-of_Member Allowed standbys (λ e me. inl (All-Member _ standbys all_standbys e me)) in
        fall_back-Allowed _ (included-Allowed standbys options.include_primary inl allowed)

  -- Read-only clients are sent only to the addresses of standbys of the document that are healthy, at
  -- the wanted generation and behind the primary by no more than the maximal lag, and to the address
  -- of the primary, that one only where the options include it or allow to fall back to it.
  pub read_only_destinations-Allowed :
      (listening : Bool) (options : ReadOnlyOptions) (cd : ClusterData) (primary : Option Db)
      (addr : Addr)
      → Member addr (read_only_destinations resolve listening options cd primary)
      → (master : Db) × (primary ≡ some master)
        × ((d : ProxyDestination Addr) × (d.addr ≡ addr) × Allowed options cd master d)
  unfolding read_only_destinations
  read_only_destinations-Allowed false options cd (some _) addr m = absurd m
  read_only_destinations-Allowed _ options cd none addr m = absurd m
  read_only_destinations-Allowed true options cd (some master) addr m =
      let (d, md, e) = Member-of_map (λ dest. dest.addr) _ addr m in
      (
        master,
        refl,
        (
          d,
          e,
          All-Member (Allowed options cd master) _ (select_destinations-Allowed options cd master) d
              md,
        ),
      )
