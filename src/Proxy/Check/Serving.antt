-- ===== src/Proxy/Check/Serving.antt =====
-- When a proxy sends clients to a master.
use hysteron.Base.{
  Text, lookup, elems, Bool, true, false, not, Option, some, none, ◌&&◌, ◌==◌, if◌then◌else◌, ◌≡◌,
  refl, inl, inr, arith, Bool-cases, Option-cases,
}
use hysteron.Cluster.Validate.{is_valid}
use hysteron.Cluster.Entities.{Db}
use hysteron.Cluster.Document.{ClusterData, def_spec}
use hysteron.Utils.Slices.{contains}
use hysteron.Proxy.Check.{
  CheckError, context_ended, get_cluster_data, start_writable_listener, start_read_only_listener,
  Announcement, Checker, Round, current_cd_format_version, set_writable_destination,
  set_read_only_destinations, clear_destinations, update_runtime_config, set_proxy_info,
  greater_timeout, register, without_master, serve, with_master, route, apply_document, check,
}

module _ {Addr : Type 0} where
  pub clear_destinations-none :
      (c : Checker Addr) → c.writable ≡ true → (clear_destinations c).writable_destination ≡ none
  unfolding clear_destinations set_read_only_destinations set_writable_destination
  clear_destinations-none c w = elim (Bool-cases c.read_only) [
    | inl e ↦ rw (w, e) refl
    | inr e ↦ rw (w, e) refl
  ]

  register-destination :
      (cd : ClusterData) (c : Checker Addr)
      → (register cd c).writable_destination ≡ c.writable_destination
  unfolding register update_runtime_config set_proxy_info
  register-destination cd c = elim (Bool-cases c.writable) [ inl e ↦ rw e refl | inr e ↦ rw e refl ]

  register_lem :
      (cd : ClusterData) (c : Checker Addr)
      → c.writable ≡ true
      → ((register cd c).writable ≡ true)
        × ((register cd c).uid ≡ c.uid)
        × ((register cd c).published
            ≡ some (record {
              uid = c.uid;
              generation = cd.proxy.generation;
              proxy_timeout = greater_timeout c.proxy_timeout (def_spec cd).proxy_timeout;
            }))
  unfolding register update_runtime_config set_proxy_info
  register_lem cd c w = rw w (refl, refl, refl)

  without_master-none :
      (r : Round) (cd : ClusterData) (c : Checker Addr)
      → c.writable ≡ true
      → (without_master r cd c).writable_destination ≡ none
  unfolding without_master
  without_master-none r cd c w = elim (Bool-cases (c.writable && not r.publishes)) [
    | inl e ↦ rw e (clear_destinations-none c w)
    | inr e ↦ rw (e, register-destination cd (clear_destinations c)) (clear_destinations-none c w)
  ]

module _ {Addr : Type 0} (resolve : Text → Text → Option Addr) where
  -- A document that sends this proxy's clients to an address, and what the store knows of the proxy.
  pub record Serves (c : Checker Addr) (document : Option (Option ClusterData)) (addr : Addr)
      (published : Option Announcement) : Type 0 where
    pub cd : ClusterData
    pub read : document ≡ some (some cd)
    pub format : cd.format_version ≡ current_cd_format_version
    pub accepted : is_valid cd.cluster.spec ≡ true
    pub db : Db
    pub master : lookup cd.proxy.spec.master_db_uid cd.dbs ≡ some db
    pub resolved : resolve db.status.listen_address db.status.port ≡ some addr
    pub enabled : contains (elems cd.proxy.spec.enabled_proxies) c.uid ≡ true
    pub info : Announcement
    pub known : published ≡ some info
    pub mine : info.uid ≡ c.uid
    pub generation : info.generation ≡ cd.proxy.generation

  -- What a round that sends clients to `at` has established.
  record IsServing (cd : ClusterData) (at : Addr) (c c' : Checker Addr) (addr : Addr) : Type 0 where
    same : at ≡ addr
    enabled : contains (elems cd.proxy.spec.enabled_proxies) c.uid ≡ true
    known :
        c'.published
        ≡ some (record {
          uid = c.uid;
          generation = cd.proxy.generation;
          proxy_timeout = greater_timeout c.proxy_timeout (def_spec cd).proxy_timeout;
        })

  serve_lem :
      (cd : ClusterData) (db : Db) (at : Addr) (c : Checker Addr)
      → c.writable ≡ true
      → let enabled = contains (elems cd.proxy.spec.enabled_proxies) c.uid in
        ((serve resolve cd db at c).writable_destination ≡ (if enabled then some at else none))
        × ((serve resolve cd db at c).published ≡ c.published)
  unfolding serve set_read_only_destinations set_writable_destination
  serve_lem cd db at c w = elim (Bool-cases c.read_only) [
    | inl e ↦ rw (w, e) (refl, refl)
    | inr e ↦ rw (w, e) (refl, refl)
  ]

  with_master-IsServing :
      (r : Round) (cd : ClusterData) (db : Db) (at : Addr) (c c' : Checker Addr) (addr : Addr)
      → c.writable ≡ true
      → with_master resolve r cd db at c ≡ (c', none)
      → c'.writable_destination ≡ some addr
      → IsServing cd at c c' addr
  unfolding with_master
  with_master-IsServing r cd db at c c' addr w h d =
      let after = register cd c in
      let (wa, ua, pa) = register_lem cd c w in
      let (ds, ps) = serve_lem cd db at after wa in
      elim (Bool-cases (c.writable && not r.publishes)) [
        | inl e ↦ cc
        | inr e ↦
            let same : serve resolve cd db at after ≡ c' = cc in
            (record { same = ground arith; enabled = ground arith; known = cc })
      ]

  route-IsServing :
      (r : Round) (cd : ClusterData) (c c' : Checker Addr) (addr : Addr)
      → c.writable ≡ true
      → route resolve r cd c ≡ (c', none)
      → c'.writable_destination ≡ some addr
      → (db : Db) × (lookup cd.proxy.spec.master_db_uid cd.dbs ≡ some db)
        × ((at : Addr) × (resolve db.status.listen_address db.status.port ≡ some at)
            × IsServing cd at c c' addr)
  unfolding route
  route-IsServing r cd c c' addr w h d =
      elim (Option-cases (lookup cd.proxy.spec.master_db_uid cd.dbs)) [
        | inl e ↦
            let none_left = without_master-none r cd c w in
            let same : without_master r cd c ≡ c' = cc in cc
        | inr (db, found) ↦ elim (Option-cases (resolve db.status.listen_address db.status.port)) [
          | inl e ↦
              let none_left = clear_destinations-none c w in
              let same : clear_destinations c ≡ c' = cc in cc
          | inr (at, resolved) ↦
              (db, found, (at, resolved, with_master-IsServing r cd db at c c' addr w (cc) d))
        ]
      ]

  apply_document-Serves :
      (r : Round) (document : Option ClusterData) (c c' : Checker Addr) (addr : Addr)
      → r.document ≡ some document
      → c.writable ≡ true
      → apply_document resolve r document c ≡ (c', none)
      → c'.writable_destination ≡ some addr
      → Serves c r.document addr c'.published
  unfolding apply_document
  apply_document-Serves r none c c' addr read w h d =
      let none_left = clear_destinations-none c w in let same : clear_destinations c ≡ c' = cc in cc
  apply_document-Serves r (some cd) c c' addr read w h d =
      elim (Bool-cases (cd.format_version == current_cd_format_version)) [
        | inl format ↦ elim (Bool-cases (is_valid cd.cluster.spec)) [
          | inl accepted ↦
              let (db, master, (at, resolved, serving)) = route-IsServing r cd c c' addr w (cc) d in
              (record {
                cd = cd;
                read = read;
                format = ground arith;
                accepted = accepted;
                db = db;
                master = master;
                resolved = cc;
                enabled = serving.enabled;
                info = _;
                known = serving.known;
                mine = refl;
                generation = refl;
              })
          | inr e ↦ cc
        ]
        | inr e ↦ cc
      ]

  -- A round of a proxy with a writable listener that ends without an error leaves clients to an
  -- address only if the document of this round is of the current format, its specification is valid,
  -- it names a master whose address that is, it enables this proxy, and the store has the info of
  -- this proxy with the generation of the document's proxy object.
  pub check-Serves :
      (r : Round) (c c' : Checker Addr) (addr : Addr)
      → c.writable ≡ true
      → check resolve r c ≡ (c', none)
      → c'.writable_destination ≡ some addr
      → Serves c r.document addr c'.published
  unfolding check
  check-Serves r c c' addr w h d =
      go r.ended r.document (c.writable && not r.writable_starts)
        (c.read_only && not r.read_only_starts) refl h
    where
      go :
          (ended : Bool) (answer : Option (Option ClusterData)) (no_writable no_read_only : Bool)
          → r.document ≡ answer
          → ◌≡◌ {A = Checker Addr × Option CheckError}
              (if ended then (c, some context_ended) else elim answer [
                | none ↦ (c, some get_cluster_data)
                | some document ↦
                    if no_writable
                    then (c, some start_writable_listener)
                    else if no_read_only
                    then (c, some start_read_only_listener)
                    else apply_document resolve r document c
              ])
              (c', none)
          → Serves c r.document addr c'.published
      go true answer _ _ read failed = cc
      go false none _ _ read failed = cc
      go false (some document) true _ read failed = cc
      go false (some document) false true read failed = cc
      go false (some document) false false read done =
          apply_document-Serves r document c c' addr read w done d
