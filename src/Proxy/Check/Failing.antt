-- ===== src/Proxy/Check/Failing.antt =====
-- What a round that fails leaves, and where clients go after any round.
use hysteron.Base.{
  Text, lookup, Bool, true, false, not, Option, some, none, ◌&&◌, ◌==◌, if◌then◌else◌, ◌≡◌, ◌≢◌,
  refl, ◌⊎◌, inl, inr, Bool-cases, Option-cases,
}
use hysteron.Cluster.Validate.{is_valid}
use hysteron.Cluster.Document.{ClusterData}
use hysteron.Proxy.Check.{
  CheckError, Checker, Round, context_ended, get_cluster_data, start_writable_listener,
  start_read_only_listener, current_cd_format_version, clear_destinations, with_master, route,
  apply_document, check, settle, tick, set_read_only_destinations, set_writable_destination,
}
use hysteron.Proxy.Check.Serving.{Serves, check-Serves, clear_destinations-none}

module _ {Addr : Type 0} (resolve : Text → Text → Option Addr) where
  -- The proxy as it was, or without destinations.
  abbrev Untouched : Checker Addr → Checker Addr → Type 0
  Untouched c c' = (c' ≡ c) ⊎ (c' ≡ clear_destinations c)

  route-Untouched :
      (r : Round) (cd : ClusterData) (c c' : Checker Addr) (e : CheckError)
      → route resolve r cd c ≡ (c', some e)
      → Untouched c c'
  unfolding route with_master
  route-Untouched r cd c c' e h = elim (Option-cases (lookup cd.proxy.spec.master_db_uid cd.dbs)) [
    | inl n ↦ cc
    | inr (db, found) ↦ elim (Option-cases (resolve db.status.listen_address db.status.port)) [
      | inl n ↦ cc
      | inr (at, resolved) ↦ elim (Bool-cases (c.writable && not r.publishes)) [
        | inl b ↦ inl cc
        | inr b ↦ cc
      ]
    ]
  ]

  apply_document-Untouched :
      (r : Round) (document : Option ClusterData) (c c' : Checker Addr) (e : CheckError)
      → apply_document resolve r document c ≡ (c', some e)
      → Untouched c c'
  unfolding apply_document
  apply_document-Untouched r none c c' e h = cc
  apply_document-Untouched r (some cd) c c' e h =
      elim (Bool-cases (cd.format_version == current_cd_format_version)) [
        | inl format ↦ elim (Bool-cases (is_valid cd.cluster.spec)) [
          | inl accepted ↦ route-Untouched r cd c c' e (cc)
          | inr b ↦ inr cc
        ]
        | inr b ↦ inr cc
      ]

  check-Untouched :
      (r : Round) (c c' : Checker Addr) (e : CheckError)
      → check resolve r c ≡ (c', some e)
      → Untouched c c'
  unfolding check
  check-Untouched r c c' e h =
      go r.ended r.document (c.writable && not r.writable_starts)
        (c.read_only && not r.read_only_starts) h
    where
      go :
          (ended : Bool) (answer : Option (Option ClusterData)) (no_writable no_read_only : Bool)
          → ◌≡◌ {A = Checker Addr × Option CheckError}
              (if ended then (c, some context_ended) else elim answer [
                | none ↦ (c, some get_cluster_data)
                | some document ↦
                    if no_writable
                    then (c, some start_writable_listener)
                    else if no_read_only
                    then (c, some start_read_only_listener)
                    else apply_document resolve r document c
              ])
              (c', some e)
          → Untouched c c'
      go true answer _ _ failed = inl cc
      go false none _ _ failed = inl cc
      go false (some document) true _ failed = inl cc
      go false (some document) false true failed = inl cc
      go false (some document) false false done = apply_document-Untouched r document c c' e done

  clear_destinations-writable : (c : Checker Addr) → (clear_destinations c).writable ≡ c.writable
  unfolding clear_destinations set_read_only_destinations set_writable_destination
  clear_destinations-writable c = elim (Bool-cases c.writable) [
    | inl w ↦ elim (Bool-cases c.read_only) [ inl e ↦ rw (w, e) refl | inr e ↦ rw (w, e) refl ]
    | inr w ↦ elim (Bool-cases c.read_only) [ inl e ↦ rw (w, e) refl | inr e ↦ rw (w, e) refl ]
  ]

  settle-kept :
      (timed_out : Bool) (c c' : Checker Addr) (e : CheckError) (addr : Addr)
      → c.writable ≡ true
      → Untouched c c'
      → (settle timed_out (c', some e)).writable_destination ≡ some addr
      → c.writable_destination ≡ some addr
  unfolding settle
  settle-kept false c c' e addr w (inl same) d = cc
  settle-kept false c c' e addr w (inr same) d = let n = clear_destinations-none c w in cc
  settle-kept true c c' e addr w untouched d =
      let still : c'.writable ≡ true = elim untouched [
        | inl same ↦ cc
        | inr same ↦ (let k = clear_destinations-writable c in cc)
      ] in
      let n = clear_destinations-none c' still in cc

  -- After the timer's case of the loop, a proxy with a writable listener sends clients to an address
  -- only if it did so before and the check has failed, or if the document of this round sends them
  -- there, by what a check without an error needs for it.
  pub tick-Serves :
      (r : Round) (c : Checker Addr) (addr : Addr)
      → c.writable ≡ true
      → (tick resolve r c).writable_destination ≡ some addr
      → (((check resolve r c).1 ≢ none) × (c.writable_destination ≡ some addr))
        ⊎ Serves resolve c r.document addr (tick resolve r c).published
  unfolding tick settle
  tick-Serves r c addr w d = go (check resolve r c) refl d
    where
      go :
          (result : Checker Addr × Option CheckError)
          → check resolve r c ≡ result
          → (settle r.timed_out result).writable_destination ≡ some addr
          → ((result.1 ≢ none) × (c.writable_destination ≡ some addr))
            ⊎ Serves resolve c r.document addr (settle r.timed_out result).published
      go (c', none) h d = inr (check-Serves resolve r c c' addr w h d)
      go (c', some e) h d =
          inl (λ n. cc, settle-kept r.timed_out c c' e addr w (check-Untouched r c c' e h) d)
