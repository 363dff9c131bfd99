-- ===== src/Sentinel/Update/Promotion/Routing.antt =====
-- Where the proxies send the clients while the master changes.
use hysteron.Base.{
  Text, text_eq, lookup, insert, true, Option, some, ℕ, ◌+◌, List, [], ◌∷◌, ◌≡◌, refl, ◌⊎◌, inl,
  inr, ◌↔◌, arith, Option-cases, Bool-cases, All, ==_iff, sort_texts, map,
}
use hysteron.Cluster.Enums.{Role}
use hysteron.Cluster.Settings.{FollowConfig}
use hysteron.Cluster.Spec.{DefSpec}
use hysteron.Cluster.Entities.{Db, Proxy, ProxyInfo}
use hysteron.Cluster.Document.{ClusterData}
use hysteron.Sentinel.Update.Promotion.{
  is_empty, master_role, without_followers, crowned, with_master, detach_proxy, promote,
  all_converged, converge_proxy, hand_over, same_slice,
}

-- Every active proxy has taken in the given generation of the proxy object.
abbrev pub AllConverged : ℕ → List ProxyInfo → Type 0
AllConverged generation = All (λ pi. pi.generation ≡ generation)

all_converged_iff :
    (generation : ℕ) (pis : List ProxyInfo)
    → (all_converged generation pis ≡ true) ↔ AllConverged generation pis
unfolding all_converged
all_converged_iff generation [] = ground arith
all_converged_iff generation (pi ∷ pis) =
    ground (arith, all_converged_iff generation pis, ==_iff pi.generation generation)

-- The proxies are sent to no master, or to the master of the document.
abbrev RoutesToMaster : ClusterData → Type 0
RoutesToMaster cd =
    (cd.proxy.spec.master_db_uid ≡ []) ⊎ (cd.proxy.spec.master_db_uid ≡ cd.cluster.status.master)

-- What the proxies are told never changes without a new generation.
pub data Versioned (p p' : Proxy) : Type 0 where
  kept : p' ≡ p → Versioned p p'
  bumped : p'.generation ≡ p.generation + 1 → Versioned p p'

-- What the step does with the proxies: the same destination and master as before, to no master, or
-- to the master of the document, where they were sent to no master and all of them have taken that
-- in. The object keeps its generation only if nothing of it changes.
pub data Rerouted (pis : List ProxyInfo) (cd cd' : ClusterData) : Type 0 where
  same :
      cd'.proxy.spec.master_db_uid ≡ cd.proxy.spec.master_db_uid
      → cd'.cluster.status.master ≡ cd.cluster.status.master
      → Versioned cd.proxy cd'.proxy
      → Rerouted pis cd cd'
  detached : cd'.proxy.spec.master_db_uid ≡ [] → Versioned cd.proxy cd'.proxy → Rerouted pis cd cd'
  announced :
      cd.proxy.spec.master_db_uid ≡ []
      → cd'.proxy.spec.master_db_uid ≡ cd'.cluster.status.master
      → AllConverged cd.proxy.generation pis
      → Versioned cd.proxy cd'.proxy
      → Rerouted pis cd cd'

is_empty_iff : (t : Text) → (is_empty t ≡ true) ↔ (t ≡ [])
unfolding is_empty
is_empty_iff [] = ground arith
is_empty_iff (x ∷ t) = ground arith

-- A promotion, step by step.
pub record Promoted (spec : DefSpec) (old_uid new_uid : Text) (cd cd' : ClusterData) : Type 0 where
  pub old : Db
  pub role : Role
  pub follow : Option FollowConfig
  pub new : Db
  pub old_found : lookup old_uid cd.dbs ≡ some old
  pub role_known : master_role spec ≡ some (role, follow)
  pub new_found : lookup new_uid (insert old_uid (without_followers old) cd.dbs) ≡ some new
  pub result :
      with_master new_uid
        (crowned spec role follow (without_followers old) new)
        (insert old_uid (without_followers old) cd.dbs)
        cd
      ≡ cd'

pub promote-Promoted :
    (spec : DefSpec) (old_uid new_uid : Text) (cd cd' : ClusterData)
    → promote spec old_uid new_uid cd ≡ some cd'
    → Promoted spec old_uid new_uid cd cd'
unfolding promote
promote-Promoted spec old_uid new_uid cd cd' h = elim (Option-cases (lookup old_uid cd.dbs)) [
  | inl n ↦ ground arith
  | inr (old, e) ↦ elim (Option-cases (master_role spec)) [
    | inl n ↦ ground arith
    | inr ((role, follow), r) ↦
        elim (Option-cases (lookup new_uid (insert old_uid (without_followers old) cd.dbs))) [
          | inl n ↦ absurd (ground arith)
          | inr (new, f) ↦ record {
            old = old;
            role = role;
            follow = follow;
            new = new;
            old_found = e;
            role_known = r;
            new_found = f;
            result = ground arith;
          }
        ]
  ]
]

-- A promotion names the new master and detaches the proxies.
promote-detached :
    (spec : DefSpec) (old_uid new_uid : Text) (cd cd' : ClusterData)
    → promote spec old_uid new_uid cd ≡ some cd'
    → (cd'.cluster.status.master ≡ new_uid) × (cd'.proxy ≡ detach_proxy cd.proxy)
unfolding with_master
promote-detached spec old_uid new_uid cd cd' h =
    let p = promote-Promoted spec old_uid new_uid cd cd' h in rw (← p.result) (refl, refl)

detach_proxy-empty : (p : Proxy) → (detach_proxy p).spec.master_db_uid ≡ []
unfolding detach_proxy
detach_proxy-empty p = ground (arith, is_empty_iff p.spec.master_db_uid)

detach_proxy-Versioned : (p : Proxy) → Versioned p (detach_proxy p)
unfolding detach_proxy
detach_proxy-Versioned p = elim (Bool-cases (is_empty p.spec.master_db_uid)) [
  | inl e ↦ Versioned.kept (ground arith)
  | inr e ↦ Versioned.bumped (ground arith)
]

converge_proxy-Versioned :
    (pis : List ProxyInfo) (m : Text) (p : Proxy) → Versioned p (converge_proxy pis m p)
unfolding converge_proxy
converge_proxy-Versioned pis m p = elim (Bool-cases (is_empty p.spec.master_db_uid)) [
  | inl e ↦ elim (Bool-cases (all_converged p.generation pis)) [
    | inl c ↦ Versioned.bumped (ground arith)
    | inr c ↦ Versioned.kept (ground arith)
  ]
  | inr e ↦
      elim (Bool-cases
        (same_slice p.spec.enabled_proxies (sort_texts (map (λ (pi : ProxyInfo). pi.uid) pis)))) [
          | inl c ↦ Versioned.kept (ground arith)
          | inr c ↦ Versioned.bumped (ground arith)
        ]
]

converge_proxy-master :
    (pis : List ProxyInfo) (m : Text) (p : Proxy)
    → ((converge_proxy pis m p).spec.master_db_uid ≡ p.spec.master_db_uid)
      ⊎ ((p.spec.master_db_uid ≡ [])
          × ((converge_proxy pis m p).spec.master_db_uid ≡ m)
          × AllConverged p.generation pis)
unfolding converge_proxy
converge_proxy-master pis m p = elim (Bool-cases (is_empty p.spec.master_db_uid)) [
  | inl e ↦ elim (Bool-cases (all_converged p.generation pis)) [
    | inl c ↦ inr (
      (is_empty_iff p.spec.master_db_uid).0 e,
      ground arith,
      (all_converged_iff p.generation pis).0 c,
    )
    | inr c ↦ inl (ground arith)
  ]
  | inr e ↦ inl (ground arith)
]

-- A step from the master of the document to the wanted one leaves the proxies' destination as it is,
-- with the same master, or sends them to no master, or sends them to the master of the new document,
-- which happens only where they were sent to no master and every active proxy has taken that in.
-- Whenever it changes anything of the proxies' object, the object gets the next generation.
pub hand_over-Rerouted :
    (spec : DefSpec) (pis : List ProxyInfo) (wanted : Text) (cd cd' : ClusterData)
    → hand_over spec pis cd.cluster.status.master wanted cd ≡ some cd'
    → Rerouted pis cd cd'
unfolding hand_over
hand_over-Rerouted spec pis wanted cd cd' h =
    let cur = cd.cluster.status.master in
    elim (Bool-cases (text_eq cur wanted)) [
      | inl e ↦
          let same : record cd { proxy = converge_proxy pis cur cd.proxy } ≡ cd' = ground arith in
          let version = converge_proxy-Versioned pis cur cd.proxy in
          rw (← same) (elim (converge_proxy-master pis cur cd.proxy) [
            | inl unchanged ↦ Rerouted.same unchanged refl version
            | inr (was, now, all) ↦ Rerouted.announced was now all version
          ])
      | inr e ↦
          let (_, p) = promote-detached spec cur wanted cd cd' (ground arith) in
          Rerouted.detached (rw p (detach_proxy-empty cd.proxy))
            (rw p (detach_proxy-Versioned cd.proxy))
    ]

-- The proxies are sent to no master or to the master of the document, and a step keeps it so.
hand_over-RoutesToMaster :
    (spec : DefSpec) (pis : List ProxyInfo) (wanted : Text) (cd cd' : ClusterData)
    → RoutesToMaster cd
    → hand_over spec pis cd.cluster.status.master wanted cd ≡ some cd'
    → RoutesToMaster cd'
hand_over-RoutesToMaster spec pis wanted cd cd' routes h =
    elim (hand_over-Rerouted spec pis wanted cd cd' h) [
      | Rerouted.same unchanged master version ↦ ground arith
      | Rerouted.detached nobody version ↦ inl nobody
      | Rerouted.announced was now all version ↦ inr now
    ]
