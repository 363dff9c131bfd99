-- ===== src/Sentinel/Update/Rounds/First.antt =====
-- When `updateCluster` in cluster_update.go ends the initialising phase.
use hysteron.Base.{
  Text, lookup, true, Option, some, none, ℕ, List, ◌≡◌, refl, ◌⊎◌, inl, inr, arith, Bool-cases,
  Option-cases, Time,
}
use hysteron.Cluster.Enums.{ClusterPhase, ClusterInitMode}
use hysteron.Cluster.Spec.{DefSpec}
use hysteron.Cluster.Entities.{Db, ProxyInfo}
use hysteron.Cluster.Document.{ClusterData, def_spec}
use hysteron.Base.{Duration}
use hysteron.Sentinel.State.{Sentinel, M}
use hysteron.Sentinel.Health.{ConvergenceState, converged, convergence_failed, db_convergence_state}
use hysteron.Sentinel.Update.Initial.{
  Outcome, written, refused, with_first, start_new, start_existing, start_pitr,
  apply_initial_db_convergence, await_first, await_existing, is_converged, start_or_await, is_unset,
  initialize_by, initializing_phase,
}
use hysteron.Sentinel.Update.Specs.{finish_update}
use hysteron.Sentinel.Update.Rounds.{update_cluster, finish_phase}
use hysteron.Sentinel.Update.Rounds.Master.{finish_update-cluster}

-- The database is healthy and has taken in the generation that is wanted of it.
pub record IsReady (db : Db) : Type 0 where
  pub healthy : db.status.healthy ≡ true
  pub converged : db.status.current_generation ≡ db.generation

-- The phase stays, or the master of the document is ready.
Awaited : ClusterData → ClusterData → ClusterData → Type 0
Awaited cd newcd x =
    (x.cluster.status.phase ≡ newcd.cluster.status.phase)
    ⊎ ((db : Db) × (lookup cd.cluster.status.master newcd.dbs ≡ some db) × IsReady db)

db_convergence_state-converged :
    (now : Time) (db : Db) (timeout : Duration) (s : Sentinel)
    → (db_convergence_state now db timeout s).0 ≡ converged
    → db.status.current_generation ≡ db.generation
unfolding db_convergence_state
db_convergence_state-converged now db timeout s h = ground arith

module _ (rand_fn : ℕ → ℕ) (uid : Text) (spec : DefSpec) (cd x : ClusterData) where
  start_new-phase :
      start_new rand_fn uid spec cd ≡ some (written x)
      → x.cluster.status.phase ≡ cd.cluster.status.phase
  unfolding start_new with_first
  start_new-phase h = ground arith

  start_existing-phase :
      start_existing uid spec cd ≡ some (written x)
      → x.cluster.status.phase ≡ cd.cluster.status.phase
  unfolding start_existing with_first
  start_existing-phase h = ground arith

  start_pitr-phase :
      start_pitr rand_fn uid spec cd ≡ some (written x)
      → x.cluster.status.phase ≡ cd.cluster.status.phase
  unfolding start_pitr with_first
  start_pitr-phase h = ground arith

is_converged_sound : (state : ConvergenceState) → is_converged state ≡ true → state ≡ converged
is_converged_sound converged h = refl
is_converged_sound ConvergenceState.converging h = cc
is_converged_sound convergence_failed h = cc

apply_initial-phase :
    (spec : DefSpec) (uid : Text) (db : Db) (state : ConvergenceState) (cd : ClusterData)
    → ((apply_initial_db_convergence spec uid db state cd).cluster.status.phase
        ≡ cd.cluster.status.phase)
      ⊎ ((db.status.healthy ≡ true) × (state ≡ converged))
unfolding apply_initial_db_convergence
apply_initial-phase spec uid db converged cd = elim (Bool-cases db.status.healthy) [
  | inl healthy ↦ inr (healthy, refl)
  | inr ill ↦ inl (rw ill refl)
]
apply_initial-phase spec uid db ConvergenceState.converging cd = inl refl
apply_initial-phase spec uid db convergence_failed cd = inl refl

await_first-Awaited :
    (now : Time) (spec : DefSpec) (cd newcd x : ClusterData) (s s' : Sentinel)
    → await_first now spec cd newcd s ≡ some (written x, s')
    → Awaited cd newcd x
unfolding await_first Awaited
await_first-Awaited now spec cd newcd x s s' h =
    let uid = cd.cluster.status.master in
    elim (Option-cases (lookup uid newcd.dbs)) [
      | inl missing ↦ ground arith
      | inr (db, e) ↦
          let state = (db_convergence_state now db spec.init_timeout s).0 in
          let result : apply_initial_db_convergence spec uid db state newcd ≡ x = ground arith in
          elim (apply_initial-phase spec uid db state newcd) [
            | inl stays ↦ inl (rw (← result) stays)
            | inr (healthy, there) ↦ inr (
              db,
              e,
              record {
                healthy = healthy;
                converged = db_convergence_state-converged now db spec.init_timeout s there;
              },
            )
          ]
    ]

await_existing-Awaited :
    (now : Time) (spec : DefSpec) (cd newcd x : ClusterData) (s s' : Sentinel)
    → await_existing now spec cd newcd s ≡ some (written x, s')
    → Awaited cd newcd x
unfolding await_existing Awaited
await_existing-Awaited now spec cd newcd x s s' h =
    elim (Option-cases (lookup cd.cluster.status.master newcd.dbs)) [
      | inl missing ↦ ground arith
      | inr (db, e) ↦
          let done = db_convergence_state-converged now db spec.convergence_timeout s in
          let state = (db_convergence_state now db spec.convergence_timeout s).0 in
          elim (Bool-cases db.status.healthy) [
            | inl healthy ↦ elim (Bool-cases (is_converged state)) [
              | inl there ↦ inr (
                db,
                e,
                record { healthy = healthy; converged = done (is_converged_sound state there) },
              )
              | inr not_yet ↦ inl (ground arith)
            ]
            | inr ill ↦ inl (ground arith)
          ]
    ]

start_or_await-Awaited :
    (cd newcd x : ClusterData) (start : Option Outcome) (await : M Outcome) (s s' : Sentinel)
    → (start ≡ some (written x) → x.cluster.status.phase ≡ newcd.cluster.status.phase)
    → (await s ≡ some (written x, s') → Awaited cd newcd x)
    → start_or_await cd.cluster.status.master start await s ≡ some (written x, s')
    → Awaited cd newcd x
unfolding start_or_await Awaited
start_or_await-Awaited cd newcd x start await s s' begun waited h =
    elim (Bool-cases (is_unset cd.cluster.status.master)) [
      | inl unset ↦ inl (begun (ground arith))
      | inr set ↦ waited (ground arith)
    ]

initialize_by-Awaited :
    (rand_fn : ℕ → ℕ) (uid : Text) (now : Time) (spec : DefSpec) (cd newcd x : ClusterData)
    (mode : Option ClusterInitMode) (s s' : Sentinel)
    → initialize_by rand_fn uid now spec cd newcd mode s ≡ some (written x, s')
    → Awaited cd newcd x
unfolding initialize_by
initialize_by-Awaited rand_fn uid now spec cd newcd x none s s' h = cc
initialize_by-Awaited rand_fn uid now spec cd newcd x (some ClusterInitMode.fresh) s s' h =
    start_or_await-Awaited cd newcd x _ _ s s' (start_new-phase rand_fn uid spec newcd x)
      (await_first-Awaited now spec cd newcd x s s') h
initialize_by-Awaited rand_fn uid now spec cd newcd x (some ClusterInitMode.existing) s s' h =
    start_or_await-Awaited cd newcd x _ _ s s' (start_existing-phase rand_fn uid spec newcd x)
      (await_existing-Awaited now spec cd newcd x s s') h
initialize_by-Awaited rand_fn uid now spec cd newcd x (some ClusterInitMode.pitr) s s' h =
    start_or_await-Awaited cd newcd x _ _ s s' (start_pitr-phase rand_fn uid spec newcd x)
      (await_first-Awaited now spec cd newcd x s s') h
initialize_by-Awaited rand_fn uid now spec cd newcd x (some (ClusterInitMode.unknown m)) s s' h = cc

initializing_phase-Awaited :
    (rand_fn : ℕ → ℕ) (uid : Text) (now : Time) (spec : DefSpec) (cd newcd x : ClusterData)
    (s s' : Sentinel)
    → initializing_phase rand_fn uid now spec cd newcd s ≡ some (written x, s')
    → Awaited cd newcd x
unfolding initializing_phase
initializing_phase-Awaited rand_fn uid now spec cd newcd x s s' h =
    initialize_by-Awaited rand_fn uid now spec cd newcd x spec.init_mode s s' h

-- The initialising phase ends only with a master that is known, healthy, and has taken in the
-- generation that is wanted of it.
pub update_cluster-IsReady :
    (uid_fn : ℕ → Text) (rand_fn : ℕ → ℕ) (now : Time) (pis : List ProxyInfo) (cd cd' : ClusterData)
    (s s' : Sentinel)
    → cd.cluster.status.phase ≡ ClusterPhase.initializing
    → update_cluster uid_fn rand_fn now pis cd s ≡ some (written cd', s')
    → cd'.cluster.status.phase ≡ ClusterPhase.normal
    → (db : Db) × (lookup cd.cluster.status.master cd.dbs ≡ some db) × IsReady db
unfolding update_cluster finish_phase Awaited
update_cluster-IsReady uid_fn rand_fn now pis cd cd' s s' initial h normal =
    elim (Option-cases (initializing_phase rand_fn (uid_fn 0) now (def_spec cd) cd cd s)) [
      | inl panic ↦ ground arith
      | inr ((refused e, s1), run) ↦ ground arith
      | inr ((written x, s1), run) ↦ elim (Option-cases (finish_update now cd x)) [
        | inl panic ↦ ground arith
        | inr (x', finished) ↦
            let kept = finish_update-cluster now cd x x' finished in
            elim (initializing_phase-Awaited rand_fn (uid_fn 0) now (def_spec cd) cd cd x s s1
              run) [ inl stays ↦ ground arith | inr ready ↦ ready ]
      ]
    ]
