-- ===== src/Sentinel/Update/Initial.antt =====
-- `updateCluster` of cluster_update.go in the initialising phase and the functions of
-- cluster_init.go for it: a keeper is chosen for the first database, which becomes the master, and
-- the cluster is in the normal phase once that database is initialised. `rand_fn` is `RandFn`, and
-- `uid` what `UIDFn` returns.
use hysteron.Base.{
  Text, lookup, insert, keys, Bool, true, false, Option, some, none, ℕ, zero, suc, List, [], ◌∷◌,
  if◌then◌else◌, sort_texts, length, Time,
}
use hysteron.Cluster.Enums.{Role, DbInitMode, ClusterInitMode, ClusterPhase}
use hysteron.Cluster.Spec.{DefSpec}
use hysteron.Cluster.Entities.{Db, DbSpec, Keeper}
use hysteron.Cluster.Document.{ClusterData}
use hysteron.Sentinel.State.{M}
use hysteron.Sentinel.Health.{ConvergenceState, converged, convergence_failed, db_convergence_state}
use hysteron.Sentinel.Update.NewDbs.{spec_of_new, new_db}
use hysteron.Sentinel.Update.Promotion.{master_role}

-- The errors that `updateCluster` returns.
pub data UpdateError : Type 0 where
  no_keepers : UpdateError
  keeper_not_available : Text → UpdateError
  missing_db : Text → UpdateError
  unknown_init_mode : ClusterInitMode → UpdateError
  master_not_available : Text → UpdateError
  unknown_phase : ClusterPhase → UpdateError

-- A document, or the error that kept it from being written.
pub data Outcome : Type 0 where
  written : ClusterData → Outcome
  refused : UpdateError → Outcome

-- `keys[r]`; `none` is the panic out of range.
unfoldable pub get : ℕ → List Text → Option Text
get n [] = none
get zero (x ∷ xs) = some x
get (suc n) (x ∷ xs) = get n xs

-- `findInitialKeeper`: `none` in the middle is its error, `none` outside a panic.
unfoldable pub find_initial_keeper : (ℕ → ℕ) → ClusterData → Option (Option Keeper)
find_initial_keeper rand_fn cd = elim cd.keepers [
  | [] ↦ some none
  | _ ∷ _ ↦ elim (get (rand_fn (length cd.keepers)) (sort_texts (keys cd.keepers))) [
    | none ↦ none
    | some uid ↦ elim (lookup uid cd.keepers) [ none ↦ none | some keeper ↦ some (some keeper) ]
  ]
]

-- The first database, as the master.
unfoldable pub with_first : Text → DbSpec → ClusterData → ClusterData
with_first uid spec cd = record cd {
  cluster = record cd.cluster { status = record cd.cluster.status { master = uid } };
  dbs = insert uid (new_db uid spec) cd.dbs;
}

-- The specification of a first master on a keeper.
unfoldable pub first_spec : DefSpec → Text → DbInitMode → DbSpec
first_spec spec keeper_uid mode = record (spec_of_new keeper_uid mode Role.master) {
  include_config = spec.merge_pg_parameters;
}

-- The first master of a new cluster.
unfoldable pub start_new : (ℕ → ℕ) → Text → DefSpec → ClusterData → Option Outcome
start_new rand_fn uid spec cd = elim (find_initial_keeper rand_fn cd) [
  | none ↦ none
  | some none ↦ some (refused no_keepers)
  | some (some keeper) ↦ some (
      written (
        with_first uid
          (record (first_spec spec keeper.uid DbInitMode.fresh) { new_config = spec.new_config })
          cd))
]

-- The one of the keeper that holds existing data.
unfoldable pub start_existing : Text → DefSpec → ClusterData → Option Outcome
start_existing uid spec cd = elim spec.existing_config [
  | none ↦ none
  | some c ↦ elim (lookup c.keeper_uid cd.keepers) [
    | none ↦ some (refused (keeper_not_available c.keeper_uid))
    | some keeper ↦
        some (written (with_first uid (first_spec spec keeper.uid DbInitMode.existing) cd))
  ]
]

-- The one of a point-in-time recovery; that of a standby cluster follows the external source.
unfoldable pub start_pitr : (ℕ → ℕ) → Text → DefSpec → ClusterData → Option Outcome
start_pitr rand_fn uid spec cd = elim (find_initial_keeper rand_fn cd) [
  | none ↦ none
  | some none ↦ some (refused no_keepers)
  | some (some keeper) ↦ elim (master_role spec) [
    | none ↦ none
    | some (role, follow) ↦ some (
        written (
          with_first uid
            (record (first_spec spec keeper.uid DbInitMode.pitr) {
              pitr_config = spec.pitr_config;
              role = role;
              follow_config = follow;
            })
            cd))
  ]
]

-- The database is initialised, and the cluster goes to the normal phase.
unfoldable pub initialized : DefSpec → Text → Db → ClusterData → ClusterData
initialized spec uid db cd = record cd {
  cluster = record cd.cluster {
    spec =
        if spec.merge_pg_parameters
        then record cd.cluster.spec { pg_parameters = db.status.pg_parameters }
        else cd.cluster.spec;
    status = record cd.cluster.status { phase = ClusterPhase.normal };
  };
  dbs =
      insert uid
        (record db {
          spec = record db.spec { init_mode = DbInitMode.nothing; include_config = false };
        })
        cd.dbs;
}

-- `applyInitialDBConvergence`; `uid` is the key of the database.
unfoldable pub apply_initial_db_convergence :
    DefSpec → Text → Db → ConvergenceState → ClusterData → ClusterData
apply_initial_db_convergence spec uid db converged cd =
    if db.status.healthy then initialized spec uid db cd else cd
apply_initial_db_convergence spec uid db ConvergenceState.converging cd = cd
apply_initial_db_convergence spec uid db convergence_failed cd = record cd {
  cluster = record cd.cluster { status = record cd.cluster.status { master = [] } };
  dbs = [];
}

-- The database of a new or recovered cluster may take the initialisation timeout.
unfoldable pub await_first : Time → DefSpec → ClusterData → ClusterData → M Outcome
await_first now spec cd newcd s =
    let uid = cd.cluster.status.master in
    elim (lookup uid newcd.dbs) [
      | none ↦ some (refused (missing_db uid), s)
      | some db ↦
          let (state, s') = db_convergence_state now db spec.init_timeout s in
          some (written (apply_initial_db_convergence spec uid db state newcd), s')
    ]

abbrev pub is_converged : ConvergenceState → Bool
is_converged converged = true
is_converged _ = false

-- The database with existing data has to converge in the usual time, and is asked only once it is
-- healthy.
unfoldable pub await_existing : Time → DefSpec → ClusterData → ClusterData → M Outcome
await_existing now spec cd newcd s =
    let uid = cd.cluster.status.master in
    elim (lookup uid newcd.dbs) [
      | none ↦ some (refused (missing_db uid), s)
      | some db ↦
          if db.status.healthy
          then (let (state, s') = db_convergence_state now db spec.convergence_timeout s in
              some
                (written (if is_converged state then initialized spec uid db newcd else newcd), s'))
          else some (written newcd, s)
    ]

abbrev pub is_unset : Text → Bool
is_unset [] = true
is_unset _ = false

-- Without a master the first database is created, otherwise it is waited for.
unfoldable pub start_or_await : Text → Option Outcome → M Outcome → M Outcome
start_or_await master start await s =
    if is_unset master
    then elim start [ none ↦ none | some outcome ↦ some (outcome, s) ]
    else await s

-- What the mode of the initialisation asks for; without one, a panic.
unfoldable pub initialize_by :
    (ℕ → ℕ) → Text → Time → DefSpec → ClusterData → ClusterData → Option ClusterInitMode → M Outcome
initialize_by rand_fn uid now spec cd newcd none s = none
initialize_by rand_fn uid now spec cd newcd (some ClusterInitMode.fresh) s =
    start_or_await cd.cluster.status.master (start_new rand_fn uid spec newcd)
      (await_first now spec cd newcd) s
initialize_by rand_fn uid now spec cd newcd (some ClusterInitMode.existing) s =
    start_or_await cd.cluster.status.master (start_existing uid spec newcd)
      (await_existing now spec cd newcd) s
initialize_by rand_fn uid now spec cd newcd (some ClusterInitMode.pitr) s =
    start_or_await cd.cluster.status.master (start_pitr rand_fn uid spec newcd)
      (await_first now spec cd newcd) s
initialize_by rand_fn uid now spec cd newcd (some (ClusterInitMode.unknown mode)) s =
    some (refused (unknown_init_mode (ClusterInitMode.unknown mode)), s)

-- The initialising phase.
unfoldable pub initializing_phase :
    (ℕ → ℕ) → Text → Time → DefSpec → ClusterData → ClusterData → M Outcome
initializing_phase rand_fn uid now spec cd newcd =
    initialize_by rand_fn uid now spec cd newcd spec.init_mode
