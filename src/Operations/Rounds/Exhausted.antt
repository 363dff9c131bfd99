-- ===== src/Operations/Rounds/Exhausted.antt =====
-- When a command gives up.
use mathlib.Core.Path.{subst}
use hysteron.Base.{
  Bool, true, false, Option, some, none, List, [], ◌∷◌, Time, ◌≡◌, ◌≢◌, refl, All, Option-cases,
  inl, inr, if◌then◌else◌,
}
use hysteron.Cluster.Document.{ClusterData}
use hysteron.Store.{KvPair, Etcd, PutResult, stored, modified, out_of_range, atomic_put, interfere}
use hysteron.Store.History.{atomic_put-ne-modified}
use hysteron.Operations.{
  OperationError, pause_ttl_negative, target_keeper_uid_required, keeper_uid_required,
  store_failure, no_cluster_data, Change, write, nothing_to_do, refuse, Operation, pause, resume,
  manual_switch, reinitialize, promote, update_specification, remove, fail, fail_over, refuse_early,
  change,
}
use hysteron.Operations.Refusals.{Own, OwnErrors, change-OwnErrors}
use hysteron.Operations.Rounds.{
  Answer, answered, failed, failed_after_write, Attempt, Outcome, try_write, attempt, rounds,
  attempts, exhausted, run,
}

-- Others wrote between the read and the write.
abbrev pub Disturbed : Attempt → Type 0
Disturbed a = a.between ≢ []

module _ (etcd : Etcd ClusterData) (last : OperationError) (loops : ¬ Own last) where
  open etcd use {State, pair}

  not_last : (e : OperationError) → Own e → ¬ (some e ≡ some last)
  not_last e own h = loops (subst Own (cc) own)

  try_write_exhausted :
      (ans : Answer) (p : KvPair ClusterData) (next : ClusterData) (s : State)
      (retry : Outcome State)
      → (try_write etcd ans p next s retry).error ≡ some last
      → (atomic_put etcd (some p) next s ≡ modified) × (retry.error ≡ some last)
  unfolding try_write
  try_write_exhausted failed p next s retry h = absurd (not_last store_failure tt h)
  try_write_exhausted failed_after_write p next s retry h = go (atomic_put etcd (some p) next s) h
    where
      go :
          (o : PutResult State)
          → (elim o as (λ _. Outcome State) [
            | modified ↦ record { state = s; error = some store_failure }
            | out_of_range ↦ record { state = s; error = some store_failure }
            | stored t ↦ record { state = t; error = some store_failure }
          ]).error
            ≡ some last
          → (atomic_put etcd (some p) next s ≡ modified) × (retry.error ≡ some last)
      go modified h = absurd (not_last store_failure tt h)
      go out_of_range h = absurd (not_last store_failure tt h)
      go (stored t) h = absurd (not_last store_failure tt h)
  try_write_exhausted answered p next s retry h = go (atomic_put etcd (some p) next s) refl h
    where
      go :
          (o : PutResult State)
          → atomic_put etcd (some p) next s ≡ o
          → (elim o as (λ _. Outcome State) [
            | modified ↦ retry
            | out_of_range ↦ record { state = s; error = some store_failure }
            | stored t ↦ record { state = t; error = none }
          ]).error
            ≡ some last
          → (atomic_put etcd (some p) next s ≡ modified) × (retry.error ≡ some last)
      go modified e h = (e, h)
      go out_of_range e h = absurd (not_last store_failure tt h)
      go (stored t) e h = cc

  module _ (f : Time → ClusterData → Change)
      (own : (now : Time) (cd : ClusterData) → OwnErrors (f now cd)) where
    undisturbed :
        (a : Attempt) (s : State) (p : KvPair ClusterData) (next : ClusterData)
        → a.between ≡ []
        → atomic_put etcd (some p) next (interfere etcd a.between s) ≡ modified
        → pair s ≡ some p
        → ⊥
    undisturbed a s p next calm kept e =
        let fresh = atomic_put-ne-modified etcd p next e in
        let same : interfere etcd a.between s ≡ s = rw calm (unfold interfere in refl) in fresh (cc)

    attempt_exhausted :
        (a : Attempt) (s : State) (retry : State → Outcome State)
        → (attempt etcd f a s retry).error ≡ some last
        → Disturbed a × ((retry (interfere etcd a.between s)).error ≡ some last)
    unfolding attempt
    attempt_exhausted a s retry h = elim (Option-cases (pair s)) [
      | inl e ↦ absurd (not_last no_cluster_data tt (rw (e, attempt) at h))
      | inr (p, e) ↦ go p e (f a.now p.value) (own a.now p.value) (rw (e, attempt) at h)
    ]
      where
        go :
            (p : KvPair ClusterData)
            → pair s ≡ some p
            → (c : Change) → OwnErrors c
            → (elim c as (λ _. Outcome State) [
              | refuse e ↦ record { state = s; error = some e }
              | nothing_to_do ↦ record { state = s; error = none }
              | write next ↦
                  let s' = interfere etcd a.between s in
                  try_write etcd a.answer p next s' (retry s')
            ]).error
              ≡ some last
            → Disturbed a × ((retry (interfere etcd a.between s)).error ≡ some last)
        go p e (refuse x) o h = absurd (not_last x o h)
        go p e nothing_to_do o h = cc
        go p e (write next) o h =
            let (kept, later) =
              try_write_exhausted a.answer p next (interfere etcd a.between s)
                (retry (interfere etcd a.between s)) h in
            ((λ calm. undisturbed a s p next calm kept e), later)

    rounds_exhausted :
        (later : List Attempt) (s : State)
        → (rounds etcd last f later s).error ≡ some last
        → All Disturbed later
    unfolding rounds
    rounds_exhausted [] s h = tt
    rounds_exhausted (a ∷ later) s h = go a.unreadable (λ t. rounds_exhausted later t) h
      where
        go :
            (unreadable : Bool)
            → ((t : State) → (rounds etcd last f later t).error ≡ some last → All Disturbed later)
            → (elim unreadable as (λ _. Outcome State) [
              | true ↦ record { state = interfere etcd a.before s; error = some store_failure }
              | false ↦ attempt etcd f a (interfere etcd a.before s) (rounds etcd last f later)
            ]).error
              ≡ some last
            → All Disturbed (a ∷ later)
        go true rest h = absurd (not_last store_failure tt h)
        go false rest h =
            let (disturbed, k) =
              attempt_exhausted a (interfere etcd a.before s) (rounds etcd last f later) h in
            (disturbed, rest _ k)

exhausted-not-Own : (op : Operation) → ¬ Own (exhausted op)
unfolding exhausted
exhausted-not-Own (pause reason ttl) o = o
exhausted-not-Own resume o = o
exhausted-not-Own (manual_switch target mode) o = o
exhausted-not-Own (reinitialize target) o = o
exhausted-not-Own promote o = o
exhausted-not-Own (update_specification read) o = o
exhausted-not-Own (remove uid) o = o
exhausted-not-Own (fail uid) o = o
exhausted-not-Own fail_over o = o

-- What is refused early is refused by the command's own errors.
abbrev OwnOption : Option OperationError → Type 0
OwnOption none = Unit
OwnOption (some e) = Own e

OwnOption-if : (b : Bool) (e : OperationError) → Own e → OwnOption (if b then some e else none)
OwnOption-if true e own = own
OwnOption-if false e own = tt

refuse_early-Own : (op : Operation) → OwnOption (refuse_early op)
unfolding refuse_early
refuse_early-Own (pause reason ttl) = OwnOption-if _ pause_ttl_negative tt
refuse_early-Own resume = tt
refuse_early-Own (manual_switch target mode) = OwnOption-if _ target_keeper_uid_required tt
refuse_early-Own (reinitialize target) = OwnOption-if _ keeper_uid_required tt
refuse_early-Own promote = tt
refuse_early-Own (update_specification read) = tt
refuse_early-Own (remove uid) = OwnOption-if _ keeper_uid_required tt
refuse_early-Own (fail uid) = OwnOption-if _ keeper_uid_required tt
refuse_early-Own fail_over = tt

-- A command reports that its write was overtaken, or its retries exhausted, only if in each of its
-- attempts other clients wrote between its read and its write.
pub run-Disturbed :
    (etcd : Etcd ClusterData) (op : Operation) (a b c : Attempt) (s : etcd.State)
    → (run etcd op a b c s).error ≡ some (exhausted op)
    → All Disturbed (attempts op a b c)
unfolding run
run-Disturbed etcd op a b c s h = elim (Option-cases (refuse_early op)) [
  | inl e ↦
      rounds_exhausted etcd (exhausted op) (exhausted-not-Own op) (change op) (change-OwnErrors op)
        (attempts op a b c) s (rw (e, run) at h)
  | inr (x, e) ↦
      let early : some x ≡ some (exhausted op) = rw (e, run) at h in
      absurd (
        not_last etcd (exhausted op) (exhausted-not-Own op) x
          (subst OwnOption e (refuse_early-Own op)) early)
]
