-- ===== src/Operations/Rounds.antt =====
-- internal/operations/cluster_control.go and internal/app/app_mutation.go: the loops that read the
-- document, change it and write it if nobody else has. Other clients write before the read and between
-- it and the write, and an answer of the store may be an error, after which the write may or may not
-- have been made.
pub mod Results
pub mod Atomic
pub mod Exhausted
use hysteron.Base.{Bool, true, false, Option, some, none, ℕ, zero, suc, List, [], ◌∷◌, Time}
use hysteron.Cluster.Document.{ClusterData}
use hysteron.Store.{KvPair, Etcd, PutResult, stored, modified, out_of_range, atomic_put, interfere}
use hysteron.Operations.{
  OperationError, no_cluster_data, store_failure, key_modified, retries_exceeded, Change, write,
  nothing_to_do, refuse, Operation, pause, resume, manual_switch, reinitialize, promote,
  update_specification, remove, fail, fail_over, refuse_early, change,
}

-- How the store answers a write.
pub data Answer : Type 0 where
  answered failed failed_after_write : Answer

-- A round of the loop: what others write before the read and before the write, and the answers.
pub record Attempt : Type 0 where
  pub now : Time
  pub before : List ClusterData
  pub between : List ClusterData
  pub unreadable : Bool
  pub answer : Answer

-- `none` is the error nil.
pub record Outcome (State : Type 0) : Type 0 where
  pub state : State
  pub error : Option OperationError

-- `clusterMutateRetries` attempts, where a command tries again; `RemoveKeeper` and `FailKeeper` make
-- one.
unfoldable pub attempts : Operation → Attempt → Attempt → Attempt → List Attempt
attempts (remove uid) a b c = a ∷ []
attempts (fail uid) a b c = a ∷ []
attempts _ a b c = a ∷ b ∷ c ∷ []

unfoldable pub exhausted : Operation → OperationError
exhausted (remove uid) = key_modified
exhausted (fail uid) = key_modified
exhausted _ = retries_exceeded

module _ (etcd : Etcd ClusterData) where
  open etcd use {State, pair}

  -- The write of a round; `retry` is what follows `ErrKeyModified`.
  unfoldable pub try_write :
      Answer → KvPair ClusterData → ClusterData → State → Outcome State → Outcome State
  try_write failed p next s retry = record { state = s; error = some store_failure }
  try_write failed_after_write p next s retry = elim (atomic_put etcd (some p) next s) [
    | modified ↦ record { state = s; error = some store_failure }
    | out_of_range ↦ record { state = s; error = some store_failure }
    | stored t ↦ record { state = t; error = some store_failure }
  ]
  try_write answered p next s retry = elim (atomic_put etcd (some p) next s) [
    | modified ↦ retry
    | out_of_range ↦ record { state = s; error = some store_failure }
    | stored t ↦ record { state = t; error = none }
  ]

  -- A round from the read on.
  unfoldable pub attempt :
      (Time → ClusterData → Change) → Attempt → State → (State → Outcome State) → Outcome State
  attempt f a s retry = elim (pair s) [
    | none ↦ record { state = s; error = some no_cluster_data }
    | some p ↦ elim (f a.now p.value) [
      | refuse e ↦ record { state = s; error = some e }
      | nothing_to_do ↦ record { state = s; error = none }
      | write next ↦ let s' = interfere etcd a.between s in try_write a.answer p next s' (retry s')
    ]
  ]

  -- The loop over the attempts. `last` is the error after the last one.
  unfoldable pub rounds :
      OperationError → (Time → ClusterData → Change) → List Attempt → State → Outcome State
  rounds last f [] s = record { state = s; error = some last }
  rounds last f (a ∷ later) s =
      let read = interfere etcd a.before s in
      elim a.unreadable [
        | true ↦ record { state = read; error = some store_failure }
        | false ↦ attempt f a read (rounds last f later)
      ]

  -- A command.
  unfoldable pub run : Operation → Attempt → Attempt → Attempt → State → Outcome State
  run op a b c s = elim (refuse_early op) [
    | some e ↦ record { state = s; error = some e }
    | none ↦ rounds (exhausted op) (change op) (attempts op a b c) s
  ]
