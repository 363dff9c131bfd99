-- ===== src/Store.antt =====
-- internal/store/kvbacked.go and etcdv3.go: the cluster-data document in etcd. etcd itself is not
-- part of the repository: it is the interface `Etcd`, for the one key of the document, with what the
-- code relies on as laws. A read or a write that fails is an answer in Operations/Rounds. The
-- encoding as JSON is left out: a document stands for its text.
pub mod History
use hysteron.Base.{
  Bool, true, false, Option, some, none, ℕ, List, [], ◌∷◌, ◌≡◌, ◌≢◌, ◌≤◌, ◌<◌, ◌-◌, ◌^◌, ltb,
  if◌then◌else◌,
}

-- `KVPair`, without the key.
pub record KvPair (V : Type 0) : Type 0 where
  pub value : V
  pub last_index : ℕ

-- etcd at one key: the value with its modification revision, a put, and the two transactions that
-- put the value if the modification revision is the given one, or if the key was never created. A
-- transaction that does not succeed is `none`.
pub record Etcd (V : Type 0) : Type 1 where
  pub State : Type 0
  pub pair : State → Option (KvPair V)
  pub put : V → State → State
  pub put_if_revision : ℕ → V → State → Option State
  pub put_if_absent : V → State → Option State
  pub revision : State → ℕ
  pub pair-put :
      (v : V) (s : State)
      → pair (put v s) ≡ some (record { value = v; last_index = revision (put v s) })
  pub revision-put : (v : V) (s : State) → revision s < revision (put v s)
  pub index-le-revision : (s : State) (p : KvPair V) → pair s ≡ some p → p.last_index ≤ revision s
  pub put_if_revision-same :
      (v : V) (s : State) (p : KvPair V)
      → pair s ≡ some p
      → put_if_revision p.last_index v s ≡ some (put v s)
  pub put_if_revision-other :
      (r : ℕ) (v : V) (s : State)
      → ((p : KvPair V) → pair s ≡ some p → p.last_index ≢ r)
      → put_if_revision r v s ≡ none

-- The result of `AtomicPut`: the written state, `ErrKeyModified`, or another error.
pub data PutResult (State : Type 0) : Type 0 where
  stored : State → PutResult State
  modified : PutResult State
  out_of_range : PutResult State

-- `maxEtcdRevision`
abbrev pub max_etcd_revision : ℕ
max_etcd_revision = 2 ^ 63 - 1

-- `tresp.Succeeded`
abbrev pub committed : {State : Type 0} → Option State → PutResult State
committed none = modified
committed (some s) = stored s

module _ {V : Type 0} (etcd : Etcd V) where
  open etcd use {State, put, put_if_revision, put_if_absent}

  -- `AtomicPut`, with the previous pair, which `AtomicPutClusterData` passes without its value.
  unfoldable pub atomic_put : Option (KvPair V) → V → State → PutResult State
  atomic_put none v s = committed (put_if_absent v s)
  atomic_put (some previous) v s =
      if ltb max_etcd_revision previous.last_index
      then out_of_range
      else committed (put_if_revision previous.last_index v s)

  -- What other clients write.
  unfoldable pub interfere : List V → State → State
  interfere [] s = s
  interfere (v ∷ vs) s = interfere vs (put v s)
