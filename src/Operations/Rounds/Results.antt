-- ===== src/Operations/Rounds/Results.antt =====
-- What the loop of a command may come to.
use hysteron.Base.{true, some, none, List, [], ◌∷◌, Time, ◌≡◌, ◌≢◌, ◌<◌, ◌⊎◌}
use hysteron.Cluster.Document.{ClusterData}
use hysteron.Store.{KvPair, Etcd, interfere, max_etcd_revision}
use hysteron.Operations.{
  OperationError, store_failure, no_cluster_data, Change, write, nothing_to_do, refuse,
}
use hysteron.Operations.Rounds.{answered, failed_after_write, Attempt, Outcome}

module _ (etcd : Etcd ClusterData) where
  open etcd use {State, pair, put}

  -- What others have made of the state when an attempt writes that reads in the given one.
  unfoldable pub at_write : Attempt → State → State
  at_write a r = interfere etcd a.between r

  -- The state after attempts of which none writes.
  unfoldable pub after_all : List Attempt → State → State
  after_all [] s = s
  after_all (a ∷ rest) s = after_all rest (at_write a (interfere etcd a.before s))

  -- The attempt among the given ones that reads in the last state, if nobody but others has written
  -- since the first.
  pub data Turn : List Attempt → State → Attempt → State → Type 0 where
    its_own :
        {a : Attempt} {rest : List Attempt} {s : State}
        → Turn (a ∷ rest) s a (interfere etcd a.before s)
    after_another :
        {a b : Attempt} {rest : List Attempt} {s r : State}
        → Turn rest (at_write a (interfere etcd a.before s)) b r
        → Turn (a ∷ rest) s b r

  -- In one of the attempts the document that was read is still there at the write, which replaces it
  -- by what the command makes of it.
  pub record Applied (f : Time → ClusterData → Change) (all : List Attempt) (s t : State)
      : Type 0 where
    pub attempt : Attempt
    pub at : State
    pub turn : Turn all s attempt at
    pub read : KvPair ClusterData
    pub next : ClusterData
    pub changed : f attempt.now read.value ≡ write next
    pub still : pair (at_write attempt at) ≡ some read
    pub written : t ≡ put next (at_write attempt at)

  -- The write of an attempt is not made: the store fails, or its index is out of range.
  abbrev pub Unwritable : Attempt → State → Type 0
  Unwritable a r =
      (a.answer ≢ answered)
      ⊎ ((p : KvPair ClusterData) × (pair r ≡ some p) × (max_etcd_revision < p.last_index))

  -- What the loop of a command may come to. Where the command has not written, the state is what
  -- others have made of it until then.
  pub data Result (last : OperationError) (f : Time → ClusterData → Change) (all : List Attempt)
      (s : State) (o : Outcome State) : Type 0 where
    done : o.error ≡ none → Applied f all s o.state → Result last f all s o
    uncertain :
        (p : Applied f all s o.state)
        → p.attempt.answer ≡ failed_after_write
        → o.error ≡ some store_failure
        → Result last f all s o
    idle :
        (a : Attempt) (r : State) (p : KvPair ClusterData)
        → Turn all s a r
        → pair r ≡ some p
        → f a.now p.value ≡ nothing_to_do
        → o ≡ record { state = r; error = none }
        → Result last f all s o
    rejected :
        (a : Attempt) (r : State) (p : KvPair ClusterData) (e : OperationError)
        → Turn all s a r
        → pair r ≡ some p
        → f a.now p.value ≡ refuse e
        → o ≡ record { state = r; error = some e }
        → Result last f all s o
    missing :
        (a : Attempt) (r : State)
        → Turn all s a r
        → pair r ≡ none
        → o ≡ record { state = r; error = some no_cluster_data }
        → Result last f all s o
    unread :
        (a : Attempt) (r : State)
        → Turn all s a r
        → a.unreadable ≡ true
        → o ≡ record { state = r; error = some store_failure }
        → Result last f all s o
    unwritten :
        (a : Attempt) (r : State)
        → Turn all s a r
        → Unwritable a r
        → o ≡ record { state = at_write a r; error = some store_failure }
        → Result last f all s o
    given_up : o ≡ record { state = after_all all s; error = some last } → Result last f all s o
