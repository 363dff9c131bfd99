-- ===== src/Operations/Rounds/Atomic.antt =====
-- A command takes effect at once or not at all.
use hysteron.Base.{
  Bool, true, false, Option, some, none, List, [], ◌∷◌, Time, ◌≡◌, ◌<◌, ◌⊎◌, inl, inr, refl, arith,
  Bool-cases, Option-cases, ltb,
}
use hysteron.Cluster.Document.{ClusterData}
use hysteron.Store.{
  KvPair, Etcd, PutResult, stored, modified, out_of_range, committed, atomic_put, interfere,
  max_etcd_revision,
}
use hysteron.Store.History.{none_yet, interfere-Writes, atomic_put_found}
use hysteron.Operations.{
  OperationError, store_failure, Change, write, nothing_to_do, refuse, Operation, refuse_early,
  change,
}
use hysteron.Operations.Rounds.{
  Answer, answered, failed, failed_after_write, Attempt, Outcome, try_write, attempt, rounds,
  attempts, exhausted, run,
}
use hysteron.Operations.Rounds.Results.{
  its_own, after_another, Applied, Result, done, uncertain, idle, rejected, missing, unread,
  unwritten, given_up, at_write, after_all,
}

module _ (etcd : Etcd ClusterData) where
  open etcd use {State, pair, put}

  out_of_range-over :
      (p : KvPair ClusterData) (next : ClusterData) (t : State)
      → atomic_put etcd (some p) next t ≡ out_of_range
      → max_etcd_revision < p.last_index
  unfolding atomic_put
  out_of_range-over p next t h = elim (Bool-cases (ltb max_etcd_revision p.last_index)) [
    | inl over ↦ ground arith
    | inr fits ↦ absurd (in_range (etcd.put_if_revision p.last_index next t) (cc))
  ]
    where
      in_range : (o : Option State) → committed o ≡ out_of_range → ⊥
      in_range none h = cc
      in_range (some u) h = cc

  module _ (last : OperationError) (f : Time → ClusterData → Change) where
    -- A result of the later attempts is one of all of them.
    applied_later :
        (a : Attempt) (rest : List Attempt) (s t : State)
        → Applied etcd f rest (at_write etcd a (interfere etcd a.before s)) t
        → Applied etcd f (a ∷ rest) s t
    applied_later a rest s t p = record {
      attempt = p.attempt;
      at = p.at;
      turn = after_another p.turn;
      read = p.read;
      next = p.next;
      changed = p.changed;
      still = p.still;
      written = p.written;
    }

    result_later :
        (a : Attempt) (rest : List Attempt) (s : State) (o : Outcome State)
        → Result etcd last f rest (at_write etcd a (interfere etcd a.before s)) o
        → Result etcd last f (a ∷ rest) s o
    unfolding after_all applied_later
    result_later a rest s o (done e p) = done e (applied_later a rest s o.state p)
    result_later a rest s o (uncertain p is e) = uncertain (applied_later a rest s o.state p) is e
    result_later a rest s o (idle b r p t found c e) = idle b r p (after_another t) found c e
    result_later a rest s o (rejected b r p x t found c e) =
        rejected b r p x (after_another t) found c e
    result_later a rest s o (missing b r t none_there e) =
        missing b r (after_another t) none_there e
    result_later a rest s o (unread b r t fails e) = unread b r (after_another t) fails e
    result_later a rest s o (unwritten b r t fails e) = unwritten b r (after_another t) fails e
    result_later a rest s o (given_up e) = given_up e

    module _ (a : Attempt) (rest : List Attempt) (s : State) where
      abbrev read_at : State
      read_at = interfere etcd a.before s

      abbrev write_at : State
      write_at = at_write etcd a read_at

      applied :
          (p : KvPair ClusterData) (next : ClusterData)
          → pair read_at ≡ some p
          → f a.now p.value ≡ write next
          → (t : State) → atomic_put etcd (some p) next write_at ≡ stored t
          → Applied etcd f (a ∷ rest) s t
      unfolding at_write
      applied p next found c t k =
          let (still, written) =
            atomic_put_found etcd p next t (interfere-Writes etcd a.between none_yet) found k in
          (record {
            attempt = a;
            at = read_at;
            turn = its_own;
            read = p;
            next = next;
            changed = c;
            still = still;
            written = written;
          })

      try_write-Result :
          (p : KvPair ClusterData) (next : ClusterData) (retry : Outcome State)
          → pair read_at ≡ some p
          → f a.now p.value ≡ write next
          → Result etcd last f (a ∷ rest) s retry
          → (ans : Answer) → a.answer ≡ ans
          → Result etcd last f (a ∷ rest) s (try_write etcd ans p next write_at retry)
      unfolding try_write applied
      try_write-Result p next retry found c h failed is =
          unwritten a read_at its_own (inl (λ e. cc)) refl
      try_write-Result p next retry found c h failed_after_write is =
          go (atomic_put etcd (some p) next write_at) refl
        where
          go :
              (o : PutResult State)
              → atomic_put etcd (some p) next write_at ≡ o
              → Result etcd last f (a ∷ rest) s (elim o [
                | modified ↦ record { state = write_at; error = some store_failure }
                | out_of_range ↦ record { state = write_at; error = some store_failure }
                | stored t ↦ record { state = t; error = some store_failure }
              ])
          go modified k = unwritten a read_at its_own (inl (λ e. cc)) refl
          go out_of_range k = unwritten a read_at its_own (inl (λ e. cc)) refl
          go (stored t) k = uncertain (applied p next found c t k) is refl
      try_write-Result p next retry found c h answered is =
          go (atomic_put etcd (some p) next write_at) refl
        where
          go :
              (o : PutResult State)
              → atomic_put etcd (some p) next write_at ≡ o
              → Result etcd last f (a ∷ rest) s (elim o [
                | modified ↦ retry
                | out_of_range ↦ record { state = write_at; error = some store_failure }
                | stored t ↦ record { state = t; error = none }
              ])
          go modified k = h
          go out_of_range k =
              unwritten a read_at its_own (inr (p, found, out_of_range-over p next write_at k)) refl
          go (stored t) k = done refl (applied p next found c t k)

      attempt-Result :
          (retry : State → Outcome State)
          → Result etcd last f (a ∷ rest) s (retry write_at)
          → Result etcd last f (a ∷ rest) s (attempt etcd f a read_at retry)
      unfolding attempt at_write
      attempt-Result retry h = elim (Option-cases (pair read_at)) [
        | inl e ↦ rw (e, attempt) (missing a read_at its_own e refl)
        | inr (p, e) ↦ rw (e, attempt) (write_now p e (f a.now p.value) refl)
      ]
        where
          write_now :
              (p : KvPair ClusterData)
              → pair read_at ≡ some p
              → (c : Change) → f a.now p.value ≡ c
              → Result etcd last f (a ∷ rest) s (elim c [
                | refuse e ↦ record { state = read_at; error = some e }
                | nothing_to_do ↦ record { state = read_at; error = none }
                | write next ↦
                    let s' = interfere etcd a.between read_at in
                    try_write etcd a.answer p next s' (retry s')
              ])
          write_now p e (refuse x) c = rejected a read_at p x its_own e c refl
          write_now p e nothing_to_do c = idle a read_at p its_own e c refl
          write_now p e (write next) c =
              try_write-Result p next (retry write_at) e c h a.answer refl

    rounds-Result :
        (all : List Attempt) (s : State) → Result etcd last f all s (rounds etcd last f all s)
    unfolding rounds after_all
    rounds-Result [] s = given_up refl
    rounds-Result (a ∷ rest) s = go a.unreadable refl (λ t. rounds-Result rest t)
      where
        go :
            (unreadable : Bool)
            → a.unreadable ≡ unreadable
            → ((t : State) → Result etcd last f rest t (rounds etcd last f rest t))
            → Result etcd last f (a ∷ rest) s (elim unreadable [
              | true ↦ record { state = interfere etcd a.before s; error = some store_failure }
              | false ↦ attempt etcd f a (interfere etcd a.before s) (rounds etcd last f rest)
            ])
        go true u h = unread a (interfere etcd a.before s) its_own u refl
        go false u h =
            attempt-Result a rest s (rounds etcd last f rest) (result_later a rest s _ (h _))

  -- A command that its arguments rule out returns their error and the state as it was. Otherwise,
  -- where it returns no error, one of its attempts has replaced the document that it read, still
  -- there at that instant, by what the command makes of it, or has found nothing to do. Where it
  -- returns an error, it has written nothing, so that the state is what others made of it until
  -- then, for the reason that the error names: the command is refused for the document that was
  -- read, there is none, the store failed or the index is too large, or the attempts are used up; only
  -- where the store fails after a write may the change have been made all the same.
  pub run-Result :
      (op : Operation) (a b c : Attempt) (s : State)
      → ((e : OperationError) × (refuse_early op ≡ some e)
          × (run etcd op a b c s ≡ record { state = s; error = some e }))
        ⊎ ((refuse_early op ≡ none)
            × Result etcd (exhausted op) (change op) (attempts op a b c) s (run etcd op a b c s))
  unfolding run
  run-Result op a b c s = elim (Option-cases (refuse_early op)) [
    | inl allowed ↦ inr (
      allowed,
      rw (allowed, run) (rounds-Result (exhausted op) (change op) (attempts op a b c) s),
    )
    | inr (e, early) ↦ inl (e, early, rw (early, run) refl)
  ]
