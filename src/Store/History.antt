-- ===== src/Store/History.antt =====
-- The index that the store gives to a write tells the versions of the document apart.
use hysteron.Base.{
  Option, some, none, List, [], ◌∷◌, ◌≡◌, ◌≢◌, ◌≤◌, ◌<◌, refl, arith, ◌⊎◌, inl, inr, Option-cases,
  Bool-cases, ltb,
}
use hysteron.Store.{
  KvPair, Etcd, stored, modified, committed, max_etcd_revision, atomic_put, interfere,
}

module _ {V : Type 0} (etcd : Etcd V) where
  open etcd use {
    State, pair, put, put_if_revision, revision, pair-put, revision-put, index-le-revision,
    put_if_revision-same, put_if_revision-other,
  }

  -- A state that other clients may have reached.
  pub data Writes (s : State) : State → Type 0 where
    none_yet : Writes s s
    write : {t : State} (v : V) → Writes s t → Writes s (put v t)

  revision-Writes : {s t : State} → Writes s t → revision s ≤ revision t
  revision-Writes none_yet = omega arith
  revision-Writes (write {t} v w) = omega (arith, revision-Writes w, revision-put v t)

  -- After a write the index is above the revision before it.
  Writes-index :
      {s t : State}
      → Writes s t
      → (pair t ≡ pair s) ⊎ ((p : KvPair V) → pair t ≡ some p → revision s < p.last_index)
  Writes-index none_yet = inl refl
  Writes-index (write {t} v w) = inr (λ p e.
      let r = revision-Writes w in let g = revision-put v t in let k = pair-put v t in ground arith)

  pub interfere-Writes : (vs : List V) {s t : State} → Writes s t → Writes s (interfere etcd vs t)
  unfolding interfere
  interfere-Writes [] w = w
  interfere-Writes (v ∷ vs) w = interfere-Writes vs (write v w)

  -- A transaction that succeeds has found the pair that was read.
  put_if_revision_found :
      {s t : State} (p : KvPair V) (v : V) (t' : State)
      → Writes s t
      → pair s ≡ some p
      → put_if_revision p.last_index v t ≡ some t'
      → (pair t ≡ some p) × (t' ≡ put v t)
  put_if_revision_found {s} {t} p v t' w e h = elim (Option-cases (pair t)) [
    | inl n ↦ let k = put_if_revision-other p.last_index v t (λ q f. cc) in cc
    | inr (q, f) ↦ elim (Writes-index w) [
      | inl same ↦ ((cc), (let k = put_if_revision-same v t p (cc) in cc))
      | inr above ↦
          let k =
            put_if_revision-other p.last_index v t
              (λ q f. omega (arith, above q f, index-le-revision s p e)) in
          cc
    ]
  ]

  committed-eq-stored : (o : Option State) (t : State) → committed o ≡ stored t → o ≡ some t
  committed-eq-stored none t h = cc
  committed-eq-stored (some u) t h = cc

  -- A write that succeeds has found the pair that was read.
  pub atomic_put_found :
      {s t : State} (p : KvPair V) (v : V) (t' : State)
      → Writes s t
      → pair s ≡ some p
      → atomic_put etcd (some p) v t ≡ stored t'
      → (pair t ≡ some p) × (t' ≡ put v t)
  unfolding atomic_put
  atomic_put_found {s} {t} p v t' w e h = elim (Bool-cases (ltb max_etcd_revision p.last_index)) [
    | inl over ↦ cc
    | inr fits ↦
        put_if_revision_found p v t' w e
          (committed-eq-stored (put_if_revision p.last_index v t) t' (cc))
  ]

  -- Where nobody else has written since, the write is not refused as overtaken.
  pub atomic_put-ne-modified :
      {s : State} (p : KvPair V) (v : V) → pair s ≡ some p → atomic_put etcd (some p) v s ≢ modified
  unfolding atomic_put
  atomic_put-ne-modified {s} p v e h =
      let k = put_if_revision-same v s p e in
      elim (Bool-cases (ltb max_etcd_revision p.last_index)) [ inl over ↦ cc | inr fits ↦ cc ]
