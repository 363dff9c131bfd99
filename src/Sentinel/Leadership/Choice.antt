-- ===== src/Sentinel/Leadership/Choice.antt =====
-- Which candidate `chooseBestNewMaster` elects.
use hysteron.Base.{
  Text, elems, Bool, true, false, some, List, [], ◌∷◌, head?, find_first, find_first_sound,
  find_first-eq-none, ◌≡◌, refl, ◌⊎◌, inl, inr, arith, Option-cases, Bool-cases, Time, Duration,
  All-Member, Member,
}
use hysteron.Cluster.Entities.{Db}
use hysteron.Cluster.Document.{ClusterData}
use hysteron.Utils.Slices.{contains, common_elements}
use hysteron.Utils.Slices.Sets.{contains_iff, Member-common_elements}
use hysteron.Sentinel.State.{Sentinel}
use hysteron.Sentinel.Selection.{find_best_new_masters}
use hysteron.Sentinel.Selection.Candidates.{IsKeyed}
use hysteron.Sentinel.Selection.NewMasters.{IsCandidate, find_best_new_masters_iff}
use hysteron.Sentinel.Leadership.{choose_among, choose_best_new_master, sync_failover, is_empty}

-- In both the standbys that the master's specification names and those that it reported in sync.
abbrev pub InSync : Db → Text → Type 0
InSync master uid =
    Member uid (elems master.status.synchronous_standbys)
    × Member uid (elems master.spec.synchronous_standbys)

-- The elected database among the candidates.
pub record Elected (cd : ClusterData) (master : Db) (cs : List Db) (nm : Db) : Type 0 where
  pub member : Member nm cs
  pub in_sync : sync_failover cd master ≡ true → InSync master nm.uid

choose_among-Elected :
    (cd : ClusterData) (master : Db) (cs : List Db) (nm : Db) (clear : Bool)
    → choose_among (sync_failover cd master) master cs ≡ (some nm, clear)
    → Elected cd master cs nm
unfolding choose_among
choose_among-Elected cd master cs nm clear h = elim (Bool-cases (sync_failover cd master)) [
  | inr async ↦ record { member = head_member cs (ground arith); in_sync = λ sync. cc }
  | inl sync ↦ elim (Option-cases (find_first (λ (db : Db). contains common db.uid) cs)) [
    | inl n ↦ ground arith
    | inr (m, e) ↦
        let (inside, c) = find_first_sound (λ (db : Db). contains common db.uid) cs e in
        let same : m ≡ nm = ground arith in
        record {
          member = rw (← same) inside;
          in_sync = λ _. rw (← same) (
              (Member-common_elements (elems master.status.synchronous_standbys)
                  (elems master.spec.synchronous_standbys) m.uid).0
                ((contains_iff common m.uid).0 c));
        }
  ]
]
  where
    common : List Text
    common =
        common_elements (elems master.status.synchronous_standbys)
          (elems master.spec.synchronous_standbys)

    head_member : (xs : List Db) → head? xs ≡ some nm → Member nm xs
    head_member [] e = cc
    head_member (x ∷ xs) e = inl (ground arith)

-- An election comes from the candidates that the search returned.
choose_best_new_master-Elected :
    (now : Time) (cd : ClusterData) (master : Db) (window : Duration) (s s' : Sentinel) (nm : Db)
    (clear : Bool)
    → choose_best_new_master now cd master window s ≡ some ((some nm, clear), s')
    → (cs : List Db) × (s1 : Sentinel) × (find_best_new_masters now cd master s ≡ some (cs, s1))
      × Elected cd master cs nm
unfolding choose_best_new_master
choose_best_new_master-Elected now cd master window s s' nm clear e =
    elim (Option-cases (find_best_new_masters now cd master s)) [
      | inl n ↦ ground arith
      | inr ((cs, s1), found) ↦
          (cs, s1, found, choose_among-Elected cd master cs nm clear (ground arith))
    ]

-- A database that `chooseBestNewMaster` elects can take over: it is one of those that
-- `findBestNewMasters` returns, so it is valid, of good status, near the failed master, and a
-- replica whose keeper does not refuse or a former master.
pub elected-IsCandidate :
    (now : Time) (cd : ClusterData) (master : Db) (window : Duration) (s s' : Sentinel) (nm : Db)
    (clear : Bool)
    → IsKeyed cd
    → choose_best_new_master now cd master window s ≡ some ((some nm, clear), s')
    → IsCandidate cd master nm
elected-IsCandidate now cd master window s s' nm clear keyed e =
    let (cs, s1, found, el) = choose_best_new_master-Elected now cd master window s s' nm clear e in
    (find_best_new_masters_iff now cd master s s1 cs keyed found nm).0 el.member

-- With synchronous replication, of the failed master and of the cluster, only a standby is
-- elected that the master's specification names and that the master has reported in sync.
pub elected-InSync :
    (now : Time) (cd : ClusterData) (master : Db) (window : Duration) (s s' : Sentinel) (nm : Db)
    (clear : Bool)
    → sync_failover cd master ≡ true
    → choose_best_new_master now cd master window s ≡ some ((some nm, clear), s')
    → InSync master nm.uid
elected-InSync now cd master window s s' nm clear sync e =
    let (cs, s1, found, el) = choose_best_new_master-Elected now cd master window s s' nm clear e in
    el.in_sync sync

nonempty : {A : Type 0} (xs : List A) (a : A) → Member a xs → is_empty xs ≡ false
unfolding is_empty
nonempty [] a m = absurd m
nonempty (x ∷ xs) a m = refl

choose_among_total :
    (sync : Bool) (master : Db) (cs : List Db) (db : Db)
    → Member db cs
    → (sync ≡ false) ⊎ InSync master db.uid
    → (nm : Db) × (choose_among sync master cs ≡ (some nm, true))
unfolding choose_among
choose_among_total sync master [] db m h = absurd m
choose_among_total false master (x ∷ xs) db m h = (x, refl)
choose_among_total true master (x ∷ xs) db m (inl e) = absurd (cc e)
choose_among_total true master (x ∷ xs) db m (inr in_both) =
    elim (Option-cases (find_first (λ (d : Db). contains common d.uid) (x ∷ xs))) [
      | inl n ↦
          let no_match =
            All-Member _ (x ∷ xs)
              (find_first-eq-none (λ (d : Db). contains common d.uid) (x ∷ xs) n) db m in
          absurd (clash ((contains_iff common db.uid).1 db_common) no_match)
      | inr (nm, e) ↦ (nm, rw (nonempty common db.uid db_common, e))
    ]
  where
    common : List Text
    common =
        common_elements (elems master.status.synchronous_standbys)
          (elems master.spec.synchronous_standbys)

    db_common : Member db.uid common
    db_common =
        (Member-common_elements (elems master.status.synchronous_standbys)
            (elems master.spec.synchronous_standbys) db.uid).1
          in_both

    clash : {b : Bool} → b ≡ true → b ≡ false → ⊥
    clash p q = cc

-- The failed master's keeper was failed by an operator: the election does not wait. Of a
-- candidate that is in sync, or any candidate where replication is asynchronous, there is one
-- elected at once.
pub forced_election :
    (now : Time) (cd : ClusterData) (master : Db) (window : Duration) (s s1 : Sentinel)
    (cs : List Db) (db : Db)
    → find_best_new_masters now cd master s ≡ some (cs, s1)
    → Member master.spec.keeper_uid s1.force_failed_keeper_uids
    → Member db cs
    → (sync_failover cd master ≡ false) ⊎ InSync master db.uid
    → (nm : Db) × (choose_best_new_master now cd master window s ≡ some ((some nm, true), s1))
unfolding choose_best_new_master
forced_election now cd master window s s1 cs db found forced m h =
    let (nm, e) = choose_among_total (sync_failover cd master) master cs db m h in
    (
      nm,
      ground (
        arith,
        nonempty cs db m,
        (contains_iff s1.force_failed_keeper_uids master.spec.keeper_uid).1 forced,
      ),
    )
