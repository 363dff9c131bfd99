-- ===== src/Sentinel/Selection/Status.antt =====
-- What a database of good status and a valid one are, apart from how the code finds out.
use hysteron.Base.{
  text_eq_iff, lookup, true, false, some, [], ◌≡◌, ◌≢◌, ◌⊎◌, inl, inr, arith, Option-cases, Time,
}
use hysteron.Cluster.Entities.{Db, Keeper, no_generation}
use hysteron.Cluster.Document.{ClusterData}
use hysteron.Sentinel.State.{Sentinel, ok}
use hysteron.Sentinel.Health.{db_convergence_state}
use hysteron.Sentinel.Selection.{
  DbType, valid, good, db_type, db_validity, db_status, is_wanted, is_different_timeline_branch,
}

-- The keeper is known and healthy, the database reports the generation that is wanted of it, and
-- it is healthy.
pub record IsGood (cd : ClusterData) (db : Db) : Type 0 where
  pub keeper : Keeper
  pub keeper_known : lookup db.spec.keeper_uid cd.keepers ≡ some keeper
  pub keeper_healthy : keeper.status.healthy ≡ true
  pub converged : db.status.current_generation ≡ db.generation
  pub healthy : db.status.healthy ≡ true

-- The database has reported, it shares the master's system id (or reports none), and has not left
-- the master's timeline.
pub record IsValid (cd : ClusterData) (db : Db) : Type 0 where
  pub master : Db
  pub master_known : lookup cd.cluster.status.master cd.dbs ≡ some master
  pub reported : db.status.current_generation ≢ no_generation
  pub same_system : (db.status.system_id ≡ []) ⊎ (db.status.system_id ≡ master.status.system_id)
  pub same_branch : is_different_timeline_branch master db ≡ false

module _ (cd : ClusterData) (db : Db) (found : lookup db.uid cd.dbs ≡ some db) where
  pub db_validity-IsValid : db_validity cd db.uid ≡ ok valid → IsValid cd db
  unfolding db_validity
  db_validity-IsValid h = elim (Option-cases (lookup cd.cluster.status.master cd.dbs)) [
    | inl nobody ↦ ground (arith)
    | inr (master, e) ↦ record {
      master = master;
      master_known = e;
      reported = ground arith;
      same_system = ground (arith, text_eq_iff db.status.system_id master.status.system_id);
      same_branch = ground arith;
    }
  ]

  pub IsValid-db_validity : IsValid cd db → db_validity cd db.uid ≡ ok valid
  unfolding db_validity
  IsValid-db_validity v = ground (arith, text_eq_iff db.status.system_id v.master.status.system_id)

  pub is_wanted-IsValid :
      (want : DbType)
      → is_wanted cd want db.uid ≡ true
      → IsValid cd db × (db_type cd db.uid ≡ ok want)
  unfolding is_wanted
  is_wanted-IsValid want h = (db_validity-IsValid (ground arith), ground arith)

  pub is_wanted_of :
      (want : DbType)
      → IsValid cd db
      → db_type cd db.uid ≡ ok want
      → is_wanted cd want db.uid ≡ true
  unfolding is_wanted
  is_wanted_of want v t = ground (arith, IsValid-db_validity v)

  -- A status of good stands for `IsGood`.
  pub db_status-IsGood :
      (now : Time) (s s' : Sentinel) → db_status now cd db.uid s ≡ some (ok good, s') → IsGood cd db
  unfolding db_status db_convergence_state
  db_status-IsGood now s s' h = elim (Option-cases (lookup db.spec.keeper_uid cd.keepers)) [
    | inl nobody ↦ ground arith
    | inr (keeper, e) ↦ record {
      keeper = keeper;
      keeper_known = e;
      keeper_healthy = ground arith;
      converged = ground arith;
      healthy = ground arith;
    }
  ]

  pub IsGood-db_status :
      (now : Time) (s : Sentinel) → IsGood cd db → db_status now cd db.uid s ≡ some (ok good, s)
  unfolding db_status db_convergence_state
  IsGood-db_status now s g = ground arith
