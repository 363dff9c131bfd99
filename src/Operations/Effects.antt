-- ===== src/Operations/Effects.antt =====
-- What the commands of Operations leave alone; those that write a document given from outside
-- (InitializeCluster, WriteClusterData, PatchClusterData) are not among them.
use mathlib.Core.Path.{subst}
use hysteron.Base.{
  Text, text_eq, text_eq_iff, Map, lookup, insert, delete, lookup-delete, values, find_first, true,
  false, Option, some, none, [], ◌∷◌, ◌≡◌, ◌≢◌, refl, ap, ◌∙◌, inl, inr, arith, All, Time,
  Option-cases, Bool-cases, ◌==◌, if◌then◌else◌,
}
use hysteron.Utils.Strings.{is_empty, trim_space}
use hysteron.Cluster.Enums.{ManualSwitchMode, ClusterRole}
use hysteron.Cluster.Spec.{ClusterSpec}
use hysteron.Cluster.Entities.{Keeper, Db}
use hysteron.Cluster.Document.{ClusterData, Cluster, ClusterStatus, find_db, pause_active, def_spec}
use hysteron.Cluster.Validate.{is_valid, is_master_cluster, UpdateOutcome, update_spec}
use hysteron.Cluster.Validate.Updates.{update_spec-Keeps}
use hysteron.Proxy.Check.{current_cd_format_version}
use hysteron.Operations.{
  OperationError, Change, write, nothing_to_do, refuse, pause_cluster, resume_cluster,
  unless_paused, switch_request, request_manual_switch, change_db_of, resynced, with_status,
  force_failed, no_master_keeper, unreadable_spec, keeper_not_found, mark_resync,
  reinitialize_replica, validated, with_spec, promote_cluster, update_cluster_specification,
  without_keeper, remove_keeper, mark_failed, fail_keeper, fail_master, force_failover, Operation,
  pause, resume, manual_switch, reinitialize, promote, update_specification, remove, fail,
  fail_over, change,
}

-- Every database stands at its own uid.
abbrev pub WellKeyed : Map Db → Type 0
WellKeyed dbs = All (λ entry. entry.1.uid ≡ entry.0) dbs

-- What such a command leaves alone: the name and the record of the master, and the proxies' object.
pub record Preserves (cd next : ClusterData) : Type 0 where
  pub master : next.cluster.status.master ≡ cd.cluster.status.master
  pub db : lookup cd.cluster.status.master next.dbs ≡ lookup cd.cluster.status.master cd.dbs
  pub proxy : next.proxy ≡ cd.proxy

lookup-change_db_of :
    (uid k : Text) (f : Db → Db) (dbs : Map Db) (db : Db)
    → WellKeyed dbs
    → find_first (λ d. text_eq d.spec.keeper_uid uid) (values dbs) ≡ some db
    → db.uid ≢ k
    → lookup k (change_db_of uid f dbs) ≡ lookup k dbs
unfolding change_db_of lookup find_first
lookup-change_db_of uid k f [] db keyed h n = refl
lookup-change_db_of uid k f ((j, d) ∷ dbs) db (key, keyed) h n =
    elim (Bool-cases (text_eq d.spec.keeper_uid uid)) [
      | inl e ↦ let same : d ≡ db = ground arith in rw e (ground (arith, text_eq_iff j k))
      | inr e ↦ rw e (ground (arith, lookup-change_db_of uid k f dbs db keyed))
    ]

pub unless_paused-eq-write :
    (now : Time) (cd : ClusterData) (c : Change) (next : ClusterData)
    → unless_paused now cd c ≡ write next
    → (pause_active cd.cluster.status now ≡ false) × (c ≡ write next)
unfolding unless_paused
unless_paused-eq-write now cd c next h = elim (Bool-cases (pause_active cd.cluster.status now)) [
  | inl e ↦ cc
  | inr e ↦ (e, (cc))
]

pub validated-eq-write :
    (now : Time) (cd : ClusterData) (c : Change) (next : ClusterData)
    → validated now cd c ≡ write next
    → (is_valid cd.cluster.spec ≡ true)
      × (pause_active cd.cluster.status now ≡ false)
      × (c ≡ write next)
unfolding validated
validated-eq-write now cd c next h =
    elim (Bool-cases (cd.format_version == current_cd_format_version)) [
      | inr e ↦ cc
      | inl e ↦ elim (Bool-cases (is_valid cd.cluster.spec)) [
        | inr v ↦ cc
        | inl v ↦
            let (active, written) = unless_paused-eq-write now cd c next (cc) in
            (v, active, written)
      ]
    ]

with_status-Preserves :
    (status : ClusterStatus) (cd next : ClusterData)
    → status.master ≡ cd.cluster.status.master
    → write (with_status status cd) ≡ write next
    → Preserves cd next
with_status-Preserves status cd next same h = subst (Preserves cd) (cc) kept
  where
    kept : Preserves cd (with_status status cd)
    kept = record { master = same; db = refl; proxy = refl }

switch_request-Preserves :
    (uid : Text) (mode : ManualSwitchMode) (cd next : ClusterData)
    → switch_request uid mode cd ≡ write next
    → Preserves cd next
unfolding switch_request
switch_request-Preserves uid mode cd next h = elim (Option-cases (lookup uid cd.keepers)) [
  | inl e ↦ cc
  | inr (keeper, e) ↦ subst (Preserves cd) (cc) unchanged
]
  where
    unchanged : Preserves cd (
        with_status
          (record cd.cluster.status {
            manual_switch = some (record { target_keeper_uid = uid; mode = mode });
          })
          cd)
    unchanged = record { master = refl; db = refl; proxy = refl }

mark_resync-Preserves :
    (uid : Text) (cd next : ClusterData)
    → WellKeyed cd.dbs
    → mark_resync uid cd ≡ write next
    → Preserves cd next
unfolding mark_resync
mark_resync-Preserves uid cd next keyed h = elim (Option-cases (lookup uid cd.keepers)) [
  | inl e ↦ cc
  | inr (keeper, e) ↦ elim (Option-cases (find_db cd keeper)) [
    | inl f ↦ cc
    | inr (db, f) ↦ elim (Bool-cases (text_eq db.uid cd.cluster.status.master)) [
      | inl g ↦ cc
      | inr g ↦ subst (Preserves cd) (cc) (unchanged keeper db f g)
    ]
  ]
]
  where
    unchanged :
        (keeper : Keeper) (db : Db)
        → find_db cd keeper ≡ some db
        → text_eq db.uid cd.cluster.status.master ≡ false
        → Preserves cd
            (record (with_status (record cd.cluster.status { manual_switch = none }) cd) {
              dbs = change_db_of keeper.uid (resynced cd.cluster.status.master) cd.dbs;
            })
    unchanged keeper db f g = record {
      master = refl;
      db =
          lookup-change_db_of keeper.uid cd.cluster.status.master
            (resynced cd.cluster.status.master) cd.dbs db keyed (unfold find_db in f)
            (λ same. let k = (text_eq_iff db.uid cd.cluster.status.master).1 same in cc);
      proxy = refl;
    }

with_spec-Preserves :
    (cd next : ClusterData) (c : Cluster) (spec : ClusterSpec)
    → c.status ≡ cd.cluster.status
    → with_spec cd (update_spec c spec) ≡ write next
    → Preserves cd next
unfolding with_spec
with_spec-Preserves cd next c spec same h = go (update_spec c spec) refl h
  where
    go :
        (o : UpdateOutcome)
        → update_spec c spec ≡ o
        → with_spec cd o ≡ write next
        → Preserves cd next
    go (UpdateOutcome.updated e) u h =
        let (keeps, _) = update_spec-Keeps c e spec u in
        let status : e.status ≡ cd.cluster.status =
          ap (λ (k : Cluster). k.status) keeps.same ∙ same in
        let kept : Preserves cd (record cd { cluster = e }) = record {
          master = ap (λ (x : ClusterStatus). x.master) status;
          db = refl;
          proxy = refl;
        } in
        subst (Preserves cd) (cc) kept
    go (UpdateOutcome.refused x) u h = cc
    go UpdateOutcome.panicked u h = cc

without_keeper-Preserves :
    (uid : Text) (cd next : ClusterData) → without_keeper uid cd ≡ write next → Preserves cd next
unfolding without_keeper
without_keeper-Preserves uid cd next h = elim (Option-cases (lookup uid cd.keepers)) [
  | inl e ↦ cc
  | inr (keeper, e) ↦ elim (Option-cases (find_db cd keeper)) [
    | inl f ↦ subst (Preserves cd) (cc) kept
    | inr (db, f) ↦ elim (Bool-cases (text_eq cd.cluster.status.master db.uid)) [
      | inl g ↦ cc
      | inr g ↦ subst (Preserves cd) (cc) (removed db g)
    ]
  ]
]
  where
    kept : Preserves cd (record cd { keepers = delete uid cd.keepers })
    kept = record { master = refl; db = refl; proxy = refl }

    removed :
        (db : Db)
        → text_eq cd.cluster.status.master db.uid ≡ false
        → Preserves cd (record cd { keepers = delete uid cd.keepers; dbs = delete db.uid cd.dbs })
    removed db g = record {
      master = refl;
      db = ground (
        arith,
        lookup-delete db.uid cd.cluster.status.master cd.dbs,
        text_eq_iff cd.cluster.status.master db.uid,
        text_eq_iff db.uid cd.cluster.status.master,
      );
      proxy = refl;
    }

mark_failed-Preserves :
    (uid : Text) (missing : OperationError) (cd next : ClusterData)
    → mark_failed uid missing cd ≡ write next
    → Preserves cd next
unfolding mark_failed
mark_failed-Preserves uid missing cd next h = elim (Option-cases (lookup uid cd.keepers)) [
  | inl e ↦ cc
  | inr (keeper, e) ↦ subst (Preserves cd) (cc) (kept (insert uid (force_failed keeper) cd.keepers))
]
  where
    kept : (keepers : Map Keeper) → Preserves cd (record cd { keepers = keepers })
    kept keepers = record { master = refl; db = refl; proxy = refl }

fail_master-Preserves : (cd next : ClusterData) → fail_master cd ≡ write next → Preserves cd next
unfolding fail_master
fail_master-Preserves cd next h = elim (Bool-cases (is_empty cd.cluster.status.master)) [
  | inl e ↦ cc
  | inr e ↦ elim (Option-cases (lookup cd.cluster.status.master cd.dbs)) [
    | inl f ↦ cc
    | inr (db, f) ↦ elim (Bool-cases (is_empty db.spec.keeper_uid)) [
      | inl g ↦ cc
      | inr g ↦ mark_failed-Preserves db.spec.keeper_uid no_master_keeper cd next (cc)
    ]
  ]
]

-- What `promote_cluster` and `update_cluster_specification` make of a document that is valid.
abbrev promotion : ClusterData → Change
promotion cd =
    let promoted = record cd.cluster.spec { role = some ClusterRole.master } in
    if is_master_cluster (def_spec cd).role
    then nothing_to_do
    else with_spec cd (update_spec (record cd.cluster { spec = promoted }) promoted)

promote_written : (cd next : ClusterData) → promotion cd ≡ write next → Preserves cd next
promote_written cd next h = elim (Bool-cases (is_master_cluster (def_spec cd).role)) [
  | inl e ↦ cc
  | inr e ↦
      let promoted = record cd.cluster.spec { role = some ClusterRole.master } in
      with_spec-Preserves cd next (record cd.cluster { spec = promoted }) promoted refl (cc)
]

abbrev specification : (ClusterSpec → Option ClusterSpec) → ClusterData → Change
specification read cd = elim (read cd.cluster.spec) [
  | none ↦ refuse unreadable_spec
  | some spec ↦ with_spec cd (update_spec cd.cluster spec)
]

update_written :
    (read : ClusterSpec → Option ClusterSpec) (cd next : ClusterData)
    → specification read cd ≡ write next
    → Preserves cd next
update_written read cd next h = elim (Option-cases (read cd.cluster.spec)) [
  | inl e ↦ cc
  | inr (spec, e) ↦ with_spec-Preserves cd next cd.cluster spec refl (cc)
]

-- In a document whose databases stand at their own uids, a command that pauses or resumes the
-- cluster, asks for a manual switch, has a standby copy the master anew, makes a standby cluster a
-- master one, updates the specification, removes a keeper, marks a keeper as failed or forces a
-- failover changes neither which database is the master nor the record of that database nor the
-- proxies' object.
pub change-Preserves :
    (op : Operation) (now : Time) (cd next : ClusterData)
    → WellKeyed cd.dbs
    → change op now cd ≡ write next
    → Preserves cd next
unfolding change pause_cluster resume_cluster request_manual_switch reinitialize_replica
    promote_cluster update_cluster_specification remove_keeper fail_keeper force_failover
change-Preserves (pause reason ttl) now cd next keyed h = with_status-Preserves _ cd next refl h
change-Preserves resume now cd next keyed h = with_status-Preserves _ cd next refl h
change-Preserves (manual_switch target mode) now cd next keyed h =
    switch_request-Preserves (trim_space target) mode cd next
      (unless_paused-eq-write now cd _ next h).1
change-Preserves (reinitialize target) now cd next keyed h =
    mark_resync-Preserves (trim_space target) cd next keyed
      (unless_paused-eq-write now cd _ next h).1
change-Preserves promote now cd next keyed h =
    promote_written cd next (validated-eq-write now cd _ next h).2
change-Preserves (update_specification read) now cd next keyed h =
    update_written read cd next (validated-eq-write now cd _ next h).2
change-Preserves (remove uid) now cd next keyed h =
    without_keeper-Preserves uid cd next
      (validated-eq-write now cd (without_keeper uid cd) next h).2
change-Preserves (fail uid) now cd next keyed h =
    mark_failed-Preserves uid keeper_not_found cd next
      (validated-eq-write now cd (mark_failed uid keeper_not_found cd) next h).2
change-Preserves fail_over now cd next keyed h =
    fail_master-Preserves cd next (validated-eq-write now cd (fail_master cd) next h).2
