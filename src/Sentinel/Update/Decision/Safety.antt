-- ===== src/Sentinel/Update/Decision/Safety.antt =====
-- A new master is always one that can take over.
use mathlib.Core.Path.{subst}
use hysteron.Base.{
  Text, text_eq, lookup, Bool, true, false, some, none, List, [], ◌∷◌, ◌≡◌, refl, sym, ◌⊎◌, inl,
  inr, arith, Option-cases, Bool-cases, Time, Member, if◌then◌else◌,
}
use hysteron.Cluster.Spec.{DefSpec}
use hysteron.Cluster.Entities.{Db}
use hysteron.Cluster.Document.{ClusterData, def_spec, find_db}
use hysteron.Utils.Slices.{contains}
use hysteron.Utils.Slices.Sets.{contains_iff}
use hysteron.Sentinel.State.{Sentinel}
use hysteron.Sentinel.Selection.{find_best_new_masters}
use hysteron.Sentinel.Selection.Candidates.{IsKeyed}
use hysteron.Sentinel.Selection.NewMasters.{IsCandidate, find_best_new_masters_iff}
use hysteron.Sentinel.Leadership.{
  choose_best_new_master, choose_auto_failback_target, clear_backoff,
}
use hysteron.Sentinel.Leadership.Choice.{elected-IsCandidate}
use hysteron.Sentinel.Leadership.Failback.{choose_auto_failback_target-IsFailback}
use hysteron.Sentinel.Update.Decision.{
  Switch, uids, switch_to, manual_switch, check_master, elect, fail_back, choose_wanted,
  decide_master, clear_manual_switch,
}

-- The database of that uid can take over from the master.
pub record CanTakeOver (cd : ClusterData) (master : Db) (uid : Text) : Type 0 where
  pub db : Db
  pub named : db.uid ≡ uid
  pub candidate : IsCandidate cd master db

Member-uids :
    (dbs : List Db) (uid : Text)
    → Member uid (uids dbs)
    → (db : Db) × Member db dbs × (db.uid ≡ uid)
unfolding uids
Member-uids [] uid m = absurd m
Member-uids (db ∷ dbs) uid (inl e) = (db, inl refl, sym e)
Member-uids (db ∷ dbs) uid (inr m) = let (d, md, e) = Member-uids dbs uid m in (d, inr md, e)

-- A manual switch changes nothing, or was applied, to the master itself or to a candidate.
data Switched (newcd : ClusterData) (cur_uid : Text) (master : Db) (sw : Switch) : Type 0 where
  unchanged :
      sw.applied ≡ false
      → sw.document ≡ newcd
      → sw.wanted ≡ cur_uid
      → Switched newcd cur_uid master sw
  switched :
      sw.applied ≡ true
      → (sw.wanted ≡ cur_uid) ⊎ CanTakeOver newcd master sw.wanted
      → Switched newcd cur_uid master sw

module _ (now : Time) (newcd : ClusterData) (cur_uid : Text) (master : Db)
    (keyed : IsKeyed newcd) where
  Outcome : Text → Type 0
  Outcome wanted = (wanted ≡ cur_uid) ⊎ CanTakeOver newcd master wanted

  switch_to-Switched :
      (target : Text) (candidates : List Db) (s s' : Sentinel)
      → find_best_new_masters now newcd master s ≡ some (candidates, s')
      → Switched newcd cur_uid master (switch_to newcd cur_uid target candidates)
  unfolding switch_to
  switch_to-Switched target candidates s s' found = go (contains (uids candidates) target) refl
    where
      go :
          (b : Bool)
          → contains (uids candidates) target ≡ b
          → Switched newcd cur_uid master (
              if b
              then record { wanted = target; applied = true; document = clear_manual_switch newcd }
              else record { wanted = cur_uid; applied = false; document = newcd })
      go false e = Switched.unchanged refl refl refl
      go true e =
          let (db, m, named) =
            Member-uids candidates target ((contains_iff (uids candidates) target).0 e) in
          Switched.switched refl (
            inr (record {
              db = db;
              named = named;
              candidate =
                  (find_best_new_masters_iff now newcd master s s' candidates keyed found db).0 m;
            }))

  elect-Outcome :
      (spec : DefSpec) (s s' : Sentinel) (wanted : Text)
      → elect now spec newcd cur_uid master s ≡ some (wanted, s')
      → Outcome wanted
  unfolding elect Outcome
  elect-Outcome spec s s' wanted h =
      elim (Option-cases (choose_best_new_master now newcd master spec.fail_interval s)) [
        | inl n ↦ ground arith
        | inr (((none, clear), s1), e) ↦ inl (ground arith)
        | inr (((some db, clear), s1), e) ↦ inr (record {
          db = db;
          named = ground arith;
          candidate = elected-IsCandidate now newcd master spec.fail_interval s s1 db clear keyed e;
        })
      ]

  fail_back-Outcome :
      (s s' : Sentinel) (wanted : Text)
      → fail_back now newcd cur_uid master s ≡ some (wanted, s')
      → Outcome wanted
  unfolding fail_back Outcome
  fail_back-Outcome s s' wanted h =
      elim (Option-cases (choose_auto_failback_target now newcd master s)) [
        | inl n ↦ ground arith
        | inr ((none, s1), e) ↦ inl (ground arith)
        | inr ((some db, s1), e) ↦ inr (record {
          db = db;
          named = ground arith;
          candidate =
              (choose_auto_failback_target-IsFailback now newcd master s s1 db keyed e).candidate;
        })
      ]

module _ (now : Time) (cd newcd : ClusterData) (cur_uid : Text) (master : Db)
    (keyed : IsKeyed newcd) where
  manual_switch-Switched :
      (s s' : Sentinel) (sw : Switch)
      → manual_switch now cd newcd cur_uid master s ≡ some (sw, s')
      → Switched newcd cur_uid master sw
  unfolding manual_switch
  manual_switch-Switched s s' sw h = elim (Option-cases cd.cluster.status.manual_switch) [
    | inl n ↦ unchanged_by (ground arith)
    | inr (req, e) ↦ elim (Option-cases (lookup req.target_keeper_uid newcd.keepers)) [
      | inl n ↦ unchanged_by (ground arith)
      | inr (k, ek) ↦ elim (Option-cases (find_db newcd k)) [
        | inl n ↦ unchanged_by (ground arith)
        | inr (target, et) ↦ elim (Bool-cases (text_eq target.uid cur_uid)) [
          | inl same ↦ Switched.switched (ground arith) (inl (ground arith))
          | inr other ↦ elim (Option-cases (find_best_new_masters now newcd master s)) [
            | inl n ↦ ground arith
            | inr ((cs, s1), found) ↦
                subst (Switched newcd cur_uid master) (ground arith)
                  (switch_to-Switched now newcd cur_uid master keyed target.uid cs s s1 found)
          ]
        ]
      ]
    ]
  ]
    where
      unchanged_by :
          record { wanted = cur_uid; applied = false; document = newcd } ≡ sw
          → Switched newcd cur_uid master sw
      unchanged_by e = subst (Switched newcd cur_uid master) e (Switched.unchanged refl refl refl)

  choose_wanted-Outcome :
      (spec : DefSpec) (sw : Switch) (s s' : Sentinel) (wanted : Text)
      → Switched newcd cur_uid master sw
      → choose_wanted now spec cur_uid master sw s ≡ some (wanted, s')
      → Outcome now newcd cur_uid master keyed wanted
  unfolding choose_wanted Outcome
  choose_wanted-Outcome spec sw s s' wanted (Switched.switched a w) h =
      let same : sw.wanted ≡ wanted = ground arith in rw (← same) w
  choose_wanted-Outcome spec sw s s' wanted (Switched.unchanged a d w) h =
      let (master_ok, s1) = check_master now spec master s in
      elim (Bool-cases master_ok) [
        | inl good ↦
            let run : fail_back now sw.document cur_uid master (clear_backoff cur_uid s1)
                ≡ some (wanted, s') =
              ground arith in
            fail_back-Outcome now newcd cur_uid master keyed (clear_backoff cur_uid s1) s' wanted
              (rw d at run)
        | inr bad ↦
            let run : elect now spec sw.document cur_uid master s1 ≡ some (wanted, s') =
              ground arith in
            elect-Outcome now newcd cur_uid master keyed spec s1 s' wanted (rw d at run)
      ]

-- The wanted master of a round is the current one or a database that can take over from it,
-- whichever of the manual switch, the election and the automatic failback chose it, if every
-- database stands under its own uid.
pub decide_master-CanTakeOver :
    (now : Time) (cd newcd doc : ClusterData) (cur_uid wanted : Text) (master : Db)
    (s s' : Sentinel)
    → IsKeyed newcd
    → decide_master now cd newcd cur_uid master s ≡ some ((doc, wanted), s')
    → (wanted ≡ cur_uid) ⊎ CanTakeOver newcd master wanted
unfolding decide_master Outcome
decide_master-CanTakeOver now cd newcd doc cur_uid wanted master s s' keyed h =
    elim (Option-cases (manual_switch now cd newcd cur_uid master s)) [
      | inl n ↦ ground arith
      | inr ((sw, s1), e) ↦
          elim (Option-cases (choose_wanted now (def_spec cd) cur_uid master sw s1)) [
            | inl n ↦ ground arith
            | inr ((w, s2), chosen) ↦
                let same : w ≡ wanted = ground arith in
                rw (← same) (
                  choose_wanted-Outcome now cd newcd cur_uid master keyed (def_spec cd) sw s1 s2 w
                    (manual_switch-Switched now cd newcd cur_uid master keyed s s1 sw e) chosen)
          ]
    ]
