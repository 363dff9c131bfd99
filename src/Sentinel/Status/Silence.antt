-- ===== src/Sentinel/Status/Silence.antt =====
-- What becomes of the keepers that say nothing, and of their databases.
use hysteron.Base.{
  Text, text_eq_iff, Map, lookup, lookup-insert, lookup-delete, values, true, false, some, none, [],
  ◌∷◌, ◌≡◌, refl, ◌∙◌, inl, inr, arith, Bool-cases, Option-cases, Time, ltb_ℤ, sub_time, All,
  All-Member, Member,
}
use hysteron.Cluster.Entities.{Keeper, Db, KeeperInfo}
use hysteron.Cluster.Document.{ClusterData, def_spec}
use hysteron.Sentinel.State.{Sentinel}
use hysteron.Sentinel.Health.{
  start_timer, set_keeper_error, clean_keeper_error, is_keeper_healthy, within_fail_interval,
}
use hysteron.Sentinel.Status.{
  traverse, note_keeper, judge_keeper, note_forced, track_healthy, judge_db, judge_dbs, take_infos,
  create_keepers, note_db,
}

-- The error of a silent keeper keeps the instant at which it began.
note_keeper-timer :
    (now t : Time) (infos : Map KeeperInfo) (uid u : Text) (k : Keeper) (s : Sentinel)
    → lookup u infos ≡ none
    → lookup u s.keeper_error_timers ≡ some t
    → lookup u (note_keeper now infos uid k s).1.keeper_error_timers ≡ some t
unfolding note_keeper set_keeper_error clean_keeper_error start_timer
note_keeper-timer now t infos uid u k s silent running = elim (Option-cases (lookup uid infos)) [
  | inl n ↦ ground (arith, lookup-insert uid u now s.keeper_error_timers, text_eq_iff uid u)
  | inr (ki, e) ↦ ground (arith, lookup-delete uid u s.keeper_error_timers, text_eq_iff uid u)
]

notes-timer :
    (now t : Time) (infos : Map KeeperInfo) (m : Map Keeper) (u : Text) (s : Sentinel)
    → lookup u infos ≡ none
    → lookup u s.keeper_error_timers ≡ some t
    → lookup u (traverse (note_keeper now infos) m s).1.keeper_error_timers ≡ some t
unfolding traverse
notes-timer now t infos [] u s silent running = running
notes-timer now t infos ((uid, k) ∷ m) u s silent running =
    notes-timer now t infos m u (note_keeper now infos uid k s).1 silent
      (note_keeper-timer now t infos uid u k s silent running)

-- Judging a keeper does not touch the error timers.
judge_keeper-timers :
    (now : Time) (cd : ClusterData) (uid : Text) (k : Keeper) (s : Sentinel)
    → (judge_keeper now cd uid k s).1.keeper_error_timers ≡ s.keeper_error_timers
unfolding judge_keeper track_healthy note_forced
judge_keeper-timers now cd uid k s = ground arith

-- The health of a keeper follows from its error timer.
abbrev Judged : Time → ClusterData → Map Time → Keeper → Type 0
Judged now cd timers k =
    k.status.healthy ≡ true
    → within_fail_interval (lookup k.uid timers) (def_spec cd).fail_interval now ≡ true

judge_keeper-Judged :
    (now : Time) (cd : ClusterData) (uid : Text) (k : Keeper) (s : Sentinel)
    → Judged now cd s.keeper_error_timers (judge_keeper now cd uid k s).0
unfolding judge_keeper is_keeper_healthy
judge_keeper-Judged now cd uid k s h = ground arith

judges-Judged :
    (now : Time) (cd : ClusterData) (timers : Map Time) (m : Map Keeper) (s : Sentinel)
    → s.keeper_error_timers ≡ timers
    → All (Judged now cd timers) (values (traverse (judge_keeper now cd) m s).0)
unfolding traverse
judges-Judged now cd timers [] s e = tt
judges-Judged now cd timers ((uid, k) ∷ m) s e = (
  rw (← e) (judge_keeper-Judged now cd uid k s),
  judges-Judged now cd timers m (judge_keeper now cd uid k s).1
      (judge_keeper-timers now cd uid k s ∙ e),
)

-- A healthy database stands on a healthy keeper, and its own error is not old.
abbrev pub OnHealthyKeeper : Map Keeper → Db → Type 0
OnHealthyKeeper keepers db =
    db.status.healthy ≡ true
    → (k : Keeper) × (lookup db.spec.keeper_uid keepers ≡ some k) × (k.status.healthy ≡ true)

judge_db-OnHealthyKeeper :
    (now : Time) (cd : ClusterData) (s : Sentinel) (db db' : Db)
    → judge_db now cd s db ≡ some db'
    → OnHealthyKeeper cd.keepers db'
unfolding judge_db
judge_db-OnHealthyKeeper now cd s db db' h healthy =
    elim (Option-cases (lookup db.spec.keeper_uid cd.keepers)) [
      | inl n ↦ ground arith
      | inr (k, e) ↦
          let same : db.spec.keeper_uid ≡ db'.spec.keeper_uid = ground arith in
          (k, rw (← same) e, ground arith)
    ]

judge_dbs-OnHealthyKeeper :
    (now : Time) (cd : ClusterData) (s : Sentinel) (dbs dbs' : Map Db)
    → judge_dbs now cd s dbs ≡ some dbs'
    → All (OnHealthyKeeper cd.keepers) (values dbs')
unfolding judge_dbs
judge_dbs-OnHealthyKeeper now cd s [] dbs' h = let e : [] ≡ dbs' = ground arith in rw (← e) tt
judge_dbs-OnHealthyKeeper now cd s ((uid, db) ∷ dbs) dbs' h =
    elim (Option-cases (judge_db now cd s db)) [
      | inl n ↦ ground arith
      | inr (first, e) ↦ elim (Option-cases (judge_dbs now cd s dbs)) [
        | inl n ↦ ground arith
        | inr (rest, f) ↦
            let same : (uid, first) ∷ rest ≡ dbs' = ground arith in
            rw (← same) (
              judge_db-OnHealthyKeeper now cd s db first e,
              judge_dbs-OnHealthyKeeper now cd s dbs rest f,
            )
      ]
    ]

-- After `updateKeepersStatus` took in the infos, every healthy database stands on a keeper of the
-- document that is healthy.
pub take_infos-OnHealthyKeeper :
    (now : Time) (infos : Map KeeperInfo) (cd cd' : ClusterData) (s s' : Sentinel)
    → take_infos now infos cd s ≡ some (cd', s')
    → All (OnHealthyKeeper cd'.keepers) (values cd'.dbs)
unfolding take_infos
take_infos-OnHealthyKeeper now infos cd cd' s s' h =
    let created = create_keepers now infos cd.keepers in
    let (noted, s1) = traverse (note_keeper now infos) created s in
    let (keepers, s2) =
      traverse (judge_keeper now cd) noted (record s1 { force_failed_keeper_uids = [] }) in
    let (dbs, s3) = traverse (note_db now infos) cd.dbs s2 in
    elim (Option-cases (judge_dbs now (record cd { keepers = keepers }) s3 dbs)) [
      | inl n ↦ ground arith
      | inr (judged, e) ↦
          let same : record cd { keepers = keepers; dbs = judged } ≡ cd' = ground arith in
          rw (← same)
            (judge_dbs-OnHealthyKeeper now (record cd { keepers = keepers }) s3 dbs judged e)
    ]

-- A keeper that has said nothing since before the fail interval is unhealthy after
-- `updateKeepersStatus` took in the infos: there is no info of it, and its error began more than
-- the fail interval ago.
pub take_infos-Silent :
    (now t : Time) (infos : Map KeeperInfo) (cd cd' : ClusterData) (s s' : Sentinel) (k : Keeper)
    → take_infos now infos cd s ≡ some (cd', s')
    → Member k (values cd'.keepers)
    → lookup k.uid infos ≡ none
    → lookup k.uid s.keeper_error_timers ≡ some t
    → ltb_ℤ (def_spec cd).fail_interval (sub_time now t) ≡ true
    → k.status.healthy ≡ false
unfolding take_infos within_fail_interval
take_infos-Silent now t infos cd cd' s s' k h m silent running long =
    let created = create_keepers now infos cd.keepers in
    let (noted, s1) = traverse (note_keeper now infos) created s in
    let started : Sentinel = record s1 { force_failed_keeper_uids = [] } in
    let (keepers, s2) = traverse (judge_keeper now cd) noted started in
    let (dbs, s3) = traverse (note_db now infos) cd.dbs s2 in
    elim (Option-cases (judge_dbs now (record cd { keepers = keepers }) s3 dbs)) [
      | inl n ↦ ground arith
      | inr (judged, e) ↦
          let same : keepers ≡ cd'.keepers = ground arith in
          let judged_all = judges-Judged now cd s1.keeper_error_timers noted started refl in
          let rule =
            All-Member (Judged now cd s1.keeper_error_timers) (values keepers) judged_all k
              (rw same m) in
          let timer = notes-timer now t infos created k.uid s silent running in
          elim (Bool-cases k.status.healthy) [
            | inr unhealthy ↦ unhealthy
            | inl healthy ↦ ground (arith, rule healthy, timer)
          ]
    ]
