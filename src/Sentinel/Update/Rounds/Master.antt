-- ===== src/Sentinel/Update/Rounds/Master.antt =====
-- Which database is the master after a round of `updateCluster` in cluster_update.go.
use hysteron.Base.{
  Text, text_eq_iff, Map, lookup, insert, values, some, ℕ, List, leb, length, ◌≡◌, refl, sym, ap,
  ◌∙◌, ◌⊎◌, inl, inr, arith, Bool-cases, Option-cases, elems, Time,
}
use hysteron.Cluster.Enums.{ClusterPhase}
use hysteron.Cluster.Spec.{DefSpec}
use hysteron.Cluster.Entities.{Db, ProxyInfo}
use hysteron.Cluster.Document.{Cluster, ClusterData, def_spec, pause_active}
use hysteron.Sentinel.State.{Sentinel}
use hysteron.Sentinel.Health.{db_convergence_state}
use hysteron.Sentinel.Selection.{replica_line, valid_dbs_by_status, DbsByStatus}
use hysteron.Sentinel.Update.Decision.{
  Switch, remove_old_keepers, decide_master, manual_switch, switch_to, clear_manual_switch,
}
use hysteron.Sentinel.Update.Decision.Safety.{CanTakeOver, decide_master-CanTakeOver}
use hysteron.Sentinel.Update.Promotion.{hand_over, promote, with_master}
use hysteron.Sentinel.Update.Standbys.{
  clean_init_mode, balance_standbys, remove_standbys, add_standbys, reconfigure_standbys,
}
use hysteron.Sentinel.Update.Rounds.{
  claim_role, remove_dbs, clean_up, set_synchronous, arrange_standbys, update_standbys, keep_master,
  carry_out, finish, normal_phase, update_cluster,
}
use hysteron.Sentinel.Selection.Candidates.{IsKeyed}
use hysteron.Sentinel.Update.Specs.{
  set_db_spec_from_cluster_spec, update_followers, update_orphan_slots, finish_update, finish_round,
}
use hysteron.Sentinel.Update.Initial.{written}

balance_standbys-cluster :
    (uid_fn : ℕ → Text) (wanted : Text) (good converging : Map Db) (sync : List Text)
    (cd : ClusterData)
    → (reconfigure_standbys wanted (balance_standbys uid_fn wanted good converging sync cd)).cluster
      ≡ cd.cluster
unfolding reconfigure_standbys balance_standbys remove_standbys add_standbys
balance_standbys-cluster uid_fn wanted good converging sync cd =
    elim (Bool-cases (leb (def_spec cd).max_standbys_per_sender (length good))) [
      | inl enough ↦ rw enough refl
      | inr few ↦ rw few refl
    ]

arrange_standbys-cluster :
    (uid_fn : ℕ → Text) (now : Time) (spec : DefSpec) (m : Text) (cur_master : Db)
    (standbys : DbsByStatus) (cd x : ClusterData) (s s' : Sentinel)
    → arrange_standbys uid_fn now spec m cur_master standbys cd s ≡ some (x, s')
    → x.cluster ≡ cd.cluster
unfolding arrange_standbys
arrange_standbys-cluster uid_fn now spec m cur_master standbys cd x s s' h =
    elim (Option-cases (lookup m cd.dbs)) [
      | inl panic ↦ ground arith
      | inr (master, e) ↦
          elim (Option-cases
            (set_synchronous now spec cd standbys.good_dbs m cur_master master s)) [
              | inl panic ↦ ground arith
              | inr ((master', s1), e') ↦
                  let set : ClusterData = record cd { dbs = insert m master' cd.dbs } in
                  let kept =
                    balance_standbys-cluster uid_fn m standbys.good_dbs standbys.converging_dbs
                      (elems master'.spec.synchronous_standbys) set in
                  ground arith
            ]
    ]

update_standbys-cluster :
    (uid_fn : ℕ → Text) (now : Time) (spec : DefSpec) (cd : ClusterData) (m : Text)
    (cur_master : Db) (newcd x : ClusterData) (s s' : Sentinel)
    → update_standbys uid_fn now spec cd m cur_master newcd s ≡ some (x, s')
    → x.cluster ≡ newcd.cluster
unfolding update_standbys clean_up remove_dbs
update_standbys-cluster uid_fn now spec cd m cur_master newcd x s s' h =
    let cleaned = clean_up m cd s newcd in
    elim (Option-cases (valid_dbs_by_status now cleaned replica_line s)) [
      | inl panic ↦ ground arith
      | inr ((standbys, s1), e) ↦
          arrange_standbys-cluster uid_fn now spec m cur_master standbys
            (record cleaned { dbs = clean_init_mode (values standbys.good_dbs) cleaned.dbs }) x s1
            s' (ground arith)
    ]

keep_master-cluster :
    (uid_fn : ℕ → Text) (now : Time) (spec : DefSpec) (cd : ClusterData) (m : Text)
    (cur_master : Db) (newcd x : ClusterData) (s s' : Sentinel)
    → keep_master uid_fn now spec cd m cur_master newcd s ≡ some (x, s')
    → x.cluster ≡ newcd.cluster
unfolding keep_master
keep_master-cluster uid_fn now spec cd m cur_master newcd x s s' h =
    elim (Option-cases (lookup m newcd.dbs)) [
      | inl panic ↦ ground arith
      | inr (found, e) ↦
          let master = claim_role spec found in
          let claimed : ClusterData = record newcd { dbs = insert m master newcd.dbs } in
          let after = db_convergence_state now master spec.convergence_timeout s in
          let step = update_standbys-cluster uid_fn now spec cd m cur_master claimed x after.1 s' in
          ground arith
    ]

hand_over-master :
    (spec : DefSpec) (pis : List ProxyInfo) (cur wanted : Text) (cd x : ClusterData)
    → hand_over spec pis cur wanted cd ≡ some x
    → cd.cluster.status.master ≡ cur
    → x.cluster.status.master ≡ wanted
unfolding hand_over promote with_master
hand_over-master spec pis cur wanted cd x h e = ground (arith, text_eq_iff cur wanted)

manual_switch-master :
    (now : Time) (cd newcd : ClusterData) (cur : Text) (cur_master : Db) (sw : Switch)
    (s s' : Sentinel)
    → manual_switch now cd newcd cur cur_master s ≡ some (sw, s')
    → sw.document.cluster.status.master ≡ newcd.cluster.status.master
unfolding manual_switch switch_to clear_manual_switch
manual_switch-master now cd newcd cur cur_master sw s s' h = ground arith

decide_master-master :
    (now : Time) (cd newcd doc : ClusterData) (cur wanted : Text) (cur_master : Db)
    (s s' : Sentinel)
    → decide_master now cd newcd cur cur_master s ≡ some ((doc, wanted), s')
    → doc.cluster.status.master ≡ newcd.cluster.status.master
unfolding decide_master
decide_master-master now cd newcd doc cur wanted cur_master s s' h =
    elim (Option-cases (manual_switch now cd newcd cur cur_master s)) [
      | inl n ↦ ground arith
      | inr ((sw, s1), e) ↦
          let kept = manual_switch-master now cd newcd cur cur_master sw s s1 e in ground arith
    ]

carry_out-master :
    (uid_fn : ℕ → Text) (now : Time) (spec : DefSpec) (pis : List ProxyInfo) (cd : ClusterData)
    (cur : Text) (cur_master : Db) (newcd x : ClusterData) (wanted : Text) (s s' : Sentinel)
    → carry_out uid_fn now spec pis cd cur cur_master newcd wanted s ≡ some (x, s')
    → newcd.cluster.status.master ≡ cur
    → x.cluster.status.master ≡ wanted
unfolding carry_out
carry_out-master uid_fn now spec pis cd cur cur_master newcd x wanted s s' h e =
    elim (Option-cases (hand_over spec pis cur wanted newcd)) [
      | inl panic ↦ ground arith
      | inr (handed, run) ↦
          let there = hand_over-master spec pis cur wanted newcd handed run e in
          let kept = keep_master-cluster uid_fn now spec cd cur cur_master handed x s s' in
          ground arith
    ]

pub finish_update-cluster :
    (now : Time) (cd newcd x : ClusterData)
    → finish_update now cd newcd ≡ some x
    → x.cluster ≡ newcd.cluster
unfolding finish_update set_db_spec_from_cluster_spec update_orphan_slots
finish_update-cluster now cd newcd x h = ground arith

finish-master :
    (now : Time) (cd : ClusterData) (cur wanted : Text) (newcd x : ClusterData)
    → finish now cd cur wanted newcd ≡ some (written x)
    → x.cluster ≡ newcd.cluster
unfolding finish finish_round
finish-master now cd cur wanted newcd x h =
    elim (Option-cases (update_followers cur wanted newcd.dbs)) [
      | inl panic ↦ ground arith
      | inr (dbs, e) ↦
          let kept = finish_update-cluster now cd (record newcd { dbs = dbs }) x in ground arith
    ]

module _ (uid_fn : ℕ → Text) (rand_fn : ℕ → ℕ) (now : Time) (pis : List ProxyInfo)
    (cd cd' : ClusterData) (cur_master : Db) (s s' : Sentinel) (keyed : IsKeyed cd)
    (known : lookup cd.cluster.status.master cd.dbs ≡ some cur_master) where
  normal_phase-CanTakeOver :
      normal_phase uid_fn now (def_spec cd) pis cd s ≡ some (written cd', s')
      → (cd'.cluster.status.master ≡ cd.cluster.status.master)
        ⊎ CanTakeOver (remove_old_keepers now cd cd) cur_master cd'.cluster.status.master
  unfolding normal_phase remove_old_keepers
  normal_phase-CanTakeOver h =
      let cur = cd.cluster.status.master in
      let start = remove_old_keepers now cd cd in
      elim (Option-cases (decide_master now cd start cur cur_master s)) [
        | inl panic ↦ ground arith
        | inr (((doc, wanted), s1), e) ↦
            let decided =
              decide_master-CanTakeOver now cd start doc cur wanted cur_master s s1 keyed e in
            let same = decide_master-master now cd start doc cur wanted cur_master s s1 e in
            elim (Option-cases
              (carry_out uid_fn now (def_spec cd) pis cd cur cur_master doc wanted s1)) [
                | inl panic ↦ ground arith
                | inr ((newcd, s2), e') ↦
                    let there =
                      carry_out-master uid_fn now (def_spec cd) pis cd cur cur_master doc newcd
                        wanted s1 s2 e' same in
                    let kept = finish-master now cd cur wanted newcd cd' (ground arith) in
                    let is_wanted : cd'.cluster.status.master ≡ wanted =
                      ap (λ (c : Cluster). c.status.master) kept ∙ there in
                    rw is_wanted decided
              ]
      ]

  -- A round of a cluster in the normal phase that writes a document leaves the master that it has,
  -- or makes a database the master that can take over from it in the document without the dead
  -- keepers, if the master is known and every database stands under its own uid.
  pub update_cluster-CanTakeOver :
      cd.cluster.status.phase ≡ ClusterPhase.normal
      → update_cluster uid_fn rand_fn now pis cd s ≡ some (written cd', s')
      → (cd'.cluster.status.master ≡ cd.cluster.status.master)
        ⊎ CanTakeOver (remove_old_keepers now cd cd) cur_master cd'.cluster.status.master
  unfolding update_cluster
  update_cluster-CanTakeOver normal h =
      let run = normal_phase-CanTakeOver in
      elim (Bool-cases (pause_active cd.cluster.status now)) [
        | inl paused ↦
            let same : cd ≡ cd' = ground arith in
            inl (ap (λ (c : ClusterData). c.cluster.status.master) (sym same))
        | inr active ↦ run (ground arith)
      ]
