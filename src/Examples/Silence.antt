-- ===== src/Examples/Silence.antt =====
-- The theorems on the keepers' status, applied to a round in which no keeper says anything.
use hysteron.Base.{
  text, text_eq, lookup, insert, delete, has_key, values, true, false, some, none, ℕ, [], ◌∷◌, ◌≡◌,
  refl, inl, inr, All, sub_time, ltb_ℤ,
}
use hysteron.Cluster.Spec.{with_defaults}
use hysteron.Cluster.Entities.{Keeper, Db, KeeperInfo}
use hysteron.Cluster.Document.{ClusterData, def_spec}
use hysteron.Sentinel.State.{Sentinel}
use hysteron.Sentinel.Health.{
  start_timer, set_keeper_error, set_db_error, is_keeper_healthy, is_db_healthy,
  within_fail_interval,
}
use hysteron.Sentinel.Status.{
  traverse, note_keeper, judge_keeper, note_forced, track_healthy, judge_db, judge_dbs, take_infos,
  create_keepers, note_db,
}
use hysteron.Sentinel.Status.Silence.{
  OnHealthyKeeper, take_infos-OnHealthyKeeper, take_infos-Silent,
}
use hysteron.Examples.World.{async_cluster, fresh_sentinel, db1, db2, db3, k1, k2, k3}

abbrev late : ℕ
late = 100_000_000_000

-- The keepers have said nothing since instant 5.
abbrev silent_sentinel : Sentinel
silent_sentinel = record fresh_sentinel {
  keeper_error_timers = (text "k1", 5) ∷ (text "k2", 5) ∷ (text "k3", 5) ∷ [];
}

abbrev after_silence : Sentinel
after_silence = record silent_sentinel {
  db_error_timers = (text "db1", late) ∷ (text "db2", late) ∷ (text "db3", late) ∷ [];
}

abbrev failed_keeper : Keeper → Keeper
failed_keeper k = record k { status = record k.status { healthy = false } }

abbrev failed_db : Db → Db
failed_db db = record db { status = record db.status { healthy = false } }

abbrev silent_cluster : ClusterData
silent_cluster = record async_cluster {
  keepers =
      (text "k1", failed_keeper k1)
      ∷ (text "k2", failed_keeper k2)
      ∷ (text "k3", failed_keeper k3)
      ∷ [];
  dbs =
      (text "db1", failed_db db1) ∷ (text "db2", failed_db db2) ∷ (text "db3", failed_db db3) ∷ [];
}

silent_round :
    take_infos late [] async_cluster silent_sentinel ≡ some (silent_cluster, after_silence)
unfolding take_infos create_keepers traverse note_keeper judge_keeper note_forced track_healthy
    judge_db judge_dbs note_db set_keeper_error set_db_error start_timer is_keeper_healthy
    is_db_healthy within_fail_interval lookup insert delete text_eq has_key def_spec with_defaults
    sub_time
silent_round = refl

take_infos-OnHealthyKeeper_example :
    All (OnHealthyKeeper silent_cluster.keepers) (values silent_cluster.dbs)
take_infos-OnHealthyKeeper_example =
    take_infos-OnHealthyKeeper late [] async_cluster silent_cluster silent_sentinel after_silence
      silent_round

k2-timer : lookup (text "k2") silent_sentinel.keeper_error_timers ≡ some 5
unfolding lookup text_eq
k2-timer = refl

k2-silent : lookup {V = KeeperInfo} (text "k2") [] ≡ none
unfolding lookup
k2-silent = refl

k2-late : ltb_ℤ (def_spec async_cluster).fail_interval (sub_time late 5) ≡ true
unfolding def_spec with_defaults sub_time
k2-late = refl

take_infos-Silent_example : (failed_keeper k2).status.healthy ≡ false
take_infos-Silent_example =
    take_infos-Silent late 5 [] async_cluster silent_cluster silent_sentinel after_silence
      (failed_keeper k2) silent_round (inr (inl refl)) k2-silent k2-timer k2-late
