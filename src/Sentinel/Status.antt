-- ===== src/Sentinel/Status.antt =====
-- `updateKeepersStatus` of internal/runtime/sentinel/state.go: what the keepers published goes into
-- the document. `infos` are the keepers' infos, by the keeper's uid.
pub mod Silence
use hysteron.Base.{
  Text, text_eq, Map, lookup, insert, delete, has_key, Bool, true, false, not, Option, some, none,
  ℕ, List, [], ◌∷◌, ◌++◌, ◌&&◌, ◌||◌, Time, Duration, ltb_ℤ, sub_time, ◌==◌, if◌then◌else◌,
}
use hysteron.Cluster.Settings.{PostgresBinaryVersion}
use hysteron.Cluster.Entities.{
  KeeperInfo, KeeperStatus, Keeper, Db, DbStatus, PostgresState, initial_generation,
}
use hysteron.Cluster.Document.{ClusterData}
use hysteron.Sentinel.State.{Sentinel, KeeperInfoHistory}
use hysteron.Sentinel.Health.{
  set_keeper_error, clean_keeper_error, set_db_error, clean_db_error,
  set_db_not_increasing_xlog_pos, clean_db_not_increasing_xlog_pos, is_keeper_healthy,
  is_db_healthy,
}

-- The infos without those of keepers of another cluster.
unfoldable pub remove_foreign : Text → Map KeeperInfo → Map KeeperInfo → Map KeeperInfo
remove_foreign cluster_uid [] infos = infos
remove_foreign cluster_uid ((uid, ki) ∷ rest) infos =
    remove_foreign cluster_uid rest
      (if text_eq ki.cluster_uid cluster_uid then infos else delete ki.uid infos)

-- The histories of the first run: nothing counts as seen.
unfoldable pub unseen_histories : Map KeeperInfo → Map KeeperInfoHistory → Map KeeperInfoHistory
unseen_histories [] histories = histories
unseen_histories ((uid, ki) ∷ rest) histories =
    unseen_histories rest
      (insert uid (record { timer = 0; keeper_info = ki; seen = false }) histories)

-- An info that is the one of the history has been published anew only if it was seen within the
-- sleep interval.
unfoldable pub is_stale : Time → Duration → KeeperInfoHistory → KeeperInfo → Bool
is_stale now sleep_interval history ki =
    text_eq history.keeper_info.info_uid ki.info_uid
    && (not history.seen || ltb_ℤ sleep_interval (sub_time now history.timer))

unfoldable pub seen_now : Time → KeeperInfo → KeeperInfoHistory
seen_now now ki = record { timer = now; keeper_info = ki; seen = true }

-- One round of the loop over the infos.
unfoldable pub refresh :
    Time
    → Duration
    → Text
    → KeeperInfo
    → Map KeeperInfo
    → Map KeeperInfoHistory
    → Map KeeperInfo × Map KeeperInfoHistory
refresh now sleep_interval uid ki infos histories = elim (lookup uid histories) [
  | none ↦ (infos, insert uid (seen_now now ki) histories)
  | some history ↦ (
    if is_stale now sleep_interval history ki then delete ki.uid infos else infos,
    if text_eq history.keeper_info.info_uid ki.info_uid
        then histories
        else insert uid (seen_now now ki) histories,
  )
]

unfoldable pub refresh_all :
    Time
    → Duration
    → Map KeeperInfo
    → Map KeeperInfo
    → Map KeeperInfoHistory
    → Map KeeperInfo × Map KeeperInfoHistory
refresh_all now sleep_interval [] infos histories = (infos, histories)
refresh_all now sleep_interval ((uid, ki) ∷ rest) infos histories =
    let (infos', histories') = refresh now sleep_interval uid ki infos histories in
    refresh_all now sleep_interval rest infos' histories'

-- `NewKeeperFromKeeperInfo`
unfoldable pub new_keeper_from_keeper_info : Time → KeeperInfo → Keeper
new_keeper_from_keeper_info now ki = record {
  change_time = 0;
  uid = ki.uid;
  status = record {
    last_healthy_time = now;
    can_be_master = none;
    can_be_synchronous_replica = none;
    boot_uuid = ki.boot_uuid;
    hostname = ki.hostname;
    node_name = ki.node_name;
    postgres_binary_version = record { maj = 0; min = 0 };
    master_priority = ki.master_priority;
    healthy = true;
    force_fail = false;
  };
  generation = initial_generation;
}

-- "Create new keepers from keepersInfo"
unfoldable pub create_keepers : Time → Map KeeperInfo → Map Keeper → Map Keeper
create_keepers now [] keepers = keepers
create_keepers now ((uid, ki) ∷ rest) keepers = create_keepers now rest (
    if has_key uid keepers
    then keepers
    else insert ki.uid (new_keeper_from_keeper_info now ki) keepers)

-- Goes through a map of pointers, changing what they point to and the sentinel's memory.
unfoldable pub traverse :
    {A : Type 0} → (Text → A → Sentinel → A × Sentinel) → Map A → Sentinel → Map A × Sentinel
traverse f [] s = ([], s)
traverse f ((uid, a) ∷ m) s =
    let (a', s') = f uid a s in let (m', s'') = traverse f m s' in ((uid, a') ∷ m', s'')

-- The options that a keeper was started with.
unfoldable pub take_options : KeeperInfo → Keeper → Keeper
take_options ki k = record k {
  status = record k.status {
    can_be_master = ki.can_be_master;
    can_be_synchronous_replica = ki.can_be_synchronous_replica;
    master_priority = ki.master_priority;
    hostname = ki.hostname;
    node_name = ki.node_name;
  };
}

-- The options, then the error timer and the boot of a keeper; the code does this in two loops.
unfoldable pub note_keeper : Time → Map KeeperInfo → Text → Keeper → Sentinel → Keeper × Sentinel
note_keeper now infos uid k s = elim (lookup uid infos) [
  | none ↦ (k, set_keeper_error uid now s)
  | some ki ↦
      let k' = take_options ki k in
      (
        record k' {
          status = record k'.status {
            boot_uuid = ki.boot_uuid;
            postgres_binary_version = ki.postgres_binary_version;
          };
        },
        clean_keeper_error uid s,
      )
]

-- The time since which a keeper has been healthy.
unfoldable pub track_healthy : Time → Bool → Bool → Text → Sentinel → Sentinel
track_healthy now healthy was_healthy uid s =
    if not healthy
    then record s { keeper_healthy_since = delete uid s.keeper_healthy_since }
    else if was_healthy && has_key uid s.keeper_healthy_since
    then s
    else record s { keeper_healthy_since = insert uid now s.keeper_healthy_since }

-- A keeper that an operator has failed is unhealthy for this round.
unfoldable pub note_forced : Keeper → Sentinel → Sentinel
note_forced k s =
    if k.status.force_fail
    then record s { force_failed_keeper_uids = s.force_failed_keeper_uids ++ k.uid ∷ [] }
    else s

-- "Update keepers' healthy states"
unfoldable pub judge_keeper : Time → ClusterData → Text → Keeper → Sentinel → Keeper × Sentinel
judge_keeper now cd uid k s =
    let healthy = is_keeper_healthy now cd k s && not k.status.force_fail in
    let last_healthy_time =
      if healthy || k.status.last_healthy_time == 0 then now else k.status.last_healthy_time in
    (
      record k {
        status = record k.status {
          force_fail = false;
          last_healthy_time = last_healthy_time;
          healthy = healthy;
        };
      },
      track_healthy now healthy k.status.healthy k.uid (note_forced k s),
    )

-- Whether the log position of a database moved.
unfoldable pub track_xlog_pos : Time → Text → ℕ → ℕ → Sentinel → Sentinel
track_xlog_pos now uid before reported s =
    if before == reported
    then set_db_not_increasing_xlog_pos uid s
    else let s' = clean_db_not_increasing_xlog_pos uid s in
      record s' {
        db_increasing_xlog_pos_observed_at = insert uid now s'.db_increasing_xlog_pos_observed_at;
      }

-- The reported state of the database itself.
unfoldable pub take_state : Time → PostgresState → Db → Sentinel → Db × Sentinel
take_state now dbs db s =
    let tracked = track_xlog_pos now db.uid db.status.xlog_pos dbs.xlog_pos s in
    let located : DbStatus = record db.status {
      listen_address = dbs.listen_address;
      port = dbs.port;
      current_generation = dbs.generation;
    } in
    if dbs.healthy
    then (
      record db {
        status = record located {
          system_id = dbs.system_id;
          timeline_id = dbs.timeline_id;
          xlog_pos = dbs.xlog_pos;
          timelines_history = dbs.timelines_history;
          pg_parameters = dbs.pg_parameters;
          managed_logical_slots = dbs.managed_logical_slots;
          cur_synchronous_standbys = dbs.synchronous_standbys;
          older_wal_file = dbs.older_wal_file;
        };
      },
      clean_db_error db.uid tracked,
    )
    else (record db { status = located }, set_db_error db.uid now tracked)

-- "Update dbs' states"
unfoldable pub note_db : Time → Map KeeperInfo → Text → Db → Sentinel → Db × Sentinel
note_db now infos uid db s = elim (lookup db.spec.keeper_uid infos) [
  | none ↦ (db, set_db_error db.uid now s)
  | some ki ↦ elim ki.postgres_state [
    | none ↦ (db, set_db_error db.uid now s)
    | some dbs ↦
        if text_eq dbs.uid db.uid then take_state now dbs db s else (db, set_db_error db.uid now s)
  ]
]

-- "Update dbs' healthy state"; a database without a keeper is a panic.
unfoldable pub judge_db : Time → ClusterData → Sentinel → Db → Option Db
judge_db now cd s db = elim (lookup db.spec.keeper_uid cd.keepers) [
  | none ↦ none
  | some keeper ↦ some (record db {
    status = record db.status { healthy = keeper.status.healthy && is_db_healthy now cd db s };
  })
]

unfoldable pub judge_dbs : Time → ClusterData → Sentinel → Map Db → Option (Map Db)
judge_dbs now cd s [] = some []
judge_dbs now cd s ((uid, db) ∷ dbs) = elim (judge_db now cd s db) [
  | none ↦ none
  | some db' ↦ elim (judge_dbs now cd s dbs) [ none ↦ none | some dbs' ↦ some ((uid, db') ∷ dbs') ]
]

-- The keepers and databases after the infos that are fresh.
unfoldable pub take_infos :
    Time → Map KeeperInfo → ClusterData → Sentinel → Option (ClusterData × Sentinel)
take_infos now infos cd s =
    let created = create_keepers now infos cd.keepers in
    let (noted, s1) = traverse (note_keeper now infos) created s in
    let (keepers, s2) =
      traverse (judge_keeper now cd) noted (record s1 { force_failed_keeper_uids = [] }) in
    let (dbs, s3) = traverse (note_db now infos) cd.dbs s2 in
    elim (judge_dbs now (record cd { keepers = keepers }) s3 dbs) [
      | none ↦ none
      | some judged ↦ some (record cd { keepers = keepers; dbs = judged }, s3)
    ]

-- `updateKeepersStatus`
unfoldable pub update_keepers_status :
    Time
    → ClusterData
    → Map KeeperInfo
    → Bool
    → Sentinel
    → Option ((ClusterData × Map KeeperInfoHistory) × Sentinel)
update_keepers_status now cd keepers_info first_run s =
    let infos = remove_foreign cd.cluster.uid keepers_info keepers_info in
    if first_run
    then some ((cd, unseen_histories infos s.keeper_info_histories), s)
    else (let (fresh, histories) =
          refresh_all now s.sleep_interval infos infos s.keeper_info_histories in
        elim (take_infos now fresh cd s) [
          | none ↦ none
          | some (cd', s') ↦ some ((cd', histories), s')
        ])
