-- ===== src/Sentinel/State.antt =====
-- internal/runtime/sentinel/types.go: the sentinel's memory between two rounds, and the monad of
-- its methods. `none` is a panic (a nil pointer that the code follows); an error that a method
-- returns is a `Result`, after which the sentinel's memory stays as it is.
use hysteron.Base.{Text, Map, Bool, ℕ, Time, Duration, Option, some, none, List}
use hysteron.Cluster.Entities.{KeeperInfo, ProxyInfo}

pub record KeeperInfoHistory : Type 0 where
  pub timer : Time
  pub keeper_info : KeeperInfo
  pub seen : Bool

pub record DbConvergenceInfo : Type 0 where
  pub timer : Time
  pub generation : ℕ

pub record ProxyInfoHistory : Type 0 where
  pub proxy_info : ProxyInfo
  pub timer : Time

-- `timer` maps and counters, by the uid of a keeper or database. The zero time of
-- `auto_failback_last_switch_at` is 0.
pub record Sentinel : Type 0 where
  pub keeper_error_timers : Map Time
  pub db_error_timers : Map Time
  pub db_not_increasing_xlog_pos : Map ℕ
  pub db_increasing_xlog_pos_observed_at : Map Time
  pub keeper_healthy_since : Map Time
  pub auto_failback_last_switch_at : Time
  pub db_convergence_infos : Map DbConvergenceInfo
  pub leader_race_backoff_timers : Map Time
  pub force_failed_keeper_uids : List Text
  pub keeper_info_histories : Map KeeperInfoHistory
  pub proxy_info_histories : Map ProxyInfoHistory
  pub sleep_interval : Duration

pub data Error : Type 0 where
  unknown_db : Text → Error
  invalid_db_role : Text → Error
  bad_wal_file_name : Error

pub data Result {ℓ} (A : Type ℓ) : Type ℓ where
  ok : A → Result A
  err : Error → Result A

abbrev pub M : Type 0 → Type 0
M A = Sentinel → Option (A × Sentinel)

infixl 5 ◌>>=◌ ◌>>◌
abbrev pub ◌>>=◌ : {A B : Type 0} → M A → (A → M B) → M B
◌>>=◌ m f s = elim (m s) [ none ↦ none | some (a, s') ↦ f a s' ]

abbrev pub ◌>>◌ : {A B : Type 0} → M A → M B → M B
◌>>◌ m k s = elim (m s) [ none ↦ none | some (a, s') ↦ k s' ]

abbrev pub return : {A : Type 0} → A → M A
return a s = some (a, s)

abbrev pub panic : {A : Type 0} → M A
panic s = none

-- Follows a pointer.
abbrev pub deref : {A : Type 0} → Option A → M A
deref none s = none
deref (some a) s = some (a, s)
