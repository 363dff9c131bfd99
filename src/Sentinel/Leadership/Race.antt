-- ===== src/Sentinel/Leadership/Race.antt =====
-- When an election waits for standbys that still receive WAL, and for how long.
use mathlib.Core.Option
use hysteron.Base.{
  Text, text_eq_refl, lookup, lookup-insert, lookup-delete, true, false, some, none, List, [], ◌∷◌,
  find_first, find_first_sound, find_first-eq-none, ◌≡◌, ◌≢◌, refl, inl, inr, ◌↔◌, arith,
  Option-cases, Time, Duration, pos, ltb_ℤ, sub_time, All-Member, Member, if◌then◌else◌,
}
use hysteron.Cluster.Entities.{Db}
use hysteron.Sentinel.State.{Sentinel}
use hysteron.Sentinel.Health.{is_db_increasing_xlog_pos}
use hysteron.Sentinel.Leadership.{is_still_advancing, should_delay_leader_race, is_empty}

-- A candidate was seen to advance within the window, and is not stalled.
pub record SeenGrowing (now : Time) (window : Duration) (s : Sentinel) (c : Db) : Type 0 where
  pub observed : Time
  pub known : lookup c.uid s.db_increasing_xlog_pos_observed_at ≡ some observed
  pub recent : ltb_ℤ (sub_time now observed) window ≡ true
  pub not_stalled : is_db_increasing_xlog_pos c s ≡ true

-- The backoff of the failed master has not started, or started less than a window ago.
abbrev pub InWindow : Time → Duration → Text → Sentinel → Type 0
InWindow now window uid s =
    (started : Time)
    → lookup uid s.leader_race_backoff_timers ≡ some started
    → ltb_ℤ (sub_time now started) window ≡ true

is_empty_of_ne-nil : (t : Text) → t ≢ [] → is_empty t ≡ false
unfolding is_empty
is_empty_of_ne-nil [] h = absurd (h refl)
is_empty_of_ne-nil (x ∷ t) h = refl

ne-nil_of_is_empty : (t : Text) → is_empty t ≡ false → t ≢ []
unfolding is_empty
ne-nil_of_is_empty [] e p = cc
ne-nil_of_is_empty (x ∷ t) e p = cc

is_still_advancing-SeenGrowing :
    (now : Time) (window : Duration) (s : Sentinel) (c : Db)
    → is_still_advancing now window s c ≡ true
    → SeenGrowing now window s c
unfolding is_still_advancing
is_still_advancing-SeenGrowing now window s c h =
    elim (Option-cases (lookup c.uid s.db_increasing_xlog_pos_observed_at)) [
      | inl n ↦ ground arith
      | inr (t, e) ↦ record {
        observed = t;
        known = e;
        recent = ground arith;
        not_stalled = ground arith;
      }
    ]

SeenGrowing-is_still_advancing :
    (now : Time) (window : Duration) (s : Sentinel) (c : Db)
    → SeenGrowing now window s c
    → is_still_advancing now window s c ≡ true
unfolding is_still_advancing
SeenGrowing-is_still_advancing now window s c a = ground arith

module _ (now : Time) (master : Db) (cs : List Db) (window : Duration) (s : Sentinel) where
  delay_needs :
      (should_delay_leader_race now master cs window s).0 ≡ true
      → (master.uid ≢ [])
        × (ltb_ℤ (pos 0) window ≡ true)
        × ((c : Db) × Member c cs × SeenGrowing now window s c)
        × InWindow now window master.uid s
  unfolding should_delay_leader_race
  delay_needs h = elim (Option-cases (find_first (is_still_advancing now window s) cs)) [
    | inl n ↦ ground arith
    | inr (c, e) ↦
        let (m, adv) = find_first_sound (is_still_advancing now window s) cs e in
        (
          ne-nil_of_is_empty master.uid (ground arith),
          ground arith,
          (c, m, is_still_advancing-SeenGrowing now window s c adv),
          λ started t. ground arith,
        )
  ]

  delay_of :
      (c : Db)
      → master.uid ≢ []
      → ltb_ℤ (pos 0) window ≡ true
      → Member c cs
      → SeenGrowing now window s c
      → InWindow now window master.uid s
      → (should_delay_leader_race now master cs window s).0 ≡ true
  unfolding should_delay_leader_race
  delay_of c named positive m adv within =
      elim (Option-cases (find_first (is_still_advancing now window s) cs)) [
        | inl n ↦
            let no_one = All-Member _ cs (find_first-eq-none _ cs n) c m in
            ground (arith, SeenGrowing-is_still_advancing now window s c adv)
        | inr (d, e) ↦ elim (Option-cases (lookup master.uid s.leader_race_backoff_timers)) [
          | inl fresh ↦ ground (arith, is_empty_of_ne-nil master.uid named)
          | inr (t, running) ↦ ground (arith, is_empty_of_ne-nil master.uid named, within t running)
        ]
      ]

-- `shouldDelayLeaderRace` delays an election exactly where the failed master has a uid, the window
-- is positive, some candidate was seen to advance within the window and is not stalled, and the
-- backoff of this master, if it runs, started less than a window ago.
pub should_delay_leader_race_iff :
    (now : Time) (master : Db) (cs : List Db) (window : Duration) (s : Sentinel)
    → ((should_delay_leader_race now master cs window s).0 ≡ true) ↔ (
        (master.uid ≢ [])
        × (ltb_ℤ (pos 0) window ≡ true)
        × ((c : Db) × Member c cs × SeenGrowing now window s c)
        × InWindow now window master.uid s)
should_delay_leader_race_iff now master cs window s = (
  delay_needs now master cs window s,
  λ (named, positive, a, within). delay_of now master cs window s a.0 named positive a.1 a.2 within,
)

-- The timer of the failed master after the call: while the election is delayed it keeps the
-- instant at which the first delay started, so that the wait is bounded; where the election goes
-- ahead there is none.
pub leader_race_timer :
    (now : Time) (master : Db) (cs : List Db) (window : Duration) (s : Sentinel)
    → master.uid ≢ []
    → let (delay, s') = should_delay_leader_race now master cs window s in
      lookup master.uid s'.leader_race_backoff_timers ≡ (
        if delay
        then some (Option.get_or (lookup master.uid s.leader_race_backoff_timers) now)
        else none)
unfolding should_delay_leader_race
leader_race_timer now master cs window s named =
    let uid = master.uid in
    let timers = s.leader_race_backoff_timers in
    ground (
      arith,
      lookup-insert uid uid now timers,
      lookup-delete uid uid timers,
      text_eq_refl uid,
      is_empty_of_ne-nil uid named,
    )
