-- ===== src/Sentinel/Leadership/Failback.antt =====
-- When the opt-in automatic failback moves the master, and to which database.
use hysteron.Base.{
  lookup, true, false, Option, some, none, List, [], ◌∷◌, ◌≡◌, refl, ◌⊎◌, inl, inr, arith,
  Option-cases, Bool-cases, Time, ℤ, ltb_ℤ, All, All-Member, Member,
}
use hysteron.Cluster.Entities.{Db, Keeper}
use hysteron.Cluster.Document.{ClusterData, def_spec}
use hysteron.Sentinel.State.{Sentinel}
use hysteron.Sentinel.Selection.{find_best_new_masters, keeper_master_priority}
use hysteron.Sentinel.Selection.Candidates.{IsKeyed}
use hysteron.Sentinel.Selection.NewMasters.{IsCandidate, find_best_new_masters_iff}
use hysteron.Sentinel.Leadership.{
  highest_priority, is_up_long_enough, is_cooled_down, admit_failback, choose_auto_failback_target,
}

ltb_ℤ_irrefl : (a : ℤ) → ltb_ℤ a a ≡ false
ltb_ℤ_irrefl a = ground arith

ltb_ℤ_lower : (a b c : ℤ) → ltb_ℤ a b ≡ true → ltb_ℤ a c ≡ false → ltb_ℤ b c ≡ false
ltb_ℤ_lower a b c h k = ground arith

ltb_ℤ_trans : (a b c : ℤ) → ltb_ℤ a b ≡ true → ltb_ℤ b c ≡ true → ltb_ℤ a c ≡ true
ltb_ℤ_trans a b c h k = ground arith

-- No priority of the list is above `best`.
NoneAbove : ClusterData → ℤ → List Db → Type 0
NoneAbove cd best = All (λ c. ltb_ℤ best (keeper_master_priority cd c) ≡ false)

-- A member of the list whose priority is above `best` and no lower than any other's.
Highest : ClusterData → ℤ → List Db → Db → Type 0
Highest cd best cs t =
    Member t cs
    × (ltb_ℤ best (keeper_master_priority cd t) ≡ true)
    × NoneAbove cd (keeper_master_priority cd t) cs

same-Highest :
    (cd : ClusterData) (best : ℤ) (cs : List Db) (c t : Db)
    → c ≡ t
    → Highest cd best cs c
    → Highest cd best cs t
same-Highest cd best cs c t e h = rw (← e) h

-- Where the loop ends with a target, the target is the one it began with, or one of the list whose
-- priority is above `best`, and no priority of the list is above the target's.
highest_priority_lem :
    (cd : ClusterData) (best : ℤ) (o : Option Db) (cs : List Db) (t : Db)
    → highest_priority cd best o cs ≡ some t
    → ((o ≡ some t) × NoneAbove cd best cs) ⊎ Highest cd best cs t
unfolding highest_priority NoneAbove Highest
highest_priority_lem cd best o [] t h = inl (h, tt)
highest_priority_lem cd best o (c ∷ cs) t h =
    elim (Bool-cases (ltb_ℤ best (keeper_master_priority cd c))) [
      | inl higher ↦
          elim (highest_priority_lem cd (keeper_master_priority cd c) (some c) cs t
            (rw higher at h)) [
              | inl (e, none_above) ↦ inr (
                  same-Highest cd best (c ∷ cs) c t (ground arith)
                    (inl refl, higher, (ltb_ℤ_irrefl (keeper_master_priority cd c), none_above)))
              | inr (m, above, none_above) ↦
                  let pc = keeper_master_priority cd c in
                  let pt = keeper_master_priority cd t in
                  inr (inr m, ltb_ℤ_trans best pc pt higher above, (asym pc pt above, none_above))
            ]
      | inr lower ↦ elim (highest_priority_lem cd best o cs t (rw lower at h)) [
        | inl (e, none_above) ↦ inl (e, (lower, none_above))
        | inr (m, above, none_above) ↦
            let pc = keeper_master_priority cd c in
            let pt = keeper_master_priority cd t in
            inr (inr m, above, (ltb_ℤ_lower best pt pc above lower, none_above))
      ]
    ]
  where
    asym : (a b : ℤ) → ltb_ℤ a b ≡ true → ltb_ℤ b a ≡ false
    asym a b h = ground arith

-- The target's keeper is healthy, for long enough, and the last failback is long enough ago.
pub record Admitted (now : Time) (cd : ClusterData) (s : Sentinel) (t : Db) : Type 0 where
  pub keeper : Keeper
  pub known : lookup t.spec.keeper_uid cd.keepers ≡ some keeper
  pub healthy : keeper.status.healthy ≡ true
  pub up : is_up_long_enough now (def_spec cd).auto_failback_min_uptime keeper.uid s ≡ true
  pub cooled_down : is_cooled_down now (def_spec cd).auto_failback_cooldown s ≡ true

-- The target of a failback.
pub record IsFailback (now : Time) (cd : ClusterData) (cur : Db) (s : Sentinel) (t : Db)
    : Type 0 where
  pub enabled : (def_spec cd).unsafe_auto_failback ≡ true
  pub candidate : IsCandidate cd cur t
  pub preferred : ltb_ℤ (keeper_master_priority cd cur) (keeper_master_priority cd t) ≡ true
  pub most_preferred :
      (c : Db)
      → IsCandidate cd cur c
      → ltb_ℤ (keeper_master_priority cd t) (keeper_master_priority cd c) ≡ false
  pub admitted : Admitted now cd s t

admit_failback-Admitted :
    (now : Time) (cd : ClusterData) (s : Sentinel) (d t : Db)
    → admit_failback now cd s d ≡ some t
    → (d ≡ t) × Admitted now cd s d
unfolding admit_failback
admit_failback-Admitted now cd s d t h = elim (Option-cases (lookup d.spec.keeper_uid cd.keepers)) [
  | inl n ↦ ground arith
  | inr (k, e) ↦ (
    ground arith,
    record {
      keeper = k;
      known = e;
      healthy = ground arith;
      up = ground arith;
      cooled_down = ground arith;
    },
  )
]

-- `chooseAutoFailbackTarget` returns a database only where the cluster allows automatic failback.
-- The database can take over from the running master, its keeper has a higher priority than the
-- master's and no lower one than any other candidate's, is healthy and has been so for the minimum
-- uptime, and the last failback is at least the cooldown ago.
pub choose_auto_failback_target-IsFailback :
    (now : Time) (cd : ClusterData) (cur : Db) (s s' : Sentinel) (t : Db)
    → IsKeyed cd
    → choose_auto_failback_target now cd cur s ≡ some (some t, s')
    → IsFailback now cd cur s' t
unfolding choose_auto_failback_target NoneAbove Highest
choose_auto_failback_target-IsFailback now cd cur s s' t keyed h =
    elim (Option-cases (find_best_new_masters now cd cur s)) [
      | inl n ↦ ground arith
      | inr ((cs, s1), found) ↦
          elim (Option-cases (highest_priority cd (keeper_master_priority cd cur) none cs)) [
            | inl n ↦ ground arith
            | inr (d, best) ↦
                let same : s1 ≡ s' = ground arith in
                let admits : admit_failback now cd s1 d ≡ some t = ground arith in
                let (e, adm) = admit_failback-Admitted now cd s1 d t admits in
                let candidates = find_best_new_masters_iff now cd cur s s1 cs keyed found in
                elim (highest_priority_lem cd (keeper_master_priority cd cur) none cs t
                  (rw (← e) best)) [
                    | inl (bad, _) ↦ absurd (cc bad)
                    | inr (m, above, none_above) ↦ record {
                      enabled = ground arith;
                      candidate = (candidates t).0 m;
                      preferred = above;
                      most_preferred = λ c is. All-Member _ cs none_above c ((candidates c).1 is);
                      admitted = rw (← e, ← same) adm;
                    }
                  ]
          ]
    ]
