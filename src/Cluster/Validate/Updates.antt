-- ===== src/Cluster/Validate/Updates.antt =====
-- What no sequence of accepted updates changes.
use mathlib.Core.Path.{subst}
use hysteron.Base.{
  text_eq_iff, Option, some, none, true, false, Bool, ◌&&◌, ◌≡◌, ◌≢◌, ◌⊎◌, refl, ap, ◌∙◌, inl, inr,
  Option-cases, Bool-cases,
}
use hysteron.Cluster.Enums.{ClusterRole, ClusterInitMode}
use hysteron.Cluster.Settings.{StandbyConfig}
use hysteron.Cluster.Spec.{ClusterSpec, with_defaults}
use hysteron.Cluster.Document.{Cluster}
use hysteron.Cluster.Validate.Parts.{validate-Passes}
use hysteron.Cluster.Validate.{
  validate, validate_role, updated, update_spec, replace_spec, same_init_mode, is_master_cluster,
  is_standby_cluster,
}

-- Clusters that follow one another by accepted updates of the specification.
pub data Updates (c : Cluster) : Cluster → Type 0 where
  here : Updates c c
  next :
      {d e : Cluster} (spec : ClusterSpec)
      → Updates c d
      → update_spec d spec ≡ updated e
      → Updates c e

same_init_mode_sound : (a b : ClusterInitMode) → same_init_mode a b ≡ true → a ≡ b
unfolding same_init_mode
same_init_mode_sound ClusterInitMode.fresh ClusterInitMode.fresh h = refl
same_init_mode_sound ClusterInitMode.pitr ClusterInitMode.pitr h = refl
same_init_mode_sound ClusterInitMode.existing ClusterInitMode.existing h = refl
same_init_mode_sound (ClusterInitMode.unknown a) (ClusterInitMode.unknown b) h =
    ap ClusterInitMode.unknown ((text_eq_iff a b).0 h)
same_init_mode_sound ClusterInitMode.fresh ClusterInitMode.pitr h = cc
same_init_mode_sound ClusterInitMode.fresh ClusterInitMode.existing h = cc
same_init_mode_sound ClusterInitMode.fresh (ClusterInitMode.unknown b) h = cc
same_init_mode_sound ClusterInitMode.pitr ClusterInitMode.fresh h = cc
same_init_mode_sound ClusterInitMode.pitr ClusterInitMode.existing h = cc
same_init_mode_sound ClusterInitMode.pitr (ClusterInitMode.unknown b) h = cc
same_init_mode_sound ClusterInitMode.existing ClusterInitMode.fresh h = cc
same_init_mode_sound ClusterInitMode.existing ClusterInitMode.pitr h = cc
same_init_mode_sound ClusterInitMode.existing (ClusterInitMode.unknown b) h = cc
same_init_mode_sound (ClusterInitMode.unknown a) ClusterInitMode.fresh h = cc
same_init_mode_sound (ClusterInitMode.unknown a) ClusterInitMode.pitr h = cc
same_init_mode_sound (ClusterInitMode.unknown a) ClusterInitMode.existing h = cc

-- What a later cluster shares with an earlier one.
pub record Keeps (c e : Cluster) : Type 0 where
  pub init_mode : e.spec.init_mode ≡ c.spec.init_mode
  pub master :
      ((with_defaults c.spec).role ≢ ClusterRole.master)
      ⊎ ((with_defaults e.spec).role ≡ ClusterRole.master)
  pub same : e ≡ record c { spec = e.spec }

validate_role-cases :
    (r : ClusterRole) (config : Option StandbyConfig)
    → validate_role r config ≡ none
    → is_standby_cluster r ≡ false
    → r ≡ ClusterRole.master
unfolding validate_role
validate_role-cases ClusterRole.master config h k = refl
validate_role-cases ClusterRole.standby config h k = cc
validate_role-cases (ClusterRole.unknown r) config h k = cc

Role-cases : (r : ClusterRole) → (r ≡ ClusterRole.master) ⊎ (r ≢ ClusterRole.master)
Role-cases ClusterRole.master = inl refl
Role-cases ClusterRole.standby = inr (λ e. cc)
Role-cases (ClusterRole.unknown r) = inr (λ e. cc)

abbrev guarded : Cluster → ClusterSpec → Bool
guarded c spec =
    is_master_cluster (with_defaults c.spec).role && is_standby_cluster (with_defaults spec).role

not_guarded :
    (c : Cluster) (spec : ClusterSpec)
    → (with_defaults c.spec).role ≡ ClusterRole.master
    → guarded c spec ≡ false
    → is_standby_cluster (with_defaults spec).role ≡ false
not_guarded c spec m g = go (with_defaults c.spec).role m g
  where
    go :
        (r : ClusterRole)
        → r ≡ ClusterRole.master
        → (is_master_cluster r && is_standby_cluster (with_defaults spec).role) ≡ false
        → is_standby_cluster (with_defaults spec).role ≡ false
    go ClusterRole.master m g = g
    go ClusterRole.standby m g = cc
    go (ClusterRole.unknown r) m g = cc

replace_spec-Keeps :
    (c e : Cluster) (spec : ClusterSpec) (a b : ClusterInitMode)
    → validate spec ≡ none
    → c.spec.init_mode ≡ some a
    → spec.init_mode ≡ some b
    → replace_spec c spec a b ≡ updated e
    → Keeps c e × (validate e.spec ≡ none)
unfolding replace_spec
replace_spec-Keeps c e spec a b valid ea eb h = elim (Bool-cases (same_init_mode a b)) [
  | inr differ ↦ cc
  | inl same ↦
      let modes = same_init_mode_sound a b same in
      elim (Bool-cases (guarded c spec)) [
        | inl g ↦ cc
        | inr g ↦
            subst (λ e. Keeps c e × (validate e.spec ≡ none)) (cc)
              (
                record {
                  init_mode = cc;
                  master = elim (Role-cases (with_defaults c.spec).role) [
                    | inr other ↦ inl other
                    | inl m ↦ inr (
                        validate_role-cases (with_defaults spec).role
                          (with_defaults spec).standby_config (validate-Passes spec valid).role
                          (not_guarded c spec m g))
                  ];
                  same = refl;
                },
                valid,
              )
      ]
]

pub update_spec-Keeps :
    (c e : Cluster) (spec : ClusterSpec)
    → update_spec c spec ≡ updated e
    → Keeps c e × (validate e.spec ≡ none)
unfolding update_spec
update_spec-Keeps c e spec h = elim (Option-cases (validate spec)) [
  | inr (x, v) ↦ cc
  | inl v ↦ elim (Option-cases c.spec.init_mode) [
    | inl n ↦ cc
    | inr (a, ea) ↦ elim (Option-cases spec.init_mode) [
      | inl n ↦ cc
      | inr (b, eb) ↦ replace_spec-Keeps c e spec a b v ea eb (cc)
    ]
  ]
]

-- A sequence of accepted updates keeps the mode of initialisation, never makes a standby cluster of
-- a master one, and changes nothing else of the cluster than its specification.
pub Updates-Keeps : (c : Cluster) {e : Cluster} → Updates c e → Keeps c e
Updates-Keeps c here = (record {
  init_mode = refl;
  master = elim (Role-cases (with_defaults c.spec).role) [ inl m ↦ inr m | inr n ↦ inl n ];
  same = refl;
})
Updates-Keeps c (next {d} {e} spec before step) =
    let first = Updates-Keeps c before in
    let (last, _) = update_spec-Keeps d e spec step in
    (record {
      init_mode = last.init_mode ∙ first.init_mode;
      master = elim first.master [
        | inl other ↦ inl other
        | inr m ↦ elim last.master [ inl n ↦ absurd (n m) | inr k ↦ inr k ]
      ];
      same = last.same ∙ ap (λ (k : Cluster). record k { spec = e.spec }) first.same;
    })
