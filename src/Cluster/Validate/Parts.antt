-- ===== src/Cluster/Validate/Parts.antt =====
-- An accepted specification passes each of the checks.
use hysteron.Base.{text, elems, Bool, true, false, Option, some, none, ◌≡◌, refl}
use hysteron.Cluster.Enums.{ClusterInitMode}
use hysteron.Cluster.Spec.{ClusterSpec, DefSpec, with_defaults}
use hysteron.Cluster.Checks.{
  SpecError, ◌orelse◌, reject_if, validate_durations, validate_standbys, validate_tls_mode,
  validate_each, validate_entry,
}
use hysteron.Cluster.SlotChecks.{validate_slots}
use hysteron.Cluster.Validate.{
  validate, validate_mode, validate_with_mode, validate_init_mode, validate_access_mode,
  validate_role,
}

pub orelse-eq-none : (a b : Option SpecError) → (a orelse b) ≡ none → (a ≡ none) × (b ≡ none)
orelse-eq-none none b h = (refl, h)
orelse-eq-none (some e) b h = cc

pub reject_if-eq-none : (b : Bool) (e : SpecError) → reject_if b e ≡ none → b ≡ false
reject_if-eq-none true e h = cc
reject_if-eq-none false e h = refl

validate_mode-parts :
    (s : DefSpec) (o : Option ClusterInitMode)
    → validate_mode s o ≡ none
    → (mode : ClusterInitMode) × (o ≡ some mode) × (validate_with_mode s mode ≡ none)
unfolding validate_mode
validate_mode-parts s none h = cc
validate_mode-parts s (some mode) h = (mode, refl, h)

-- The parts of `Validate` that return no error.
pub record Passes (s : DefSpec) : Type 0 where
  pub durations : validate_durations s ≡ none
  pub standbys : validate_standbys s ≡ none
  pub mode : ClusterInitMode
  pub init_mode : s.init_mode ≡ some mode
  pub slots : validate_slots s ≡ none
  pub known_mode : validate_init_mode s mode ≡ none
  pub role : validate_role s.role s.standby_config ≡ none

pub validate-Passes : (spec : ClusterSpec) → validate spec ≡ none → Passes (with_defaults spec)
unfolding validate validate_with_mode
validate-Passes spec h =
    let s = with_defaults spec in
    let (durations, h1) = orelse-eq-none (validate_durations s) _ h in
    let (standbys, h2) = orelse-eq-none (validate_standbys s) _ h1 in
    let (_, h3) = orelse-eq-none (validate_tls_mode s.replication_tls_mode) _ h2 in
    let (mode, init_mode, h4) = validate_mode-parts s s.init_mode h3 in
    let (slots, h5) = orelse-eq-none (validate_slots s) _ h4 in
    let (_, h6) =
      orelse-eq-none (validate_each (validate_entry (text "pgHBA")) (elems s.pg_hba)) _ h5 in
    let (_, h7) =
      orelse-eq-none (validate_each (validate_entry (text "pgIdent")) (elems s.pg_ident)) _ h6 in
    let (known_mode, h8) = orelse-eq-none (validate_init_mode s mode) _ h7 in
    let (_, role) = orelse-eq-none (validate_access_mode s.default_su_repl_access_mode) _ h8 in
    (record {
      durations = durations;
      standbys = standbys;
      mode = mode;
      init_mode = init_mode;
      slots = slots;
      known_mode = known_mode;
      role = role;
    })
