-- ===== src/Sentinel/Update/Specs/Changes.antt =====
-- `reflect.DeepEqual` of two specifications in cluster_update.go: all fields agree, the server
-- parameters as maps, whatever the order of their entries, and nil differs from empty.
use native.Mathlib.Decide.{ℕ_discrete}
use mathlib.Core.List.{List, [], ◌∷◌}
use hysteron.Base.{
  Text, text_eq, Map, lookup, keys, length, Bool, true, false, Option, some, none, ◌&&◌, ◌==◌,
}
use hysteron.Cluster.Entities.{DbSpec}

unfoldable pub DbSpec-discrete : Discrete DbSpec
DbSpec-discrete = hlevel ℕ_discrete

-- Of two keys, both values or no value.
unfoldable pub same_value : Option Text → Option Text → Bool
same_value none none = true
same_value (some v) (some w) = text_eq v w
same_value _ _ = false

unfoldable pub same_values : List Text → Map Text → Map Text → Bool
same_values [] a b = true
same_values (k ∷ ks) a b = same_value (lookup k a) (lookup k b) && same_values ks a b

-- `none` is a nil map, which differs from an empty one.
unfoldable pub same_map : Option (Map Text) → Option (Map Text) → Bool
same_map none none = true
same_map (some a) (some b) = length a == length b && same_values (keys a) a b
same_map _ _ = false

abbrev pub decided : {P : Type 0} → Dec P → Bool
decided (yes p) = true
decided (no n) = false

unfoldable pub deep_equal : DbSpec → DbSpec → Bool
deep_equal a b =
    decided
      (DbSpec-discrete (record a { pg_parameters = none }) (record b { pg_parameters = none }))
    && same_map a.pg_parameters b.pg_parameters
