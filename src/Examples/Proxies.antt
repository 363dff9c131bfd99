-- ===== src/Examples/Proxies.antt =====
-- The theorems on read-only clients and on replication slots, applied to concrete values.
use hysteron.Base.{
  Text, text, text_eq, text_lt, sort_texts, has_key, lookup, true, false, Option, some, [], ◌∷◌,
  ◌≡◌, refl, sym, inl, Member,
}
use mathlib.Core.Path.{subst}
use hysteron.Cluster.Spec.{empty_spec}
use hysteron.Cluster.Entities.{Db}
use hysteron.Proxy.ReadOnly.{
  ReplicaPriority, ReadOnlyOptions, ProxyDestination, read_only_destinations, is_empty, or_else,
  select_priority, xlog_lag, db_status_eligible, read_only_destination_from_db, standby_destination,
  file_destination, offer_standby, standby_candidates, read_only_standby_candidates, with_primary,
  add_destination, fall_back, select_destinations,
}
use hysteron.Proxy.ReadOnly.Destinations.{Allowed, read_only_destinations-Allowed}
use hysteron.Utils.Slices.{contains}
use hysteron.Sentinel.Update.MemberSlots.{hysteron_name, slots_of, compute_orphan_member_slots}
use hysteron.Sentinel.Update.MemberSlots.Tracking.{lookup-compute_orphan_member_slots}
use hysteron.Examples.World.{document, db1}

abbrev to_port : Text → Text → Option Text
to_port host port = some port

-- Standbys up to 7 bytes behind the primary.
abbrev options : ReadOnlyOptions
options = record {
  replica_priority = ReplicaPriority.any;
  max_lag = 7;
  include_primary = false;
  no_fallback = false;
}

-- Of the two standbys, one is near enough.
one_is_near :
    read_only_destinations to_port true options (document empty_spec) (some db1) ≡ text "5432" ∷ []
unfolding read_only_destinations select_destinations read_only_standby_candidates standby_candidates
    offer_standby file_destination standby_destination read_only_destination_from_db with_primary
    add_destination fall_back select_priority or_else is_empty xlog_lag db_status_eligible contains
    sort_texts text_lt lookup text_eq
one_is_near = refl

read_only_destinations-Allowed_example :
    (master : Db) × (some db1 ≡ some master)
    × ((d : ProxyDestination Text) × (d.addr ≡ text "5432")
        × Allowed to_port options (document empty_spec) master d)
read_only_destinations-Allowed_example =
    read_only_destinations-Allowed to_port true options (document empty_spec) (some db1)
      (text "5432") (subst (Member (text "5432")) (sym one_is_near) (inl refl))

lookup-compute_orphan_member_slots_example :
    lookup
      (hysteron_name (text "db3"))
      (compute_orphan_member_slots (text "db2" ∷ text "db3" ∷ []) (text "db2" ∷ []) [] false 7)
    ≡ some 7
unfolding contains slots_of text_eq has_key lookup
lookup-compute_orphan_member_slots_example =
    lookup-compute_orphan_member_slots (text "db2" ∷ text "db3" ∷ []) (text "db2" ∷ []) [] 7
      (hysteron_name (text "db3"))
