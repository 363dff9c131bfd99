-- ===== src/Examples/Checks.antt =====
-- The theorems on the rounds of a proxy, applied to concrete values.
use hysteron.Base.{
  ◌≢◌, ◌⊎◌, Text, text, text_eq, lookup, true, false, Option, some, none, [], ◌∷◌, ◌≡◌, refl, pos,
}
use hysteron.Cluster.Document.{ClusterData}
use hysteron.Utils.Slices.{contains}
use hysteron.Proxy.ReadOnly.{ReplicaPriority}
use hysteron.Proxy.Check.{
  Checker, Round, tick, settle, check, apply_document, route, with_master, serve, register,
  update_runtime_config, set_proxy_info, set_writable_destination, set_read_only_destinations,
}
use hysteron.Proxy.Check.Serving.{Serves, check-Serves}
use hysteron.Proxy.Check.Failing.{tick-Serves}
use hysteron.Examples.World.{document, fresh_spec, db1}
use hysteron.Examples.Specs.{fresh_spec_valid}

abbrev port_of : Text → Text → Option Text
port_of host port = some port

-- The document that enables the proxy p1.
abbrev enabling : ClusterData
enabling =
    let cd = document fresh_spec in
    record cd {
      proxy = record cd.proxy {
        spec = record { master_db_uid = text "db1"; enabled_proxies = some (text "p1" ∷ []) };
      };
    }

-- A proxy that has just started.
abbrev p1 : Checker Text
p1 = record {
  uid = text "p1";
  writable = true;
  read_only = false;
  read_only_options = record {
    replica_priority = ReplicaPriority.sync;
    max_lag = 0;
    include_primary = false;
    no_fallback = false;
  };
  writable_destination = none;
  read_only_pool = [];
  proxy_check_interval = pos 5;
  proxy_timeout = pos 15;
  published = none;
}

abbrev good_round : Round
good_round = record {
  ended = false;
  document = some (some enabling);
  writable_starts = true;
  read_only_starts = true;
  publishes = true;
  timed_out = false;
}

abbrev p1_after : Checker Text
p1_after = serve port_of enabling db1 (text "5432") (register enabling p1)

p1_succeeds : check port_of good_round p1 ≡ (p1_after, none)
unfolding check apply_document route with_master lookup text_eq
p1_succeeds = rw fresh_spec_valid refl

p1_routes : p1_after.writable_destination ≡ some (text "5432")
unfolding serve register update_runtime_config set_proxy_info set_writable_destination
    set_read_only_destinations contains text_eq
p1_routes = refl

check-Serves_example : Serves port_of p1 (some (some enabling)) (text "5432") p1_after.published
check-Serves_example =
    check-Serves port_of good_round p1 p1_after (text "5432") refl p1_succeeds p1_routes

p1_keeps_routing : (tick port_of good_round p1).writable_destination ≡ some (text "5432")
unfolding tick settle
p1_keeps_routing = rw p1_succeeds p1_routes

tick-Serves_example :
    (((check port_of good_round p1).1 ≢ none) × (none ≡ some (text "5432")))
    ⊎ Serves port_of p1 (some (some enabling)) (text "5432") (tick port_of good_round p1).published
tick-Serves_example = tick-Serves port_of good_round p1 (text "5432") refl p1_keeps_routing
