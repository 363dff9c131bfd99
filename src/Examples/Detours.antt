-- ===== src/Examples/Detours.antt =====
-- The proxies of the example cluster on their way from the old master to the new one.
use hysteron.Base.{text, [], ◌∷◌, pos}
use hysteron.Cluster.Entities.{ProxyInfo}
use hysteron.Cluster.Document.{ClusterData}
use hysteron.Sentinel.Update.Promotion.{converge_proxy}
use hysteron.Sentinel.Update.Promotion.Detours.{Rounds}
use hysteron.Examples.Rounds.{promoted}
use hysteron.Examples.World.{sync_cluster}

-- A proxy that has closed its connections.
abbrev detached : ProxyInfo
detached = record {
  info_uid = text "i";
  uid = text "p1";
  hostname = [];
  node_name = [];
  listeners = [];
  generation = 2;
  proxy_timeout = pos 15_000_000_000;
}

-- The document of the round after the promotion.
abbrev rerouted : ClusterData
rerouted = record (promoted sync_cluster) {
  proxy = converge_proxy (detached ∷ []) (text "db2") (promoted sync_cluster).proxy;
}
