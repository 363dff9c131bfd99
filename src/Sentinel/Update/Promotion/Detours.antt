-- ===== src/Sentinel/Update/Promotion/Detours.antt =====
-- The way of the proxies from one master to another, over many rounds of the sentinel.
use hysteron.Base.{Text, some, List, [], ◌≡◌}
use hysteron.Cluster.Spec.{DefSpec}
use hysteron.Cluster.Entities.{ProxyInfo}
use hysteron.Cluster.Document.{ClusterData}
use hysteron.Sentinel.Update.Promotion.{hand_over}
use hysteron.Sentinel.Update.Promotion.Routing.{AllConverged}

-- A step of a round, with the active proxies that the sentinel sees in it. The next step starts from
-- any document with the proxies' object that this one leaves.
pub data Rounds : ClusterData → ClusterData → Type 0 where
  stop : {cd : ClusterData} → Rounds cd cd
  round :
      {cd cd1 cd2 cd' : ClusterData} (spec : DefSpec) (pis : List ProxyInfo) (wanted : Text)
      → hand_over spec pis cd.cluster.status.master wanted cd ≡ some cd1
      → cd2.proxy ≡ cd1.proxy
      → Rounds cd2 cd'
      → Rounds cd cd'

abbrev pub destination : ClusterData → Text
destination cd = cd.proxy.spec.master_db_uid

-- On the way a document sends the proxies to no master, and all the active ones have taken it in.
pub record Detour (cd cd' : ClusterData) : Type 0 where
  pub between : ClusterData
  pub active : List ProxyInfo
  pub before : Rounds cd between
  pub after : Rounds between cd'
  pub nowhere : destination between ≡ []
  pub taken_in : AllConverged between.proxy.generation active
