-- ===== src/Operations/Paused.antt =====
-- The commands while the cluster is paused.
use hysteron.Base.{true, ◌≡◌, Time}
use hysteron.Cluster.Document.{ClusterData, pause_active}
use hysteron.Operations.{
  write, Operation, pause, resume, manual_switch, reinitialize, promote, update_specification,
  remove, fail, fail_over, change, request_manual_switch, reinitialize_replica, promote_cluster,
  update_cluster_specification, remove_keeper, fail_keeper, force_failover,
}
use hysteron.Operations.Effects.{unless_paused-eq-write, validated-eq-write}

-- The commands about the pause itself.
abbrev pub AboutPause : Operation → Type 0
AboutPause (pause reason ttl) = Unit
AboutPause resume = Unit
AboutPause _ = ⊥

-- While the pause of a document lasts, no command writes a new one but those that set and end the
-- pause.
pub change-AboutPause :
    (op : Operation) (now : Time) (cd next : ClusterData)
    → pause_active cd.cluster.status now ≡ true
    → change op now cd ≡ write next
    → AboutPause op
unfolding change request_manual_switch reinitialize_replica promote_cluster
    update_cluster_specification remove_keeper fail_keeper force_failover
change-AboutPause (pause reason ttl) now cd next p h = tt
change-AboutPause resume now cd next p h = tt
change-AboutPause (manual_switch target mode) now cd next p h =
    let active = (unless_paused-eq-write now cd _ next h).0 in cc
change-AboutPause (reinitialize target) now cd next p h =
    let active = (unless_paused-eq-write now cd _ next h).0 in cc
change-AboutPause promote now cd next p h =
    let active = (validated-eq-write now cd _ next h).1 in cc
change-AboutPause (update_specification read) now cd next p h =
    let active = (validated-eq-write now cd _ next h).1 in cc
change-AboutPause (remove uid) now cd next p h =
    let active = (validated-eq-write now cd _ next h).1 in cc
change-AboutPause (fail uid) now cd next p h =
    let active = (validated-eq-write now cd _ next h).1 in cc
change-AboutPause fail_over now cd next p h =
    let active = (validated-eq-write now cd _ next h).1 in cc
