-- ===== src/Examples/Commands.antt =====
-- The theorems on the commands of an operator, applied to concrete ones.
use hysteron.Base.{
  text, text_eq, Option, some, none, true, false, ℕ, List, [], ◌∷◌, length, ◌≡◌, ◌≢◌, ◌==◌, refl,
  if◌then◌else◌, arith, All, lookup, find_first, ◌≤◌, ◌⊎◌,
}
use hysteron.Utils.Strings.{trim_space}
use hysteron.Cluster.Spec.{empty_spec}
use hysteron.Cluster.Document.{ClusterData, find_db, pause_active}
use hysteron.Store.{KvPair, Etcd, atomic_put, interfere}
use hysteron.Operations.{
  OperationError, write, resume, reinitialize, refuse_early, change, resume_cluster,
  reinitialize_replica, unless_paused, mark_resync, change_db_of, resynced, with_status,
}
use hysteron.Operations.Effects.{Preserves, change-Preserves}
use hysteron.Operations.Paused.{AboutPause, change-AboutPause}
use hysteron.Operations.Rounds.{
  Attempt, answered, try_write, attempt, rounds, attempts, exhausted, run,
}
use hysteron.Operations.Rounds.Atomic.{run-Result}
use hysteron.Operations.Rounds.Results.{Result}
use hysteron.Operations.Rounds.Exhausted.{Disturbed, run-Disturbed}
use hysteron.Examples.World.{document}

-- A store that keeps every version: the index of a version is its number.
abbrev pair_of : List ClusterData → Option (KvPair ClusterData)
pair_of [] = none
pair_of (v ∷ vs) = some (record { value = v; last_index = length (v ∷ vs) })

abbrev swap_in : ℕ → ClusterData → List ClusterData → Option (List ClusterData)
swap_in r v [] = none
swap_in r v (w ∷ vs) = if r == length (w ∷ vs) then some (v ∷ w ∷ vs) else none

abbrev create : ClusterData → List ClusterData → Option (List ClusterData)
create v [] = some (v ∷ [])
create v (w ∷ vs) = none

index-le-length :
    (s : List ClusterData) (p : KvPair ClusterData) → pair_of s ≡ some p → p.last_index ≤ length s
index-le-length [] p e = cc
index-le-length (v ∷ vs) p e = ground arith

swap_in-same :
    (v : ClusterData) (s : List ClusterData) (p : KvPair ClusterData)
    → pair_of s ≡ some p
    → swap_in p.last_index v s ≡ some (v ∷ s)
swap_in-same v [] p e = cc
swap_in-same v (w ∷ vs) p e = ground arith

swap_in-other :
    (r : ℕ) (v : ClusterData) (s : List ClusterData)
    → ((p : KvPair ClusterData) → pair_of s ≡ some p → p.last_index ≢ r)
    → swap_in r v s ≡ none
swap_in-other r v [] h = refl
swap_in-other r v (w ∷ vs) h =
    let n = h (record { value = w; last_index = length (w ∷ vs) }) refl in ground arith

abbrev versions : Etcd ClusterData
versions = record {
  State = List ClusterData;
  pair = pair_of;
  put = λ v s. v ∷ s;
  put_if_revision = swap_in;
  put_if_absent = create;
  revision = length;
  pair-put = λ v s. refl;
  revision-put = λ v s. omega arith;
  index-le-revision = index-le-length;
  put_if_revision-same = swap_in-same;
  put_if_revision-other = swap_in-other;
}

abbrev cd : ClusterData
cd = document empty_spec

-- Another client writes the document again before this one does.
abbrev overtaken : Attempt
overtaken = record {
  now = 5;
  before = [];
  between = cd ∷ [];
  unreadable = false;
  answer = answered;
}

abbrev calm : Attempt
calm = record overtaken { between = [] }

-- A command that is overtaken once takes effect after that.
resumed : (run versions resume overtaken calm calm (cd ∷ [])).error ≡ none
unfolding run refuse_early rounds attempts attempt try_write atomic_put interfere change
    resume_cluster
resumed = refl

run-Result_example :
    ((e : OperationError) × (refuse_early resume ≡ some e)
      × (run versions resume overtaken calm calm (cd ∷ [])
          ≡ record { state = cd ∷ []; error = some e }))
    ⊎ ((refuse_early resume ≡ none)
        × Result versions
            (exhausted resume)
            (change resume)
            (attempts resume overtaken calm calm)
            (cd ∷ [])
            (run versions resume overtaken calm calm (cd ∷ [])))
run-Result_example = run-Result versions resume overtaken calm calm (cd ∷ [])

given_up :
    (run versions resume overtaken overtaken overtaken (cd ∷ [])).error ≡ some (exhausted resume)
unfolding run refuse_early rounds attempts attempt try_write atomic_put interfere change
    resume_cluster exhausted
given_up = refl

run-Disturbed_example : All Disturbed (attempts resume overtaken overtaken overtaken)
run-Disturbed_example =
    run-Disturbed versions resume overtaken overtaken overtaken (cd ∷ []) given_up

-- The standby db3 is to follow the master anew.
abbrev db3_resynced : ClusterData
db3_resynced = record (with_status (record cd.cluster.status { manual_switch = none }) cd) {
  dbs = change_db_of (text "k3") (resynced (text "db1")) cd.dbs;
}

db3_marked : change (reinitialize (text "k3")) 5 cd ≡ write db3_resynced
unfolding change reinitialize_replica unless_paused mark_resync find_db pause_active trim_space
    lookup find_first text_eq
db3_marked = refl

change-Preserves_example : Preserves cd db3_resynced
change-Preserves_example =
    change-Preserves (reinitialize (text "k3")) 5 cd db3_resynced (refl, (refl, (refl, tt)))
      db3_marked

-- The document while the cluster is paused.
abbrev paused_cd : ClusterData
paused_cd = with_status (record cd.cluster.status { paused = true }) cd

pause_lasts : pause_active paused_cd.cluster.status 5 ≡ true
unfolding pause_active
pause_lasts = refl

resume_writes : change resume 5 paused_cd ≡ write cd
unfolding change resume_cluster
resume_writes = refl

change-AboutPause_example : AboutPause resume
change-AboutPause_example = change-AboutPause resume 5 paused_cd cd pause_lasts resume_writes
