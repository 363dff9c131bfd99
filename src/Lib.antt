-- ===== src/Lib.antt =====
-- Hysteron keeps a PostgreSQL cluster available. Keepers run the servers and publish what they
-- see; the sentinels read that, and the one that leads writes a cluster document which says what
-- every keeper and proxy has to do; proxies send clients to the master that the document names.
-- The parts meet in the document and in the infos that keepers and proxies publish, which the
-- store carries.
--
-- The files, by the part of the repository that they are about:
--   Cluster: internal/cluster. Enums, Settings, Spec, Entities and Document hold the types with
--     the source's fields (types_enums.go, types_bootstrap.go, types_replication.go,
--     types_cluster.go, types_cluster_data.go, types_runtime_entities.go, member.go), WithDefaults
--     (defaults.go) and PauseActive (pause.go); Timeline is timeline.go, and Timeline/Divergence
--     says what a different branch is. Checks, SlotChecks and Validate are validate.go and
--     update.go, with Validate/Accepted, Durations, SlotNames and Updates about them.
--   Utils: internal/utils/slices/slice.go, in Slices; Slices/Sets reads its functions as
--     operations on sets and multisets.
--   Postgres: the pure functions of internal/postgresql/utils.go on log positions and WAL file
--     names, in Wal, with Hex for the formats %X and %08X and for strconv.ParseUint(s, 16, 32);
--     Wal/Order and Wal/RoundTrip prove what they compute.
--   Sentinel: internal/runtime/sentinel. State is the memory of a sentinel between two rounds
--     (types.go), Health is health.go, Selection is selection.go and timeline.go, Leadership is
--     leadership.go with chooseAutoFailbackTarget of selection.go. A function of the model has the
--     name of the Go method in snake case. Selection/Status, Candidates, NewMasters, Total and
--     Order prove what the selection returns; Leadership/Choice, Race and Failback prove which
--     database is elected, when the election waits, and when the master moves back. Update is
--     updateCluster (cluster_update.go and cluster_init.go). Its steps are Initial, the initialising
--     phase; Decision, up to the wanted master; Promotion, for a new master and the proxies;
--     SyncStandbys, the synchronous standbys; Standbys, which are removed, added and made to follow
--     the master, with NewDbs for the databases that a round creates; Specs, what follows the
--     phases, with MemberSlots for the slots of members that left (computeOrphanMemberSlots).
--     Rounds composes them to the round. Decision/Safety, Promotion/Routing, Detours and Standbys,
--     SyncStandbys/Overlap and Sufficient, Standbys/Removal, Specs/Versions, Rounds/Master and
--     Rounds/First prove what they guarantee, with lemmas in SyncStandbys/Merge, Fill, Best, Wanted
--     and Await and in Specs/Views, Settings, Written, Settled and Orders, which is about the order
--     in which a map is ranged over; Specs/Changes is reflect.DeepEqual of two specifications.
--     Status is updateKeepersStatus (state.go), and Status/Silence what becomes of keepers that say
--     nothing. Proxies is activeProxiesInfos (state.go), and Proxies/Active which proxies it keeps.
--   Keeper: internal/runtime/keeper. Failsafe is runtime_config.go, the failsafe mode of a keeper
--     that cannot read the store; Failsafe/Reachable are the runs of polls and what holds in them.
--     Slots is the part of replication.go that drops and creates physical replication slots, with
--     the calls of PostgreSQL that fail as an argument; Slots/Drops says which slots it leaves.
--     LogicalSlots is the plan of a standby to advance its logical slots (replication.go), and
--     LogicalSlots/Targets says how far they go.
--   Proxy: internal/runtime/proxy and internal/utils/readonly/priority.go. ReadOnly is the choice
--     of the databases that read-only clients are sent to (routing.go); ReadOnly/Destinations says
--     which they may be. Check is a round of the proxy (checker_loop.go, checker.go), where what
--     the store and the listeners answer is an argument; Check/Serving says when clients are sent
--     to a master, Check/Failing what a failing round leaves. Resolving an address is a parameter.
--   Store: internal/store/kvbacked.go and etcdv3.go, the write of the document that fails if it was
--     modified since it was read; etcd is an interface with laws. Store/History says that an index
--     of etcd stands for one version.
--   Operations: internal/operations and internal/app, the commands of an operator. Rounds is the
--     loop that reads, changes and writes the document, with what other clients write meanwhile;
--     Rounds/Results, Rounds/Atomic and Rounds/Exhausted say what it may come to. Effects and Paused
--     are about what the commands make of the document, Refusals about their errors. The commands
--     that write a document given from outside (InitializeCluster, WriteClusterData,
--     PatchClusterData) are left out.
--   Base: text, maps, sorting and signed integers for all of them.
--   Examples: a small cluster, runs on it, and the theorems applied to it.
--
-- How the code is read. A method of the sentinel takes its memory and returns it changed, in the
-- monad M, whose `none` is a nil pointer that the code follows; an error result is a Result,
-- that of updateCluster an Outcome. UIDFn and RandFn of the sentinel are arguments of it. Each
-- call reads the clock once and takes the instant as an argument `now`, where the code may read it
-- again some instructions later. A Go map is an association list: its order stands for the order in
-- which the code happens to iterate, so that what holds for every list holds for every iteration
-- order; where two rounds range over one map, the order may differ between them. A string is the
-- list of its bytes. A nil slice, and a nil map of server parameters, is `none`, which
-- reflect.DeepEqual tells from an empty one; other maps have no nil. Sorting is a function that
-- returns a sorted rearrangement. A time is the number of nanoseconds since Go's zero time; a
-- duration is a signed number, and the difference of two times stops at the ends of int64. Log
-- positions, timelines and generations are natural numbers. Specifications that the code holds by
-- pointers (Spec, Status) are never nil in a document that the sentinel wrote. All loops recur on
-- their lists, so there is no fuel; the loop of a command makes at most three attempts.
--
-- Where the code ranges over a set of standbys, the set is a list without repetition in the order
-- in which its members came in.
--
-- Not modelled: log lines and metrics; the test of updateCluster that the document of the round
-- before was not changed, which holds of immutable values; the rest of the keeper and of the proxy,
-- the other calls of the store and the command line, whose code drives processes, sockets and
-- services.
pub mod Base
pub mod Cluster
pub mod Examples
pub mod Keeper
pub mod Operations
pub mod Postgres
pub mod Proxy
pub mod Sentinel
pub mod Store
pub mod Utils
