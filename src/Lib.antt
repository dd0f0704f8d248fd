-- ===== src/Lib.antt =====
-- birdman: a fleet of game servers, as a verification library of its two Go programs.
--
-- birdman-master (master/) keeps the fleet's state in a database, matches players and starts
-- servers; birdman-agent (agent/) runs on each node, starts game servers and reports. An agent holds
-- one stream to the master: commands come down and are executed once each, reports go up through an
-- outbox that outlives the stream. The files follow that division.
--
-- Base: what the other files share. Base/Tests: Boolean tests on numbers; Base/Lists: lists over the
-- native numbers; Base/Int: integers; Base/Keys: equality of keys as an interface, and Go maps as
-- association lists; Base/Maps: predicates and sums over the values of such a map; Base/Texts: text as
-- code points with the functions of `strings` and `strconv` that the code uses; Base/Words: text put
-- together from words and decimal numbers.
--
-- Agent (agent/internal): Agent/Ports is ports/pool.go, with every method of `Pool`.
-- Agent/Lifecycle is lifecycle/state.go: the states of a server, `Machine` and the watcher of the
-- ready grace. Agent/Link/Outbox is link/outbox.go with the drain goroutine of `session` in
-- link/client.go; Agent/Link/CmdCache is the ring of known command ids in link/client.go.
-- Agent/ImageGc is imagegc/imagegc.go, the collector of unused images; it sorts with the `sort_slice`
-- of Matchmaker/Groups. Agent/Uds is uds/server.go, the socket between the agent and one server.
-- Agent/Daemon is daemon/manager.go: Server is `Server` with its snapshot and its reports, Supervise is
-- the goroutines of one server and the handlers of the commands about one, Manager is `Manager` with
-- `Start` and the runs of all of them, Restoring is the restart of an agent, Images is the image
-- commands, Scope is the pair of a server's owner and the path of its log. Agent/Daemon/Registries is
-- registries.go. The daemon uses the pool of Agent/Ports, the machine of Agent/Lifecycle and the socket
-- of Agent/Uds as they stand; what it reports goes into the outbox. Agent/Logs is logrot/stream.go,
-- the stream of a server's log, with the files as lists of bytes.
--
-- AgentLink (master/internal/agentlink): AgentLink/Hub is hub.go, the queue of commands for one node,
-- with the goroutine of service.go that sends them; AgentLink/Fleet is its views over all nodes;
-- AgentLink/LogRouter is logrouter.go. The hub is the other end of Agent/Link: the hub sends
-- again what was not acknowledged, and the agent's cache keeps it from being executed again.
--
-- Matchmaker (master/internal/matchmaker): Matchmaker/Compat is compat.go: versions, the table of
-- overrides and the buckets of the queue. Matchmaker/Groups is `pack` of party.go, which forms a
-- group; Matchmaker/Tick is `bestGroup` of tick.go and what it calls, which picks the region and the
-- group. Matchmaker/Queue is the maps of `Matchmaker` in matchmaker.go: `finalize`, what `Submit` does
-- to them, and the first pass of `RunOnce`; Matchmaker/Merge is `merge` of durable.go, by which the
-- database's tickets enter these maps; Matchmaker/Regions is `normalizeRegions` and `policy` of
-- party.go; Matchmaker/Settings is `Config`; Matchmaker/Snapshot is
-- what the API gets of a ticket. A tick calls `best_group`, which calls `pack` for every
-- region; the tickets of one call share a bucket of Compat.
--
-- Reconcile (master/internal/reconcile): Reconcile/ImageCleanup is imagecleanup.go, which removes
-- retired images from the nodes and marks a version as cleaned from the agents' reports;
-- Reconcile/CrashLoop is the pause of a crashing version in reconciler.go.
--
-- Deploy (master/internal/deploy): manager.go. Deploy is the state, the store's answers and the
-- steps of a goroutine: the start of a deploy, its activation and the chain of automatic deploys that
-- follows each end; Deploy/Jobs is the commands, the agents' pull reports, the timeouts, the sweep and
-- the resumption after a restart.
--
-- How code becomes definitions: a method that holds its mutex to the end is one step on a record, and
-- a sequence of calls is a list of them. The deploy manager and the socket release the mutex midway:
-- there each part up to a release or an answer of the store is a step, what is left of a method waits
-- in the state (`tasks`, `sends`, `replay`), and the steps come in any order.
-- An error is a value (Option, or a data type of the errors). Numbers are natural or integer; the
-- int32 sum in `medianRTT` keeps its wrap-around, the sums of seats are far from the bounds of Go's
-- 64-bit int. A float64 score is twice its value as an integer, which is exact there. Times count
-- from one epoch. `sort.Slice`, of Go's library, is an insertion sort; ticket ids are unique, so the
-- order that `pack` sorts by leaves nothing open. Two images of one time are in some order.
-- The goroutine of a server in the daemon is a state machine: `phase` says what it waits for, and each
-- part between two waits is one step; a step of a server in another phase does nothing. `gone`
-- remembers the servers that were deleted and `log` the effects; no code reads them. A use of the disk
-- is an exact fraction in place of a float64. Host names are ASCII. What the store answers to the deploy
-- manager is a `World`, which a step takes with it. A message that an overflow drops from the outbox
-- stays in its `dropped`, in place of a log line.
--
-- Bounds and fuel: loops are recursion on the list that they run over. The loop over a counter in
-- `Acquire` runs over the number of ports of the range, which is all that it visits. A deploy that ends
-- starts the next one: here the chain is a goroutine of its own, and a run takes as many steps as its
-- list of events has; the theorems hold for every list.
--
-- Not modelled: the SQL of master/internal/store, the transactions of durable.go, the checks of a
-- submitted party, the passes of the reconcile loop, the HTTP API, metrics and statistics, backup, TLS
-- and secrets, the container runtime and cgroups, the rotation and the sweep of logs, and the generated protocol
-- code; the panel, the SDK and the deployment files are no Go. Of the daemon, the tails of logs, the
-- upgrade and the samples of metrics; of the socket, the JSON of a frame and the call of its handler.
-- What the modelled code reads of these is an argument: the database and the live sessions are `World`
-- in Reconcile/ImageCleanup and in Deploy, the container runtime and the disk are `Runtime` and `Disk`
-- in Agent/ImageGc and the answers that a step of Agent/Daemon takes.
pub mod Base
pub mod Agent
pub mod AgentLink
pub mod Deploy
pub mod Matchmaker
pub mod Reconcile
