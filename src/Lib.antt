-- ===== src/Lib.antt =====
-- status-pipe watches a queue of tickets that agents work on. The files under .status-pipe/ of a repository are its
-- protocol: tickets, acks of the operator, and the orchestrator file. Three parts work on them, and the editor's host
-- composes the three; this library models them and proves what makes each correct.
--
-- The planner (src/planner/) runs one pass at a time: it passes the trust gate, discovers candidates at the forge and
-- among the epic specs, consumes the inbox of acks, reconciles tickets with the supervisor and the forge, dispatches
-- work into worktrees, collects worktrees, and writes the orchestrator file with the plan or a parking. The supervisor
-- (src/supervisor/) runs the launch entries of a repository, of which the planner is one. The queue model (src/queue/)
-- turns the parsed files, the enrichment of the forge and the states of the processes into the cards that the view
-- shows.
--
-- Protocol.antt and Protocol/: src/protocol/types.ts as records and data types, ackId.ts in AckId, worker.ts in Worker.
-- Json and Parse are parse.ts: an object is its list of members, each reader a function of it, and JSON.parse,
-- JSON.stringify and String are the record Engine. Store is the directory: readTicket, writeTicket and their like of
-- src/planner/protocolIo.ts, and ackWriter.ts, on the state of one file or a map from paths to texts.
-- Forge.antt: the data of src/forge/types.ts; Forge/Budget is src/forge/budget.ts. Forge/Http is http.ts: the network
-- is the record Web, whose answer may depend on all requests before, and a call is a function of the session; Http/Pool
-- is its class RequestPool. Forge/Clients has graphql.ts, github.ts, githubInventory.ts and bitbucket.ts on this
-- network. Forge/Mapping is githubMapping.ts and bitbucketMapping.ts. Forge/Enricher is enricher.ts: refreshRepo is cut
-- at its awaits, so a refresh begins, its pull requests arrive and it ends or fails as separate events, between which
-- others may come; Enricher/Repos is the class.
-- Discovery.antt is src/discovery/repoScan.ts, Discovery/GitRepo is gitRepo.ts.
-- Host/Loading is src/host/protocolStore.ts with the removal of controllerHelpers.ts, Host/RecentAcks is recentAcks.ts.
-- Host/Controller.antt: the class StatusPipeController of controller.ts. Its repositories stand in a heap, since a
-- reload outlives the entry of its object. Controller/Reload is the reload cut at its awaits, Flows installing with
-- dialogs: each dialog is an await, several may be open at once, and the microtasks between the last answer and the
-- installing count as one instant. Operations are the methods that the view and the commands call, Pushing the state
-- that is shown; HostEvent, host_step and host_run of Events are what may happen, in any order. Supervisor/TrustGate
-- is trustGate.ts and TrustGate/Approvals launchApproval.ts, through which the entries pass; its approve_agents is
-- the call without interference, and the field granted, which the source does not have, keeps what was ever allowed.
-- Host/Messages is messageRouter.ts, Host/Notifications is notifications.ts, Host/PlannerSpawn is plannerSpawn.ts.
-- Release is src/utils/releaseBump.ts.
-- Output/Stream is src/output/claudeStream.ts; Stream/Chunks is about its pushChunk.
-- Queue.antt: queueInputs.ts and displayTypes.ts. Queue/Lanes is lane.ts (assignLane is assign_lane), Queue/AckState is
-- ackState.ts, Queue/PrRows is prRows.ts, Queue/Cards and Queue/Model are queueModel.ts (buildDisplayState is
-- build_display_state).
-- Supervisor/Runner.antt: the class SupervisedRunner of src/supervisor/supervisedRunner.ts. A Runner is its fields (in
-- Runner/State), each method a function of a Runner at one instant, and Event what the host may do to it; `step` is one
-- event, `run` a sequence of them in any order. Env is the host at that instant: the clock, parking, and how the
-- spawner and `kill` answer, a report of the exit from inside the call included.
-- Supervisor/Templates is launchTemplate.ts, Supervisor/Workers the class WorkerRunner of workerRunner.ts, Workers/Pool
-- what agentSupervisor.ts does with workers: the objects stand in a heap, since one outlives its entry in the pool.
-- Supervisor/Fleet is the class AgentSupervisor: RepoSupervision is the state of a repository, Fleet/Operations has the
-- public methods over all repositories, and FleetEvent, fleet_step and fleet_run what may happen to it in any order.
-- Planner.antt and Planner/: types.ts and the candidates; Effects is ports.ts as effects on a World, the protocol
-- directory and the worktrees, where any call may throw and changes nothing if it does; Effects/Directory has three
-- of these calls on the texts of the directory; Trust is trust.ts, Inventory is inventory.ts, Acks is acks.ts,
-- Schedule and Parking are schedule.ts, Lifecycle is reconcile.ts, Pass is plan.ts.
-- Base.antt and Base/: lists, the stable sort, maps in the order of insertion, texts, comparators (byCodepoint of
-- src/utils/ordering.ts is by_codepoint of Base/Order), and Platform, what JavaScript supplies. Tests/ runs the
-- theorems.
--
-- Numbers are natural numbers: an instant is in milliseconds since the epoch and not negative, a subtraction that the
-- source clamps at 0 stops at 0, and the sort key that the source negates is an integer. All of the values are far
-- below 2 ^ 53. A launch may launch again from inside the spawner's call; `launch` gives two rounds of fuel to that
-- recursion. All other loops but one are structural.
-- The walk over the pages of Bitbucket runs on fuel, and Walk says when it ran out; fuel for each page is enough
-- (Clients/Bitbucket/Paging). Clients/Bitbucket/Caching is about the conditional reads.
--
-- Not modelled: the rendering of the view, the fake forge of the tests, the editor's watchers and output channels,
-- the choice of a forge with its credentials, and the adapters to git and the file system behind the planner's ports
-- other than the reads and writes of the protocol files, which are input and output; the network, the hash, the
-- parsers of dates and of JSON, Node's path functions and the forge stand as parameters. A number in a file is a
-- natural number, or a literal that overflows to an infinity. Another writer of the directory during a pass, and the
-- activity that the runners attach to their snapshots, are left out.
pub mod Base
pub mod Discovery
pub mod Protocol
pub mod Output
pub mod Forge
pub mod Queue
pub mod Supervisor
pub mod Planner
pub mod Host
pub mod Release
pub mod Tests
