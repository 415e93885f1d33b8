-- ===== src/Lib.antt =====
-- A verification library of Thalamus, a research and simulation system: planned research cycles
-- over a knowledge graph (packages/thalamus), and the sweep that proposes, reviews and resolves
-- suggestions and runs simulated swarms (packages/sweep), whose histories are searched for
-- episodes (packages/temporal).
--
-- A research plan is a graph of cortices. It is validated before it runs, cut into levels, and run
-- level by level; each node is told what the nodes it depends on have found. What the research
-- finds leads to suggestions; a suggestion that a reviewer accepts is resolved by the handlers of
-- its actions, and the result is written back to its row.
--
-- - Prelude: tests on numbers and texts, and lists measured by native numbers, with their lemmas.
-- - Dag: packages/thalamus/src/services/dag-validation.ts. `validateDag` is `validate_dag`, its
--   loops `index_nodes`, `check_nodes` and `visit`; an exception is an `err` with the error's code
--   and details. The search has fuel for its depth, one more than the number of nodes, which is
--   proved to be enough: no path of the search visits a node twice.
-- - Executor: packages/thalamus/src/services/thalamus-executor.service.ts. `topologicalLevels` is
--   `topological_levels`, with fuel for as many levels as there are nodes, which is proved to be
--   enough since a level takes a node; `execute` runs them. Whether a cortex answers within
--   its time limit, and what, and the looks at the abort signal are parameters; Executor/Timeout
--   has the size of the limit, `computeTimeout`.
-- - Resolution: packages/sweep/src/services/sweep-resolution.service.ts, and the write of a result
--   in packages/sweep/src/repositories/sweep.repository.ts. `resolve` gives the result and the
--   calls of other components in their order. Handlers, promotion, store and JSON are parameters;
--   a handler is a function of the action, the row and the selections, so that two equal actions
--   of a payload answer alike.
-- - Swarm: packages/sweep/src/sim/swarm.service.ts with swarm-aggregate-gate.ts beside it, and the
--   store's claimPendingFishForSwarm and abortSwarm in apps/console-api/src/repositories. Each
--   operation of the service is one function; whether the queue takes a job is a parameter.
--   Swarm/Reports has `onFishComplete` a second time, as `report_step` from one `await` to the
--   next, and the steps by which reports, launch, workers, pause, resume and abort interleave. A
--   process that dies while it holds the gate is left out, and so is the gate's expiry.
--   Swarm/Worker is packages/sweep/src/jobs/workers/swarm-fish.worker.ts, which plays the turns of
--   a fish and reports it.
-- - Simulation: packages/sweep/src/sim/sim-orchestrator.service.ts with turn-runner-sequential.ts
--   and turn-runner-dag.ts beside it, and packages/sweep/src/jobs/workers/sim-turn.worker.ts. A
--   run has its rows and the jobs of its queue; `work` is the worker on the job that has waited
--   longest. Agents' answers are a parameter, and whether the queue takes a job, of which the
--   theorems assume that it takes one with a new id and ignores one with an id it has had.
-- - Cycle: packages/thalamus/src/services/cycle-loop.service.ts and stop-criteria.service.ts. The
--   body of the `while` loop is `after_execution`, a function for each of its early ends; the loop
--   has fuel for one more test than it may have iterations, which is proved to be enough. The
--   executor, the reflexion, the planner, the costs and the operations on texts are parameters.
--   Cycle/History is what the counters are held against: the rounds that were executed and the gaps.
--   Cycle/Targets has the target hints of `buildCycleVerification`, whose reason codes are left out.
-- - Episode: packages/temporal/src/negative-evidence.ts, the match of a sequence of signatures in
--   the events of a history. The sort and the signatures of events are parameters. Episode/Windows
--   is episode-windows.ts beside it, the sort of events and the events before an outcome, and
--   Episode/Miner is temporal-episode-miner.ts: `extendEpisode` is `extend_episode` with its loop
--   `extend_from`, which is structural on the events that are left, so that no fuel is needed. The
--   set of keys seen is read off the episodes.
-- - Suggestion: packages/sweep/src/repositories/sweep.repository.ts. The state is that of a Redis,
--   an interface in Suggestion/Store that says what each command does to fields, indexes, the
--   pending set, the feedback and the counter, and Suggestion/Memory is a Redis that does so; a
--   pipeline is a list of commands. The operations are one step each. Suggestion/Listing has `list`
--   from the choice of its index on; the scan has fuel for its batches, and more than the ids of
--   the index is proved to be enough, as it is for the loop of `getStats` in Suggestion/Stats.
--   Names of keys are data; the base64 of their parts makes them different in the code. Rows do
--   not expire.
--
-- Not modelled: logs and clocks, the texts of exceptions, the SQL and Redis servers, language
-- models, calls of the store that throw, and the parts of the system that have no file here.
pub mod Prelude
pub mod Dag
pub mod Executor
pub mod Resolution
pub mod Simulation
pub mod Suggestion
pub mod Swarm
pub mod Cycle
pub mod Episode
