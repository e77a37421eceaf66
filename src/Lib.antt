-- ===== src/Lib.antt =====
-- The core rules of Cooker's Go backend: who may run a job, how a run's status moves, when a
-- gate opens, in what order the nodes of a pipeline run, how its output becomes log lines, how a
-- canary rollout ends, who may do what and open a WebSocket, which features a license unlocks, and
-- what the cache of answers holds.
--
-- JobQueue models backend/internal/jobqueue: the record and the in-memory store (jobqueue.go,
--   memory.go), with child modules for the worker (worker.go, registry.go) and the retry delay
--   (backoff.go). `m.jobs` is an association list whose order is that of a `range` loop, which
--   Go leaves open. Each store method holds `m.mu` and is one step: `enqueue` Enqueue,
--   `dequeue` Dequeue, `complete` Complete, `fail` Fail, `reschedule` Reschedule,
--   `delete_older_than` DeleteOlderThan, `stats` Stats, `get` Get. A worker's round is `work`
--   (Pool.run), which dequeues, dispatches through the registry and settles (`handle`).
-- RunState models backend/internal/runstate: `Builder`, `allow`, `events`, `build` (fsm.go), the
--   two tables (run.go, stage.go) and `transition_with` for TransitionRun and TransitionStage
--   (transition.go).
-- Approvals models backend/internal/model/stageapproval.go, the in-memory store
--   backend/internal/store/memory/stageapproval.go and the service
--   backend/internal/service/stageapproval.go, which calls the store. Approvals/Clicks.antt has the
--   sequences of calls of approvers.
-- Auth models backend/internal/auth/permission.go and backend/internal/auth/rbac.go.
-- Entitlements models backend/internal/entitlements/entitlements.go and
--   backend/internal/model/license.go.
-- Idempotency models backend/internal/idempotency/idempotency.go: the bounded cache of answers,
--   its eviction loop (`evict_until`) and its sweep (`gc`).
-- Dag models backend/pkg/dagrunner: `topological_sort` (TopologicalSort) with its two maps (`link_all`)
--   and its rounds (`walk`), `validate` (Validate), and in Dag/Runner.antt the runner (`run` for Run,
--   `run_levels` for its loop, `emit_status`, `fail`). A goroutine is two events, its start and its
--   end; a level is any interleaving of those of its nodes.
-- LogLines models the writer of backend/internal/service/logbroadcast.go: `write` (Write), `flush`,
--   `emit`, over the entries of backend/internal/logstore/logstore.go.
-- LogStore models backend/internal/logstore/memory.go: `append` (Append) with its loops `drop_oldest`
--   and `evict_streams`, and `read` (Read), over the entries of LogLines.
-- Canary models rollouts: the rows and their in-memory store
--   (backend/internal/store/memory/appcanary.go), in Canary/Config.antt the configuration
--   (backend/internal/model/canary.go) and splitReplicas
--   (backend/internal/deploy/deployer/weighted.go), and the service
--   backend/internal/service/canary.go: Promote, Abort, Status and their helpers in
--   Canary/Service.antt, Start in Canary/Start.antt, the sweep in Canary/Sweep.antt. The service calls
--   the store; what it sends to the cluster and to the notifier is kept in `World`.
-- Tickets models backend/internal/server/wsticket.go: the store (`issue`, `consume`, `gc`), the mint
--   `issue_ws_ticket` (issueWSTicket) and the gate `ws_ticket_gate` (wsTicketGate), with the paths of
--   the routes in Tickets/Paths.antt. It takes the caller's claims from Auth.
-- RunDiff models diffVariables of backend/internal/service/run_diff.go.
-- Prelude has what the parts share: Boolean tests, lists, texts, integers, and Go's maps (Dict).
--
-- Bounds. Instants and counts are natural numbers, `int` parameters that may be negative are
-- integers, and the retry delay keeps the wrap-around of int64. Clock readings, fresh ids and
-- random numbers are arguments. The loop of a worker runs on a number of rounds: each round that
-- claims a job uses up one of the attempts left in the store, so one round more than those
-- attempts is enough. The eviction loop of the cache gets one round more than there are entries.
-- The rounds of the sort are as many as the nodes: each round visits a node that no earlier one
-- did. The loop of a write gets one round more than there are bytes, and each takes a newline. The
-- time of a log line is a function of its number; the seconds of a health window do not wrap; the
-- channel of the runner's updates is never full.
--
-- Parameters. The transition library looplab/fsm is not in the repository: it is the record
-- `Machine` with its behaviour on declared and undeclared edges. Handlers, the backoff policy, the
-- quoting of a kind and the number of bytes of a text are functions. So are the order in which a map's
-- keys are met in the sort, of which only the counts are used, the task of a node and the
-- interleaving of a level, and for rollouts the builder, the cluster, the probes, the apps' store and
-- the printing of a percentage.
--
-- Not modelled: the pool of worker goroutines and its poll interval, cancellation, log lines and
-- HTTP bodies; the computation of an app's prefix; calls of one approval service method that
-- interleave with another's; token verification; the PostgreSQL stores; handlers, builders,
-- deployers and other drivers of external programs; the scheduler and the promotion service; the
-- JSON frames of log lines; calls of the canary service that interleave, but for a row that
-- changed after it was read; the manifests of a rollout.
pub mod Approvals
pub mod Auth
pub mod Canary
pub mod Dag
pub mod Entitlements
pub mod Idempotency
pub mod JobQueue
pub mod LogLines
pub mod LogStore
pub mod Prelude
pub mod RunDiff
pub mod RunState
pub mod Tickets
