-- ===== src/Lib.antt =====
-- TaoNode Guardian, a Kubernetes operator for nodes of a blockchain: a verification library for its Go
-- code.
--
-- The program. A reconciler (internal/controller/taonode_controller.go) is called for one TaoNode at a
-- time. It creates what the node needs, guards against a second validator, probes the chain, evaluates
-- the sync state, grows the volume when the disk fills up, and stores the status. The evaluation may
-- start a recovery, under a rate limiter that all nodes share, and a recovery may take and prune
-- snapshots. Analytics goes to ClickHouse behind a circuit breaker, a detector
-- scores anomalies from it, and an AI advisor is asked about them. An admission webhook checks every
-- TaoNode before it is stored. A runner backs up all TaoNodes to an object store, and the tao-dr tool
-- restores them or has Terraform build a new cluster.
--
-- The files.
-- Base: shared tests, lists, signed integers with Go's wrap-around (Base/Int), maps (Base/Dict), errors
-- and results (Base/Errors), and formatted texts (Base/Format), which keep the format and the arguments.
-- Api/Spec and Api/Status: the types of api/v1alpha1/taonode_types.go. Api/Webhook: `validate` and its
-- parts, of api/v1alpha1/taonode_webhook.go; Policy states what it admits, Updates what sequences of
-- updates can do. Api/Quantities: the interface to resource quantities.
-- Analytics/CircuitBreaker: internal/analytics/circuit_breaker.go, `Allow`, `RecordSuccess`,
-- `RecordFailure`, `IsOpen` and `State`; Guarded is about any client that keeps to its protocol, since the
-- operator's own reports no failure (Controller/AnalyticsStep/Blind).
-- Analytics/Detector: internal/analytics/anomaly_detector.go, over floats and the rows that its queries
-- scan; Arrivals is about the order in which they answer.
-- Analytics/Rows: the rows of internal/analytics/types.go and the flush functions of flush.go.
-- Analytics/BatchWriter: the `Push*` methods of batch_writer.go and `flushLoop` of flush.go, for one
-- table, as a step relation: any goroutine may push between two steps of the loop.
-- Controller/RateLimiter: internal/controller/rate_limiter.go, `TryAcquire`, `Release` and
-- `ActiveCount`, with one file for each property.
-- Controller/Conditions: `setCondition` of internal/controller/helpers.go; the calls of apimachinery's
-- `meta` package that it makes are an interface, with their documented behaviour in Transitions.
-- Controller/State: the state that a reconciliation passes along: the node in memory, the limiter, the
-- cluster, and the events and metrics that go out.
-- Controller/Snapshots: internal/controller/snapshot_manager.go. Controller/Recovery:
-- `executeRecovery` and the strategies. Controller/Health and Controller/SyncState:
-- `evaluateSyncState`; Branches has what each branch changes, Steps relates the node before and after,
-- and the other children rest on it.
-- Controller/ValidatorGuard: internal/controller/validator_guard.go. Controller/Storage:
-- internal/controller/storage_manager.go.
-- Controller/Preflight: `validateNamespacePermissions` and `validateHotkeySecret`, and
-- Controller/Finalization: `handleFinalization` and `deleteLeaseIfExists`, all of
-- internal/controller/taonode_controller.go. SHA-256 is an argument of the hotkey check.
-- Controller/AnalyticsStep: `reconcileWithAnalytics` with the rows that it pushes, of the same file; what
-- the anomaly detector answers is an input, which Blind takes from the detector.
-- Controller/Pod: the Kubernetes objects that the operator builds. Controller/ChainArgs and
-- Controller/Containers: internal/controller/statefulset_builder.go and the containers of
-- workload_manager.go. Controller/Workload: `desiredStatefulSetForNode`; its child Ensure has
-- `ensureNodeWorkload` and Services the other objects of workload_manager.go. Controller/Gpu:
-- internal/controller/gpu_advisor.go. Controller/Cost: internal/controller/finops_estimator.go.
-- Controller/Probe: internal/controller/chain_probe.go.
-- Controller/StatusUpdate: `updateStatusAndRequeue` and `updateAIAdvisoryStatus`; Controller/Advisory:
-- `maybeRequestAIAdvisory` with its goroutine, and `sendNotifications`; Controller/Reconcile:
-- `Reconcile`, which composes all of these in the order of its steps. All are of
-- internal/controller/taonode_controller.go. Controller/Retry: what a retry on conflict may do.
-- DisasterRecovery/Backup: internal/controller/dr_runner.go. DisasterRecovery/Restore and
-- DisasterRecovery/Failover: tools/tao-dr/internal/restore/restore.go and
-- tools/tao-dr/internal/failover/failover.go, with RoundTrip from a backup to its restore.
-- Ai/Limiter, Ai/Report and Ai/Advisor: internal/ai/advisor.go, with the call of the model of
-- internal/ai/ollama_client.go; Advisor/Throttle is about runs of incidents.
-- DisasterRecovery/Status: tools/tao-dr/internal/status/status.go.
-- Examples: concrete data for the properties.
--
-- Conventions. A function that changes a TaoNode takes a `Run` and gives the next one, beside a result
-- or an error. Times are nanoseconds, and a call reads the clock once, save where
-- it is given several readings. The cluster is a type `W` of its
-- own, and the Kubernetes client a record of functions on it: what a call answers and how it changes
-- the cluster is not fixed, unless a theorem says so by a hypothesis. An int32 or int64 that is computed
-- is wrapped. Anomaly scores are whole numbers of the least float32, so that comparisons are exact. Every
-- loop of the modelled code is a recursion on a list or a step relation, that of the detector also on the
-- number of results that it awaits; no definition has fuel.
--
-- Not modelled. Log lines, the measured durations, and the arguments of error messages. The text of
-- the anomaly detector's queries, the prompts of the AI advisor and its notifier, the fleet
-- correlator, the finops calculator, and the backup command of the tao-dr tool are left out. The
-- ClickHouse client and the set-up in cmd/main.go are input and output.
-- What the API server and the client of Kubernetes, client-go's retry, `CreateOrUpdate` and `DeepEqual`
-- do is an interface. A call of Reconcile is one sequence of calls on the cluster: what others do to it
-- between these is left out, save what a theorem says of the advisor's goroutine. Calls of a circuit breaker
-- that overlap are not covered: each method is one step. `SyncState.History` leaves out what else a
-- reconcile does to the node and takes the store of the status to succeed.
pub mod Base
pub mod Api
pub mod Analytics
pub mod Ai
pub mod Controller
pub mod DisasterRecovery
pub mod Examples
