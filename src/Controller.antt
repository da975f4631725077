-- ===== src/Controller.antt =====
-- The reconciler's components: internal/controller.
pub mod RateLimiter
pub mod Conditions
pub mod State
pub mod Snapshots
pub mod Health
pub mod Recovery
pub mod SyncState
pub mod ValidatorGuard
pub mod Storage
pub mod Preflight
pub mod Finalization
pub mod AnalyticsStep
pub mod Retry
pub mod Pod
pub mod Gpu
pub mod ChainArgs
pub mod Containers
pub mod Workload
pub mod StatusUpdate
pub mod Advisory
pub mod Cost
pub mod Probe
pub mod Reconcile
