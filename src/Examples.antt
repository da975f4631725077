-- ===== src/Examples.antt =====
-- Concrete runs of the operator: each property that has hypotheses is applied to data that meets them.
mod Nodes
mod Breaker
mod Limiter
mod Webhook
mod Snapshots
mod Sync
mod Recovery
mod Guard
mod Storage
mod Writer
mod Secrets
mod Deletion
mod Analytics
mod Reports
mod Workload
mod Reconcile
mod Disaster
mod Detector
mod Advisor
mod Status
