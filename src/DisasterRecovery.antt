-- ===== src/DisasterRecovery.antt =====
-- Disaster recovery: the operator's backups and the tao-dr tool.
pub mod Backup
pub mod Restore
pub mod RoundTrip
pub mod Failover
pub mod Status
