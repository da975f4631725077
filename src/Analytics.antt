-- ===== src/Analytics.antt =====
-- The analytics plane: internal/analytics.
pub mod CircuitBreaker
pub mod Rows
pub mod BatchWriter
pub mod Detector
