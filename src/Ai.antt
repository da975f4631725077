-- ===== src/Ai.antt =====
-- The AI advisor: internal/ai.
pub mod Limiter
pub mod Report
pub mod Advisor
