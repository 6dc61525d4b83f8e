-- ===== src/Agent.antt =====
-- internal/agent: the long-lived agent's parts.
pub mod Clock
pub mod Cache
pub mod Health
pub mod Spool
pub mod Delivery
pub mod Triggers
pub mod Tick
pub mod Install
pub mod PathHealth
pub mod Checks
pub mod Report
pub mod Round
