-- ===== src/Tests.antt =====
-- Concrete runs of the theorems.
mod Fixtures
mod Registry
mod Projection
mod Messaging
mod Orchestration
mod Alerting
mod Http
mod Monitoring
mod Runtime
