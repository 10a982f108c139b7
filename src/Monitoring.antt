-- ===== src/Monitoring.antt =====
-- app/modules/monitoring: the queries, the health checks and the detectors.
pub mod Queries
pub mod Api
pub mod Floats
pub mod Anomaly
pub mod Drift
pub mod Health
pub mod Summary
