-- ===== src/Workers.antt =====
-- app/workers.py: the handlers that the consumer workers run, and which worker reads which topics.
pub mod Metrics
pub mod Anomalies
pub mod Drifts
pub mod Alerts
pub mod Executions
pub mod Topology
pub mod Heartbeat
