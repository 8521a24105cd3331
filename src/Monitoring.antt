-- ===== src/Monitoring.antt =====
-- backend/app/monitoring/post_deployment.py: the windows after a deployment are compared with those
-- before it, and the monitor itself decides whether the change is rolled back.
pub mod Records
pub mod Decision
pub mod Monitor
pub mod Windows
pub mod Decisions
pub mod Outcomes
pub mod Durable
pub mod Once
mod Examples
