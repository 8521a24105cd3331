-- ===== src/Deployments.antt =====
-- backend/app/production/durable.py and backend/app/recovery/durable.py: the deployment of a run's
-- admitted index, which survives that its worker stops.
-- A deployment is a list of steps, each of which makes at most one durable write or one call of the
-- target, so that a worker that dies or loses its lease stops between two of them. The lock of the
-- target is held through an attempt. `W` is the state of the target.
pub mod Records
pub mod Durable
pub mod Invariant
pub mod Steps
pub mod Recorded
pub mod Effects
pub mod Complete
pub mod Service
pub mod Landing
pub mod Composed
mod Examples
mod ServiceExamples
