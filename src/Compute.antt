-- ===== src/Compute.antt =====
-- Placement and actuation (aws_light/compute).
pub mod Scheduler
pub mod NodeManager
pub mod Orchestrator
