-- ===== src/Compute/Orchestrator.antt =====
-- `ComputeOrchestrator` of aws_light/compute/orchestrator.py.
pub mod World
pub mod Names
pub mod Environment
pub mod Replicas
pub mod Placement
pub mod Observe
pub mod Reconcile
pub mod Teardown
pub mod Databases
pub mod Pass
pub mod Rollout
pub mod Frame
pub mod Steps
pub mod Routes
pub mod Refresh
pub mod Scaling
pub mod Settling
pub mod Convergence
pub mod Removal
pub mod Turns
pub mod ServiceTurns
pub mod DatabaseFrame
pub mod Whole
pub mod Tokens
pub mod Batches
pub mod Capacity
pub mod Dispatch
pub mod Counting
