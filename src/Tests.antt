-- ===== src/Tests.antt =====
-- The theorems at concrete inputs.
mod Samples
mod Access
mod Routing
mod Requests
mod Stores
mod Nodes
mod Scaling
mod Manifests
mod Orchestration
mod Workloads
mod Services
mod Pass
