-- ===== src/Retry.antt =====
-- The retry protocol between a node and the orchestrator: the probe that the orchestrator sends, the
-- plan that the node proposes, and the orchestrator's check of that proposal.
pub mod Messages
pub mod Planner
pub mod Hub
pub mod Durable
pub mod Plans
pub mod Evidence
pub mod Agreement
mod Examples
