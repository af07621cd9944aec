-- ===== src/Deployment.antt =====
-- The deployment of one release: src/haniel/core/deployment.py with deployment_verification.py and
-- deployment_quiescence.py beside it.
pub mod Machine
pub mod Retrying
pub mod Quiescence
pub mod Coordinator
pub mod Execute
pub mod Recover
pub mod Triple
pub mod Stored
pub mod Outcome
pub mod Retried
pub mod Phases
pub mod Deploys
pub mod Ends
pub mod Terminal
pub mod Ending
pub mod Calm
pub mod Kept
pub mod Undone
pub mod Preserved
pub mod Receipts
pub mod Bounds
mod Examples
