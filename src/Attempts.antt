-- ===== src/Attempts.antt =====
-- The store of deploy attempts of orch-server/src/haniel_orch/deploy_attempt_store.py, with the event
-- store that it is part of.
pub mod Table
pub mod Rows
pub mod Support
pub mod Transitions
pub mod Reports
pub mod Proposals
pub mod Begins
pub mod Events
pub mod NodeReports
pub mod Ownership
pub mod Calls
pub mod Rule
pub mod Lifecycle
pub mod Evidence
pub mod Failure
pub mod Refusal
pub mod OutOfBand
pub mod Writes
mod Examples
