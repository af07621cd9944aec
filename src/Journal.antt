-- ===== src/Journal.antt =====
-- src/haniel/core/deployment_state.py: the deployment journal of each repository, one JSON file to
-- a repository. The journal's dict is a record; a key that is absent, or holds None, is `none`. Files
-- hold what the store wrote and writes succeed. The clock's text and a fresh uuid are arguments.
pub mod Record
pub mod Path
pub mod Begin
pub mod Handover
pub mod Updates
pub mod Sound
pub mod Steps
pub mod Invariant
pub mod Retention
pub mod Identity
pub mod Examples
