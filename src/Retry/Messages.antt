-- ===== src/Retry/Messages.antt =====
-- The probe and the proposal: `RetryPlan.proposal` of src/haniel/core/deploy_retry_planner.py and
-- `DeployPlanProposal` of orch-server/src/haniel_orch/protocol.py.
use haniel.Prelude.{String, Bool, false, Option, none, some, List, contains}
use haniel.Journal.Record.{State}

pub data Mode : Type 0 where
  execute evidence_recovery fail_closed : Mode

-- `DeployPlanReason`
pub data Reason : Type 0 where
  legacy_retry manifest_read_failed manifest_mismatch normal_pull journal_missing : Reason
  journal_target_mismatch journal_scope_mismatch journal_manifest_mismatch : Reason
  journal_link_missing retry_lineage_mismatch journal_completion_missing : Reason
  durable_local_success manifest_retry unsafe_journal planner_missing planner_error : Reason
  approval_revalidation_failed : Reason

-- What the node reads of a probe, and the orchestrator's row of it holds.
pub record Probe : Type 0 where
  pub probe_id : String
  pub connection_generation : String
  pub deploy_id : String
  pub node_id : String
  pub repo : String
  pub branch : String
  pub target_head : String
  pub source_orchestrator_attempt_id : Option String
  pub retry_lineage : List String
  pub expected_manifest_identity : Option String
  pub expected_manifest_digest : Option String

-- `source in lineage`
abbrev pub in_lineage : Option String → List String → Bool
in_lineage none lineage = false
in_lineage (some id) lineage = contains id lineage

-- The dict `evidence` of a plan.
pub record Evidence : Type 0 where
  pub current_head : String
  pub journal_status : Option State
  pub journal_attempt_id : Option String
  pub linked_orchestrator_attempt_id : Option String
  pub journal_target_head : Option String
  pub original_previous_head : Option String
  pub manifest_identity : Option String
  pub manifest_digest : Option String
  pub journal_completed_at : Option String

pub record RetryPlan : Type 0 where
  pub mode : Mode
  pub evidence : Evidence
  pub reason : Reason
  pub error : Option String
  pub fingerprint : String

pub record Proposal : Type 0 where
  pub plan : RetryPlan
  pub open plan use *
  pub probe_id : String
  pub connection_generation : String
  pub deploy_id : String
  pub node_id : String
  pub repo : String
  pub branch : String
  pub target_head : String

-- `proposal`: the identity of the probe comes back with the plan.
unfoldable pub proposal : RetryPlan → Probe → Proposal
proposal plan probe = record {
  plan = plan;
  probe_id = probe.probe_id;
  connection_generation = probe.connection_generation;
  deploy_id = probe.deploy_id;
  node_id = probe.node_id;
  repo = probe.repo;
  branch = probe.branch;
  target_head = probe.target_head;
}
