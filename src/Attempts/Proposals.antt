-- ===== src/Attempts/Proposals.antt =====
-- `create_probe`, `record_proposal_and_begin` and `terminalize_preflight` of
-- orch-server/src/haniel_orch/deploy_attempt_store.py, with `_proposal_stale_reason` of its support,
-- and deploy_attempt_generation_store.py.
use haniel.Prelude.{
  String, Bool, true, false, not, ◌||◌, ◌&&◌, Option, none, some, List, [], ◌∷◌, ◌++◌, same,
  is_some, ltb, count, ◌==◌, if◌then◌else◌,
}
use haniel.Retry.Messages.{Mode, Reason, Probe, Proposal}
use haniel.Retry.Hub.{recovery_mismatches, execute_mismatches}
use haniel.Attempts.Table.{update}
use haniel.Attempts.Rows.{
  is_pending, Event, ProbeStatus, ProbeRow, Requirement, Terminal, Db, Clock, value_error,
  permission_error, integrity_error, Reply, Body, returns, raises,
}
use haniel.Attempts.Support.{
  is_probe, event, lineage_of, retry_of, is_latest, terminalize_probe, head_or_last_part,
}
use haniel.Attempts.Reports.{mismatch_text, or_text}

-- The value of a `DeployPlanReason`; the last is the planner's own, of a revalidation, which it reports
-- as a failure and sends in no proposal.
abbrev pub reason_text : Reason → String
reason_text Reason.legacy_retry = "legacy_retry"
reason_text Reason.manifest_read_failed = "manifest_read_failed"
reason_text Reason.manifest_mismatch = "manifest_mismatch"
reason_text Reason.normal_pull = "normal_pull"
reason_text Reason.journal_missing = "journal_missing"
reason_text Reason.journal_target_mismatch = "journal_target_mismatch"
reason_text Reason.journal_scope_mismatch = "journal_scope_mismatch"
reason_text Reason.journal_manifest_mismatch = "journal_manifest_mismatch"
reason_text Reason.journal_link_missing = "journal_link_missing"
reason_text Reason.retry_lineage_mismatch = "retry_lineage_mismatch"
reason_text Reason.journal_completion_missing = "journal_completion_missing"
reason_text Reason.durable_local_success = "durable_local_success"
reason_text Reason.manifest_retry = "manifest_retry"
reason_text Reason.unsafe_journal = "unsafe_journal"
reason_text Reason.planner_missing = "planner_missing"
reason_text Reason.planner_error = "planner_error"
reason_text Reason.approval_revalidation_failed = "approval_revalidation_failed"

-- The arguments of `create_probe`.
pub record NewProbe : Type 0 where
  pub probe_id : String
  pub deploy_id : String
  pub connection_generation : String
  pub deadline_at : String
  pub manual_retry : Bool
  pub requested_orchestrator_attempt_id : Option String

abbrev source_id : Option Requirement → Option String
source_id none = none
source_id (some r) = some r.source_orchestrator_attempt_id

abbrev equal_lists : List String → List String → Bool
equal_lists [] [] = true
equal_lists (x ∷ xs) (y ∷ ys) = (x == y) && equal_lists xs ys
equal_lists _ _ = false

unfoldable pub new_probe :
    (now : String) → NewProbe → Event → Option Requirement → List String → ProbeRow
new_probe now n e retry lineage = record {
  probe = record {
    probe_id = n.probe_id;
    connection_generation = n.connection_generation;
    deploy_id = n.deploy_id;
    node_id = e.node_id;
    repo = e.repo;
    branch = e.branch;
    target_head = head_or_last_part e.target_head n.deploy_id;
    source_orchestrator_attempt_id = source_id retry;
    retry_lineage = if is_some retry then lineage else [];
    expected_manifest_identity = e.expected_manifest_identity;
    expected_manifest_digest = e.expected_manifest_digest;
  };
  requested_orchestrator_attempt_id = n.requested_orchestrator_attempt_id;
  status = ProbeStatus.active;
  mode = none;
  proposal_fingerprint = none;
  ended = none;
  created_at = now;
  deadline_at = n.deadline_at;
  completed_at = none;
}

abbrev pub snapshot_changed : Probe → Proposal → Bool
snapshot_changed probe p =
    not (p.deploy_id == probe.deploy_id)
    || (not (p.node_id == probe.node_id)
        || (not (p.repo == probe.repo)
            || (not (p.branch == probe.branch) || not (p.target_head == probe.target_head))))

unfoldable pub lineage_changed : Clock → Db → Probe → Bool
lineage_changed clock db probe = elim (retry_of db probe.deploy_id) [
  | none ↦ true
  | some r ↦
      not (same (some r.source_orchestrator_attempt_id) probe.source_orchestrator_attempt_id)
      || not (equal_lists (lineage_of clock db probe.deploy_id) probe.retry_lineage)
]

-- Why a proposal of a mode begins no attempt: the reason and the error.
unfoldable pub refusal : Probe → Proposal → Option (String × String)
refusal probe p = elim p.plan.mode [
  | Mode.fail_closed ↦
      some (reason_text p.plan.reason, or_text p.plan.error (reason_text p.plan.reason))
  | Mode.evidence_recovery ↦ elim (recovery_mismatches probe p) [
    | [] ↦ none
    | n ∷ ns ↦ some ("invalid_recovery_evidence", mismatch_text "recovery proposal mismatch: " n ns)
  ]
  | Mode.execute ↦ elim (execute_mismatches probe p) [
    | [] ↦ none
    | n ∷ ns ↦ some ("unsafe_execute_plan", mismatch_text "execute proposal mismatch: " n ns)
  ]
]

unfoldable pub set_probe : String → (ProbeRow → ProbeRow) → Db → Db
set_probe k f db = record db { deploy_plan_probes = update (is_probe k) f db.deploy_plan_probes }

module _ (clock : Clock) where
  unfoldable pub create_probe : NewProbe → Db → Body Reply
  create_probe n db = elim (event db n.deploy_id) [
    | none ↦ raises (value_error "canonical is not pending")
    | some e ↦
        let retry = retry_of db n.deploy_id in
        if not (is_pending e.status)
        then raises (value_error "canonical is not pending")
        else if not (is_latest clock db (some e))
        then raises (value_error "canonical is stale")
        else if n.manual_retry && not (is_some retry)
        then raises (value_error "manual retry requires retry marker")
        else if not n.manual_retry && is_some retry
        then raises (permission_error "retry_requires_manual_approval")
        else if ltb 0 (count (is_probe n.probe_id) db.deploy_plan_probes)
        then raises integrity_error
        else returns (Reply.has_begun n.probe_id) (record db {
          deploy_plan_probes =
              db.deploy_plan_probes
              ++ new_probe clock.now_iso n e retry (lineage_of clock db n.deploy_id) ∷ [];
        })
  ]

  unfoldable pub not_latest_pending : Db → String → Bool
  not_latest_pending db d = elim (event db d) [
    | none ↦ true
    | some e ↦ not (is_pending e.status) || not (is_latest clock db (some e))
  ]

  -- The reason and the error.
  unfoldable pub proposal_stale_reason : Db → ProbeRow → Proposal → Option (String × String)
  proposal_stale_reason db row p =
      let probe = row.probe in
      if clock.expired row.deadline_at
      then some ("probe_deadline_expired", "probe deadline expired")
      else if not (p.connection_generation == probe.connection_generation)
      then some ("connection_generation_changed", "connection generation changed")
      else if snapshot_changed probe p
      then some ("proposal_snapshot_changed", "proposal snapshot changed")
      else if not_latest_pending db probe.deploy_id
      then some ("canonical_not_latest_pending", "canonical is no longer latest pending")
      else if not (is_some probe.source_orchestrator_attempt_id)
      then (if is_some (retry_of db probe.deploy_id)
          then some ("retry_requires_manual_approval", "retry now requires manual approval")
          else none)
      else if lineage_changed clock db probe
      then some ("retry_lineage_changed", "retry lineage changed after probe creation")
      else none

  -- A probe that ends without an attempt.
  unfoldable pub end_preflight : String → Terminal → Db → Body Reply
  end_preflight k t db = returns (Reply.terminated t.kind) (terminalize_probe clock k t db).1
