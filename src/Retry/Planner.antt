-- ===== src/Retry/Planner.antt =====
-- `DeployRetryPlanner` of src/haniel/core/deploy_retry_planner.py. Git's answers and the digest of a
-- plan are those of other programs: the head, the digest of the manifest at a commit, and SHA-256.
use haniel.Prelude.{
  String, Bool, true, false, not, ◌&&◌, ◌||◌, Option, none, some, same, truthy, is_some, ◌==◌,
  if◌then◌else◌,
}
use haniel.Errors.{message_of}
use haniel.Errors.Result.{Result, ok, raise}
use haniel.Journal.Record.{State, success, failed, verification_failed, Journal}
use haniel.Journal.Path.{Store, read}
use haniel.Retry.Messages.{
  Mode, execute, evidence_recovery, fail_closed, Reason, legacy_retry, manifest_read_failed,
  manifest_mismatch, normal_pull, journal_missing, journal_target_mismatch, journal_scope_mismatch,
  journal_manifest_mismatch, journal_link_missing, retry_lineage_mismatch,
  journal_completion_missing, durable_local_success, manifest_retry, unsafe_journal,
  approval_revalidation_failed, Probe, in_lineage, Evidence, RetryPlan,
}

-- The planner's fields, `get_head` of the checkout, `sha256_file_at_commit` of it, and the digest of
-- the JSON text of a plan.
pub record Planner : Type 0 where
  pub manifest_path : Option String
  pub deployed_head : Option String
  pub git_head : String
  pub digest_at : (commit path : String) → Result String
  pub fingerprint_of : Mode → Evidence → Reason → String

abbrev pub is_success_state : State → Bool
is_success_state success = true
is_success_state _ = false

-- `state in {"failed", "verification_failed"}`
abbrev pub is_failure_state : State → Bool
is_failure_state failed = true
is_failure_state verification_failed = true
is_failure_state _ = false

abbrev pub from_read : String → Result String → Option String × Option String × Option String
from_read path (ok digest) = (some path, some digest, none)
from_read path (raise e) = (some path, none, some (message_of e))

-- `_manifest_snapshot`: identity, digest and error.
unfoldable pub manifest_snapshot :
    Planner → (target : String) → Option String × Option String × Option String
manifest_snapshot p target = elim p.manifest_path [
  | none ↦ (none, none, none)
  | some path ↦ from_read path (p.digest_at target path)
]

unfoldable pub evidence_of :
    (current_head : String) → Option Journal → (identity digest : Option String) → Evidence
evidence_of current_head none identity digest = record {
  current_head = current_head;
  journal_status = none;
  journal_attempt_id = none;
  linked_orchestrator_attempt_id = none;
  journal_target_head = none;
  original_previous_head = none;
  manifest_identity = identity;
  manifest_digest = digest;
  journal_completed_at = none;
}
evidence_of current_head (some j) identity digest = record {
  current_head = current_head;
  journal_status = some j.state;
  journal_attempt_id = some j.journal_attempt_id;
  linked_orchestrator_attempt_id = j.orchestrator_attempt_id;
  journal_target_head = some j.target_head;
  original_previous_head = some j.previous_head;
  manifest_identity = identity;
  manifest_digest = digest;
  journal_completed_at = j.completed_at;
}

-- `deployed_head or get_head(repo_path)`
abbrev pub current_head : Planner → String
current_head p = elim p.deployed_head [
  | none ↦ p.git_head
  | some h ↦ (if h == "" then p.git_head else h)
]

unfoldable pub build : Planner → Mode → Evidence → Reason → Option String → RetryPlan
build p mode evidence reason error = record {
  mode = mode;
  evidence = evidence;
  reason = reason;
  error = error;
  fingerprint = p.fingerprint_of mode evidence reason;
}

-- The part of `plan` for a journal of this target whose state is "success".
unfoldable pub plan_success : Planner → Probe → Evidence → Journal → RetryPlan
plan_success p probe evidence j =
    if not (truthy j.orchestrator_attempt_id)
    then build p fail_closed evidence journal_link_missing
        (some "success journal lacks orchestrator_attempt_id")
    else if not (same j.orchestrator_attempt_id probe.source_orchestrator_attempt_id)
        || not (in_lineage probe.source_orchestrator_attempt_id probe.retry_lineage)
    then build p fail_closed evidence retry_lineage_mismatch
        (some "success journal is outside retry lineage")
    else if not (truthy j.completed_at)
    then build p fail_closed evidence journal_completion_missing
        (some "success journal lacks completion timestamp")
    else build p evidence_recovery evidence durable_local_success none

-- Whether the journal is that of a failed attempt which may be repeated.
abbrev pub may_retry : Probe → Journal → Bool
may_retry probe j =
    is_failure_state j.state
    && (truthy (some j.previous_head)
        && (truthy j.completed_at
            && (same j.orchestrator_attempt_id probe.source_orchestrator_attempt_id
                && in_lineage j.orchestrator_attempt_id probe.retry_lineage)))

-- The end of `plan`, by the state of the journal.
unfoldable pub plan_state : Planner → Probe → Evidence → Journal → RetryPlan
plan_state p probe evidence j =
    if is_success_state j.state
    then plan_success p probe evidence j
    else if may_retry probe j
    then build p execute evidence manifest_retry none
    else build p fail_closed evidence unsafe_journal (
        some
          "manifest retry requires a success journal or terminal failure journal with original previous_head")

-- The part of `plan` for a checkout that is at the target.
unfoldable pub plan_journal :
    Planner → Probe → Evidence → (identity digest : Option String) → Option Journal → RetryPlan
plan_journal p probe evidence identity digest none =
    build p fail_closed evidence journal_missing (some "manifest retry journal is missing")
plan_journal p probe evidence identity digest (some j) =
    if not (j.target_head == probe.target_head)
    then build p fail_closed evidence journal_target_mismatch
        (some "journal target differs from approval target")
    else if not (
        j.repo == probe.repo
        && (same j.node_id (some probe.node_id) && same j.branch (some probe.branch)))
    then build p fail_closed evidence journal_scope_mismatch
        (some "journal node, repo, or branch differs from the canonical probe")
    else if not (same j.manifest_identity identity) || not (same j.manifest_digest digest)
    then build p fail_closed evidence journal_manifest_mismatch
        (some "journal manifest identity or digest differs from the target manifest")
    else plan_state p probe evidence j

-- `plan` behind its reads: the manifest's snapshot and the journal.
unfoldable pub plan_with :
    Planner → Probe → (identity digest error : Option String) → Option Journal → RetryPlan
plan_with p probe identity digest error journal =
    let evidence = evidence_of (current_head p) journal identity digest in
    if not (is_some p.manifest_path)
    then build p execute evidence legacy_retry none
    else if truthy error
    then build p fail_closed evidence manifest_read_failed error
    else if not (same identity probe.expected_manifest_identity)
        || not (same digest probe.expected_manifest_digest)
    then build p fail_closed evidence manifest_mismatch
        (some "target manifest identity or digest differs from canonical snapshot")
    else if not (current_head p == probe.target_head)
    then build p execute evidence normal_pull none
    else plan_journal p probe evidence identity digest journal

unfoldable pub plan : Planner → Store → Probe → RetryPlan
plan p s probe =
    let (identity, digest, error) = manifest_snapshot p probe.target_head in
    plan_with p probe identity digest error (read s probe.repo)

-- `current.mode != approval.get("execution_mode")`, where an approval names `execute` or
-- `evidence_recovery`, or nothing.
abbrev pub same_mode : Mode → Option Mode → Bool
same_mode execute (some execute) = true
same_mode evidence_recovery (some evidence_recovery) = true
same_mode fail_closed (some fail_closed) = true
same_mode _ _ = false

-- What `revalidate` reads of an approval.
pub record Approval : Type 0 where
  pub preflight_fingerprint : Option String
  pub execution_mode : Option Mode

unfoldable pub revalidate : Planner → Store → Probe → Approval → RetryPlan
revalidate p s probe approval =
    let current = plan p s probe in
    if not (same (some current.fingerprint) approval.preflight_fingerprint)
    then build p fail_closed current.evidence approval_revalidation_failed
        (some "HEAD, journal, target, or manifest changed after preflight")
    else if not (same_mode current.mode approval.execution_mode)
    then build p fail_closed current.evidence approval_revalidation_failed
        (some "preflight execution mode changed before execution")
    else current
