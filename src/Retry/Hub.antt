-- ===== src/Retry/Hub.antt =====
-- `_validate_recovery_proposal` and `_validate_execute_proposal` of
-- orch-server/src/haniel_orch/deploy_attempt_store_support.py: the names of the checks that fail. An
-- empty list is the result `None`.
use haniel.Prelude.{
  String, Bool, true, false, not, ◌&&◌, Option, some, List, [], ◌∷◌, same, truthy, is_some, ◌==◌,
  if◌then◌else◌,
}
use haniel.Journal.Record.{State, success, failed}
use haniel.Retry.Messages.{Probe, Proposal, in_lineage}

abbrev pub check : Bool → String → List String → List String
check holds name rest = if holds then rest else name ∷ rest

abbrev pub reports_success : Option State → Bool
reports_success (some success) = true
reports_success _ = false

abbrev pub reports_failed : Option State → Bool
reports_failed (some failed) = true
reports_failed _ = false

unfoldable pub recovery_mismatches : Probe → Proposal → List String
recovery_mismatches probe p = check (reports_success p.evidence.journal_status) "journal success" (
    check (truthy p.evidence.journal_attempt_id) "journal_attempt_id" (
      check (same p.evidence.linked_orchestrator_attempt_id probe.source_orchestrator_attempt_id)
        "linked source"
        (check (in_lineage probe.source_orchestrator_attempt_id probe.retry_lineage)
          "source lineage"
          (check
            (p.evidence.current_head == probe.target_head
              && same (some probe.target_head) p.evidence.journal_target_head)
            "target"
            (check (same p.evidence.manifest_identity probe.expected_manifest_identity)
              "manifest identity"
              (check (same p.evidence.manifest_digest probe.expected_manifest_digest)
                "manifest digest"
                (check (truthy p.evidence.journal_completed_at) "completion timestamp" [])))))))

unfoldable pub execute_checks : Probe → Proposal → List String
execute_checks probe p = check (reports_failed p.evidence.journal_status) "failed journal" (
    check (truthy p.evidence.journal_attempt_id) "journal_attempt_id" (
      check (same p.evidence.journal_target_head (some probe.target_head)) "journal target" (
        check (truthy p.evidence.original_previous_head) "original previous_head" (
          check
            (same p.evidence.linked_orchestrator_attempt_id probe.source_orchestrator_attempt_id)
            "linked source"
            (check (in_lineage probe.source_orchestrator_attempt_id probe.retry_lineage)
              "source lineage"
              (check (same p.evidence.manifest_identity probe.expected_manifest_identity)
                "manifest identity"
                (check (same p.evidence.manifest_digest probe.expected_manifest_digest)
                  "manifest digest"
                  (check (truthy p.evidence.journal_completed_at) "completion timestamp" []))))))))

unfoldable pub execute_mismatches : Probe → Proposal → List String
execute_mismatches probe p =
    if not (is_some probe.expected_manifest_identity)
    then []
    else if not (p.evidence.current_head == probe.target_head)
    then []
    else execute_checks probe p
