-- ===== src/Attempts/Reports.antt =====
-- The transactions of orch-server/src/haniel_orch/deploy_attempt_store.py and
-- deploy_attempt_progress_store.py on a running attempt: its normal begin, the node's reports and the
-- deadline.
use Prim.Native.String.{◌++◌ as append}
use haniel.Prelude.{
  ℕ, String, Bool, true, false, not, ◌||◌, Option, none, some, List, [], ◌∷◌, same, is_some, truthy,
  ◌==◌, if◌then◌else◌,
}
use haniel.Retry.Messages.{Mode, in_lineage}
use haniel.Retry.Hub.{check}
use haniel.Attempts.Rows.{
  is_pending, Attempt, Terminal, Outcome, Requirement, Db, Clock, value_error, permission_error,
  Reply, Body, returns, raises, ◌>>=◌,
}
use haniel.Attempts.Support.{
  is_attempt, is_running, event, attempt_of, current_attempt, has_active_branch, lineage_of,
  retry_of, is_latest,
}
use haniel.Attempts.Transitions.{
  Begin, set_attempts, insert_attempt, success_unlocked, finalize_normal_if_ready,
  fail_attempt_unlocked, is_active_row,
}

abbrev pub is_execute : Mode → Bool
is_execute Mode.execute = true
is_execute _ = false

abbrev pub is_evidence_recovery : Mode → Bool
is_evidence_recovery Mode.evidence_recovery = true
is_evidence_recovery _ = false

-- A helper's reply as the whole answer of a method.
abbrev pub answer : Reply × Db → Body Reply
answer (r, db) = returns r db

abbrev pub terminal : (kind stage reason message : String) → Terminal
terminal k s r m = record { kind = k; stage = s; reason = r; message = m }

-- `ManifestRecoveryEvidence`
pub record RecoveryEvidence : Type 0 where
  pub deploy_id : String
  pub orchestrator_attempt_id : String
  pub source_orchestrator_attempt_id : String
  pub journal_attempt_id : String
  pub connection_generation : String
  pub node_id : String
  pub repo : String
  pub branch : String
  pub target_head : String
  pub current_head : String
  pub manifest_identity : String
  pub manifest_digest : String
  pub journal_completed_at : String

abbrev pub has_source : Option Requirement → List String → String → Bool
has_source none lineage id = false
has_source (some r) lineage id =
    if id == r.source_orchestrator_attempt_id then in_lineage (some id) lineage else false

abbrev pub or_text : Option String → String → String
or_text e default = if truthy e then elim e [ none ↦ default | some t ↦ t ] else default

-- `", ".join(failed)` after the title.
abbrev pub mismatch_text : String → String → List String → String
mismatch_text title name [] = append title name
mismatch_text title name (next ∷ names) = mismatch_text (append title (append name ", ")) next names

unfoldable pub write_result : (id status : String) → Option String → Option ℕ → Db → Db
write_result k status error duration db =
    set_attempts (is_attempt k)
      (λ r. record r { result_status = some status; result_error = error; duration_ms = duration })
      db

module _ (clock : Clock) where
  unfoldable pub begin_normal_attempt :
      (deploy_id : String) (b : Begin) (current_generation : String) → Db → Body Reply
  begin_normal_attempt d b g db =
      if not (b.connection_generation == g)
      then raises (value_error "connection generation changed")
      else elim (event db d) [
        | none ↦ raises (value_error "canonical is not pending")
        | some e ↦
            if not (is_pending e.status)
            then raises (value_error "canonical is not pending")
            else if not (is_latest clock db (some e))
            then raises (value_error "canonical is stale")
            else if is_some (retry_of db d)
            then raises (value_error "retry requires preflight")
            else if has_active_branch db e
            then raises (permission_error "active_attempt_conflict")
            else insert_attempt clock e (record b { mode = Mode.execute }) none db >>= λ u after.
                returns (Reply.has_begun b.orchestrator_attempt_id) after
      ]

  -- `status` is "success" or "failed".
  unfoldable pub record_result :
      (deploy_id id generation status : String) → Option String → Option ℕ → Db → Body Reply
  record_result d k g status error duration db = elim (current_attempt db d k g) [
    | none ↦ returns Reply.ignored db
    | some a ↦
        if not (is_execute a.execution_mode)
        then answer (
            fail_attempt_unlocked clock a
              (terminal "execution_mode_mismatch" "message_validation" "result_forbidden_for_mode"
                "raw DeployResult is forbidden for evidence_recovery mode")
              db)
        else if status == "failed"
        then answer (
            fail_attempt_unlocked clock (record a { duration_ms = duration })
              (terminal "deploy_result_failed" "execution" "deploy_result_failed"
                (or_text error "deployment operation failed"))
              (write_result k status error duration db))
        else elim (attempt_of (write_result k "success" none duration db) k) [
          | none ↦ returns Reply.ignored db
          | some b ↦
              answer (finalize_normal_if_ready clock b (write_result k "success" none duration db))
        ]
  ]

  unfoldable pub write_settled : (id local_head remote_head : String) → Db → Db
  write_settled k local remote db =
      set_attempts (is_attempt k)
        (λ r. record r {
          settled_local_head = some local;
          settled_remote_head = some remote;
          settled_at = some clock.now_iso;
        })
        db

  unfoldable pub record_settled :
      (deploy_id id generation local_head remote_head : String) → Db → Body Reply
  record_settled d k g local remote db = elim (current_attempt db d k g) [
    | none ↦ returns Reply.ignored db
    | some a ↦ elim (attempt_of (write_settled k local remote db) k) [
      | none ↦ returns Reply.ignored db
      | some b ↦
          if not (is_execute b.execution_mode)
          then returns Reply.recorded (write_settled k local remote db)
          else if not (local == remote) || not (local == b.target_head)
          then answer (
              fail_attempt_unlocked clock b
                (terminal "settled_head_mismatch" "reconciliation" "settled_head_mismatch" (
                  append "settled HEAD mismatch: local=" (
                    append local
                      (append " remote=" (append remote (append " target=" b.target_head))))))
                (write_settled k local remote db))
          else answer (finalize_normal_if_ready clock b (write_settled k local remote db))
    ]
  ]

  -- The names of the checks that fail, as in `_validate_recovery_evidence`.
  unfoldable pub evidence_mismatches : Db → Attempt → RecoveryEvidence → List String
  evidence_mismatches db a v =
      check
        (has_source (retry_of db a.deploy_id) (lineage_of clock db a.deploy_id)
          v.source_orchestrator_attempt_id)
        "source lineage"
        (check (same (some v.journal_attempt_id) a.journal_attempt_id) "journal identity" (
          check (if v.target_head == a.target_head then a.target_head == v.current_head else false)
            "target"
            (check (same (some v.manifest_identity) a.manifest_identity) "manifest identity" (
              check (same (some v.manifest_digest) a.manifest_digest) "manifest digest" (
                check (same (some v.journal_completed_at) a.journal_completed_at)
                  "journal completion"
                  (check (v.node_id == a.node_id) "node" (
                    check (v.repo == a.repo) "repo" (
                      check (v.branch == a.branch) "branch" (
                        check (is_latest clock db (event db a.deploy_id)) "latest canonical"
                          [])))))))))

  unfoldable pub record_recovery_evidence : RecoveryEvidence → Db → Body Reply
  record_recovery_evidence v db =
      elim (current_attempt db v.deploy_id v.orchestrator_attempt_id v.connection_generation) [
        | none ↦ returns Reply.ignored db
        | some a ↦
            if not (is_evidence_recovery a.execution_mode)
            then answer (
                fail_attempt_unlocked clock a
                  (terminal "execution_mode_mismatch" "message_validation"
                    "evidence_forbidden_for_mode"
                    "ManifestRecoveryEvidence is forbidden for execute mode")
                  db)
            else elim (evidence_mismatches db a v) [
              | [] ↦ answer (success_unlocked clock a Outcome.evidence_recovered_success db)
              | name ∷ names ↦ answer (
                  fail_attempt_unlocked clock a
                    (terminal "recovery_evidence_invalid" "evidence_validation"
                      "recovery_evidence_invalid"
                      (mismatch_text "recovery evidence mismatch: " name names))
                    db)
            ]
      ]

  unfoldable pub fail_active_attempt : (id : String) → Terminal → Db → Body Reply
  fail_active_attempt k t db = elim (attempt_of db k) [
    | none ↦ returns Reply.ignored db
    | some a ↦
        if not (is_running a)
        then returns Reply.ignored db
        else answer (fail_attempt_unlocked clock a t db)
  ]

  unfoldable pub record_node_terminal :
      (deploy_id id generation : String) → Terminal → Db → Body Reply
  record_node_terminal d k g t db = elim (current_attempt db d k g) [
    | none ↦ returns Reply.ignored db
    | some a ↦ answer (fail_attempt_unlocked clock a t db)
  ]

  unfoldable pub fail_attempt_if_deadline_due :
      (id expected_deadline_at : String) → Terminal → Db → Body Reply
  fail_attempt_if_deadline_due k expected t db = elim (attempt_of db k) [
    | none ↦ returns Reply.ignored db
    | some a ↦
        if not (is_running a)
        then returns Reply.ignored db
        else if not (a.deadline_at == expected) || not (clock.expired a.deadline_at)
        then returns (Reply.deadline_changed a.deadline_at) db
        else answer (fail_attempt_unlocked clock a t db)
  ]

-- The first declared budget stays.
abbrev pub declared_budget : Option ℕ → Option ℕ → Option ℕ
declared_budget none offered = offered
declared_budget (some n) offered = some n

unfoldable pub renewed_to : (deadline_at : String) → Option ℕ → Attempt → Attempt
renewed_to deadline declared r = record r { deadline_at = deadline; expected_budget_sec = declared }

unfoldable pub renew_active_attempt :
    (deploy_id id generation : String) → Option ℕ → (deadline_at : String) → Db → Body Reply
renew_active_attempt d k g budget deadline db = elim (current_attempt db d k g) [
  | none ↦ returns Reply.ignored db
  | some a ↦
      let declared = declared_budget a.expected_budget_sec budget in
      returns (Reply.renewed deadline declared)
        (set_attempts (is_active_row k) (renewed_to deadline declared) db)
]
