-- ===== src/Retry/Examples.antt =====
-- Plans of src/haniel/core/deploy_retry_planner.py at concrete inputs.
use mathlib.Core.Option.{some-injective}
use haniel.Prelude.{◌≡◌, ◌≢◌, ◌↔◌, refl, none, some, [], ◌∷◌, true, truthy}
use haniel.Prelude.Dict
use haniel.Errors.Result.{ok}
use haniel.Journal.Record.{State, success, failed, verification_failed, Journal}
use haniel.Journal.Path.{Store, read, safe_name, is_safe}
use haniel.Journal.Begin.{new_attempt}
use haniel.Journal.Examples.{plain_text, intent}
use haniel.Retry.Messages.{execute, evidence_recovery, fail_closed, Probe, proposal}
use haniel.Retry.Planner.{
  Planner, Approval, plan, plan_with, plan_journal, plan_state, plan_success, build,
  manifest_snapshot, evidence_of, revalidate,
}
use haniel.Retry.Plans.{Speaks, Recovers, plan-recovery_iff, revalidate_approved}
use haniel.Retry.Hub.{recovery_mismatches, execute_mismatches}
use haniel.Retry.Agreement.{recovery_agrees, execute_agrees, verification_retry_rejected}

abbrev planner : Planner
planner = record {
  manifest_path = some "release.json";
  deployed_head = none;
  git_head = "bbb";
  digest_at = λ commit path. ok "d1";
  fingerprint_of = λ mode evidence reason. "f1";
}

abbrev probe : Probe
probe = record {
  probe_id = "p1";
  connection_generation = "g1";
  deploy_id = "x1";
  node_id = "n1";
  repo = "app";
  branch = "main";
  target_head = "bbb";
  source_orchestrator_attempt_id = some "o1";
  retry_lineage = "o1" ∷ [];
  expected_manifest_identity = some "release.json";
  expected_manifest_digest = some "d1";
}

-- The journal of an attempt that has ended.
abbrev journal_at : State → Journal
journal_at state = record {
  current = record (new_attempt plain_text "t1" "j1" "app" intent) {
    state = state;
    completed_at = some "t9";
  };
  previous_attempts = [];
}

abbrev store_at : State → Store
store_at state = record { journals = ("app", journal_at state) ∷ []; receipts = [] }

planner-Speaks : Speaks planner
planner-Speaks commit path e h = cc

read_store : (state : State) → read (store_at state) "app" ≡ some (journal_at state)
unfolding read safe_name is_safe Dict.get
read_store state = refl

attempt_named :
    (state : State) (j : Journal) → read (store_at state) probe.repo ≡ some j → j ≡ journal_at state
attempt_named state j h = some-injective j (journal_at state) (cc (h, read_store state))

named : (state : State) → truthy (some (journal_at state).journal_attempt_id) ≡ true
unfolding new_attempt
named state = refl

plan-recovery_iff_example :
    ((plan planner (store_at success) probe).mode ≡ evidence_recovery)
    ↔ Recovers planner (store_at success) probe
plan-recovery_iff_example = plan-recovery_iff planner (store_at success) probe planner-Speaks

recovers : (plan planner (store_at success) probe).mode ≡ evidence_recovery
unfolding plan plan_with plan_journal plan_state plan_success build evidence_of manifest_snapshot
    read Dict.get safe_name is_safe new_attempt
recovers = refl

executes : (plan planner (store_at failed) probe).mode ≡ execute
unfolding plan plan_with plan_journal plan_state plan_success build evidence_of manifest_snapshot
    read Dict.get safe_name is_safe new_attempt
executes = refl

verification_executes : (plan planner (store_at verification_failed) probe).mode ≡ execute
unfolding plan plan_with plan_journal plan_state plan_success build evidence_of manifest_snapshot
    read Dict.get safe_name is_safe new_attempt
verification_executes = refl

at_target :
    (plan planner (store_at verification_failed) probe).evidence.current_head ≡ probe.target_head
unfolding plan plan_with plan_journal plan_state plan_success build evidence_of manifest_snapshot
    read Dict.get safe_name is_safe new_attempt
at_target = refl

abbrev approval : Approval
approval = record { preflight_fingerprint = some "f1"; execution_mode = some evidence_recovery }

passes : (revalidate planner (store_at success) probe approval).mode ≢ fail_closed
unfolding revalidate plan plan_with plan_journal plan_state plan_success build evidence_of
    manifest_snapshot read Dict.get safe_name is_safe new_attempt
passes h = cc

revalidate_approved_example :
    (revalidate planner (store_at success) probe approval ≡ plan planner (store_at success) probe)
    × (approval.preflight_fingerprint ≡ some (plan planner (store_at success) probe).fingerprint)
    × (approval.execution_mode ≡ some (plan planner (store_at success) probe).mode)
revalidate_approved_example = revalidate_approved planner (store_at success) probe approval passes

success_named :
    (j : Journal)
    → read (store_at success) probe.repo ≡ some j
    → truthy (some j.journal_attempt_id) ≡ true
success_named j h = rw (attempt_named success j h) (named success)

failed_named :
    (j : Journal)
    → read (store_at failed) probe.repo ≡ some j
    → (truthy (some j.journal_attempt_id) ≡ true) × (j.state ≢ verification_failed)
failed_named j h = rw (attempt_named failed j h) (named failed, λ e. cc)

recovery_agrees_example :
    recovery_mismatches probe (proposal (plan planner (store_at success) probe) probe) ≡ []
recovery_agrees_example =
    recovery_agrees planner (store_at success) probe planner-Speaks success_named recovers

execute_agrees_example :
    execute_mismatches probe (proposal (plan planner (store_at failed) probe) probe) ≡ []
execute_agrees_example =
    execute_agrees planner (store_at failed) probe "release.json" planner-Speaks refl failed_named
      executes

verification_retry_rejected_example :
    execute_mismatches probe (proposal (plan planner (store_at verification_failed) probe) probe)
    ≡ "failed journal" ∷ []
verification_retry_rejected_example =
    verification_retry_rejected planner (store_at verification_failed) probe "release.json"
      (journal_at verification_failed) planner-Speaks refl (read_store verification_failed) refl
      (named verification_failed) at_target verification_executes
