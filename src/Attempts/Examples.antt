-- ===== src/Attempts/Examples.antt =====
-- Tests of the store on one deploy, and the witnesses.
use haniel.Prelude.{◌≡◌, refl, true, false, none, some, List, [], ◌∷◌, count}
use haniel.Retry.Messages.{Mode}
use haniel.Attempts.Table.{find, update, delete, select}
use haniel.Attempts.Rows.{
  pending, rejected, deploying, Event, Terminal, Outcome, Attempt, Db, empty, Clock, transaction,
}
use haniel.Attempts.Support.{
  event, attempt_of, if_current, current_attempt, has_active_branch, retry_of, precedes, first_of,
  latest_id, is_latest, close_probes, terminalize_sibling_probes, cleanup_retry, after_colon,
  last_part, head_or_last_part, owns,
}
use haniel.Attempts.Transitions.{
  Begin, new_attempt, admits, move_event, set_attempts, approve_event, insert_attempt,
  succeed_event, close_attempt, success_unlocked, is_ready, finalize_normal_if_ready,
  fail_attempt_unlocked,
}
use haniel.Attempts.Reports.{
  terminal, begin_normal_attempt, write_result, record_result, write_settled, record_settled,
}
use haniel.Attempts.Events.{
  Change, new_event, each, create_deploy_event, Fields, update_deploy_status,
  update_deploy_status_unlocked,
}
use haniel.Attempts.Calls.{
  Call, creates, begins, results, settles, expires, perform, step, run, reports_node,
}
use haniel.Attempts.NodeReports.{
  Phase, NodeDeployReport, is_node_attempt, canonical, record_node_deploy_report, record_phase,
  insert_started,
}
use haniel.Attempts.OutOfBand.{is_taken, IsSettled, report-IsSettled}
use haniel.Attempts.Rule.{OnReturn}
use haniel.Attempts.Ownership.{Owned, runs}
use haniel.Attempts.Ownership.Ends.{Inv, run-empty-Owned}
use haniel.Attempts.Lifecycle.{status_of, Reaches}
use haniel.Attempts.Writes.{
  Write, calls, rejects_deploy, write, run_writes, AreFresh, run_writes-Owned, run_writes-Reaches,
  run_writes-closed,
}
use haniel.Attempts.Evidence.{is_justified}
use haniel.Attempts.Evidence.Sound.{run-justified}
use haniel.Attempts.Evidence.Closed.{run-keeps_closed}
use haniel.Attempts.Failure.{IsMarked, fail-IsMarked}
use haniel.Attempts.Refusal.{outcome_in, fail-refuses_begin, expires-ends, reject-orphans}

abbrev clock : Clock
clock = record {
  now_iso = "t1";
  expired = λ s. true;
  above = λ a b. false;
  is_attempt_id = λ s. false;
}

abbrev change : Change
change = record {
  deploy_id = "n:app:main:abc";
  node_id = "n";
  repo = "app";
  branch = "main";
  commits_json = "[]";
  affected_services_json = "[]";
  diff_stat = none;
  detected_at = "t0";
  target_head = none;
  expected_manifest_identity = none;
  expected_manifest_digest = none;
}

abbrev begin : Begin
begin = record {
  orchestrator_attempt_id = "a1";
  connection_generation = "g";
  source = "manual_single";
  approved_by = "dashboard";
  deadline_at = "t2";
  mode = Mode.execute;
}

abbrev opening : List (Clock × Call)
opening = (clock, creates change) ∷ (clock, begins "n:app:main:abc" begin "g") ∷ []

abbrev opened : Db
opened = run opening empty

abbrev pending_event : Event
pending_event = record {
  deploy_id = "n:app:main:abc";
  node_id = "n";
  repo = "app";
  branch = "main";
  status = pending;
  commits_json = "[]";
  affected_services_json = "[]";
  diff_stat = none;
  detected_at = "t0";
  approved_by = none;
  reject_reason = none;
  error = none;
  duration_ms = none;
  created_at = "t1";
  updated_at = "t1";
  target_head = some "abc";
  expected_manifest_identity = none;
  expected_manifest_digest = none;
}

abbrev held_event : Event
held_event = record pending_event { status = deploying; approved_by = some "dashboard" }

abbrev running : Attempt
running = new_attempt "t1" begin none pending_event

-- The deploy's own target is the last part of its id.
target_test : head_or_last_part none "n:app:main:abc" ≡ "abc"
unfolding after_colon last_part head_or_last_part
target_test = refl

-- After the begin: the attempt's row, the deploy's row, and that it is the latest of its branch.
opened_rows :
    (attempt_of opened "a1" ≡ some running)
    × (event opened "n:app:main:abc" ≡ some held_event)
    × (is_latest clock opened (some held_event) ≡ true)
unfolding run step perform transaction create_deploy_event begin_normal_attempt insert_attempt
    admits approve_event move_event new_event new_attempt event attempt_of is_latest latest_id
    first_of precedes retry_of has_active_branch find update delete select each head_or_last_part
    last_part after_colon
opened_rows = (refl, refl, refl)

abbrev reports : List (Clock × Call)
reports =
    (clock, results "n:app:main:abc" "a1" "g" "success" none (some 7))
    ∷ (clock, settles "n:app:main:abc" "a1" "g" "abc" "abc")
    ∷ []

abbrev succeeded_attempt : Attempt
succeeded_attempt = record running {
  result_status = some "success";
  duration_ms = some 7;
  settled_local_head = some "abc";
  settled_remote_head = some "abc";
  settled_at = some "t1";
  outcome = Outcome.success;
  completed_at = some "t1";
}

abbrev settled : Db
settled = run reports opened

settled_row : attempt_of settled "a1" ≡ some succeeded_attempt
unfolding run step perform transaction create_deploy_event begin_normal_attempt insert_attempt
    admits approve_event move_event new_event new_attempt event attempt_of is_latest latest_id
    first_of precedes retry_of has_active_branch find update delete select each head_or_last_part
    last_part after_colon record_result record_settled write_result write_settled set_attempts
    current_attempt if_current finalize_normal_if_ready is_ready success_unlocked close_attempt
    succeed_event cleanup_retry terminalize_sibling_probes close_probes
settled_row = refl

abbrev all_calls : List (Clock × Call)
all_calls = (clock, creates change) ∷ (clock, begins "n:app:main:abc" begin "g") ∷ reports

settled_all : attempt_of (run all_calls empty) "a1" ≡ some succeeded_attempt
unfolding run
settled_all = settled_row

abbrev fields : Fields
fields = record {
  approved_by = none;
  reject_reason = some "rejected by dashboard";
  error = none;
  duration_ms = none;
}

-- A deploy is created, rejected by the dashboard, and then begun in vain.
abbrev creation : List (Clock × Write)
creation = (clock, calls (creates change)) ∷ []

abbrev late_begin : List (Clock × Write)
late_begin = (clock, calls (begins "n:app:main:abc" begin "g")) ∷ []

abbrev creation_and : List (Clock × Write) → List (Clock × Write)
creation_and ws = (clock, calls (creates change)) ∷ ws

abbrev rejection : List (Clock × Write)
rejection = (clock, rejects_deploy "n:app:main:abc" fields) ∷ late_begin

abbrev created_and_rejected : List (Clock × Write)
created_and_rejected =
    (clock, calls (creates change)) ∷ (clock, rejects_deploy "n:app:main:abc" fields) ∷ []

rejection_fresh :
    AreFresh rejection (run_writes creation empty)
    × AreFresh created_and_rejected empty
    × AreFresh (creation_and rejection) empty
unfolding AreFresh run_writes write run step perform transaction create_deploy_event
    begin_normal_attempt insert_attempt admits approve_event move_event new_event new_attempt event
    attempt_of is_latest latest_id first_of precedes retry_of has_active_branch find update delete
    select each head_or_last_part last_part after_colon status_of cleanup_retry close_probes
    update_deploy_status update_deploy_status_unlocked
rejection_fresh = ((refl, (tt, tt)), (tt, (refl, tt)), (tt, (refl, (tt, tt))))

rejected_status :
    status_of (run_writes created_and_rejected empty).deploy_events "n:app:main:abc" ≡ some rejected
unfolding AreFresh run_writes write run step perform transaction create_deploy_event
    begin_normal_attempt insert_attempt admits approve_event move_event new_event new_attempt event
    attempt_of is_latest latest_id first_of precedes retry_of has_active_branch find update delete
    select each head_or_last_part last_part after_colon status_of cleanup_retry close_probes
    update_deploy_status update_deploy_status_unlocked
rejected_status = refl

opened-Inv : Inv opened
opened-Inv = run-empty-Owned opening

abbrev failure : Terminal
failure = terminal "deploy_result_failed" "execution" "deploy_result_failed" "exit 1"

run_writes-Owned_example :
    Owned
      (run_writes (creation_and rejection) empty).deploy_events
      (run_writes (creation_and rejection) empty).deploy_attempts
run_writes-Owned_example = run_writes-Owned (creation_and rejection) rejection_fresh.2

run_writes-Reaches_example :
    Reaches
      (status_of (run_writes creation empty).deploy_events "n:app:main:abc")
      (status_of (run_writes rejection (run_writes creation empty)).deploy_events "n:app:main:abc")
unfolding AreFresh
run_writes-Reaches_example =
    run_writes-Reaches creation rejection "n:app:main:abc" (tt, tt) rejection_fresh.0

run_writes-closed_example :
    status_of
      (run_writes late_begin (run_writes created_and_rejected empty)).deploy_events
      "n:app:main:abc"
    ≡ some rejected
unfolding AreFresh
run_writes-closed_example =
    run_writes-closed created_and_rejected late_begin "n:app:main:abc" rejected rejection_fresh.1
      (tt, tt) rejected_status refl

run-justified_example : is_justified succeeded_attempt ≡ true
run-justified_example = run-justified all_calls "a1" succeeded_attempt settled_all

run-keeps_closed_example :
    attempt_of (run ((clock, expires "a1" "t2" failure) ∷ []) settled) "a1" ≡ some succeeded_attempt
run-keeps_closed_example =
    run-keeps_closed ((clock, expires "a1" "t2" failure) ∷ []) settled "a1" succeeded_attempt
      settled_row refl

fail-IsMarked_example :
    IsMarked clock (fail_attempt_unlocked clock running failure opened).1 "n:app:main:abc" "a1"
unfolding new_attempt
fail-IsMarked_example =
    fail-IsMarked clock running held_event failure opened opened-Inv opened_rows.0 refl
      opened_rows.1 opened_rows.2

fail-refuses_begin_example :
    OnReturn
      (λ x. ⊥)
      (begin_normal_attempt clock "n:app:main:abc" begin "g"
        (fail_attempt_unlocked clock running failure opened).1)
unfolding new_attempt
fail-refuses_begin_example =
    fail-refuses_begin clock clock running held_event failure opened begin "g" opened-Inv
      opened_rows.0 refl opened_rows.1 opened_rows.2

expires-ends_example :
    (outcome_in (attempt_of (step (clock, expires "a1" "t2" failure) opened).1 "a1")
      ≡ some Outcome.failed)
    × (runs (step (clock, expires "a1" "t2" failure) opened).1.deploy_events "n:app:main:abc"
        ≡ false)
unfolding new_attempt
expires-ends_example = expires-ends clock opened running failure opened-Inv opened_rows.0 refl refl

reject-orphans_example :
    OnReturn
      (λ after.
        (status_of after.deploy_events "n:app:main:abc" ≡ some rejected)
        × (count (owns "n:app:main:abc") after.deploy_attempts ≡ 1))
      (update_deploy_status clock "n:app:main:abc" rejected fields opened)
reject-orphans_example =
    reject-orphans clock opened "n:app:main:abc" held_event fields opened-Inv opened_rows.1 refl

abbrev report : NodeDeployReport
report = record {
  phase = Phase.succeeds;
  node_attempt_id = "n1";
  journal_attempt_id = none;
  deploy_id = "n:app:main:abc";
  node_id = "n";
  repo = "app";
  branch = "main";
  target_head = "abc";
  local_head = "abc";
  trigger = "startup";
  error = none;
  duration_ms = some 9;
}

abbrev opening_and : NodeDeployReport → List (Clock × Call)
opening_and r =
    (clock, creates change)
    ∷ (clock, begins "n:app:main:abc" begin "g")
    ∷ (clock, reports_node r)
    ∷ []

-- The node has reported its start before.
abbrev started : Db
started = run (opening_and (record report { phase = Phase.started })) empty

started-Inv : Inv started
started-Inv = run-empty-Owned (opening_and (record report { phase = Phase.started }))

report_rows :
    (canonical started report ≡ some held_event)
    × (is_taken report (find (is_node_attempt "n1") started.node_deploy_attempts) ≡ true)
unfolding run step perform transaction create_deploy_event begin_normal_attempt insert_attempt
    admits approve_event move_event new_event new_attempt event attempt_of is_latest latest_id
    first_of precedes retry_of has_active_branch find update delete select each head_or_last_part
    last_part after_colon canonical record_node_deploy_report record_phase insert_started
report_rows = (refl, refl)

report-IsSettled_example : IsSettled (step (clock, reports_node report) started).1 "n:app:main:abc"
report-IsSettled_example =
    report-IsSettled clock report held_event started started-Inv report_rows.0 refl report_rows.1
      refl
