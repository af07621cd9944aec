-- ===== src/Attempts/Transitions.antt =====
-- `_insert_attempt`, `_success_unlocked`, `_finalize_normal_if_ready` and `_fail_attempt_unlocked` of
-- orch-server/src/haniel_orch/deploy_attempt_store_support.py: the attempt's beginning and its ends.
use haniel.Prelude.{
  String, Bool, true, false, not, ◌&&◌, Option, none, some, List, [], ◌∷◌, ◌++◌, same, is_some, eqb,
  ltb, count, ◌==◌, if◌then◌else◌,
}
use haniel.Retry.Messages.{Mode, Proposal}
use haniel.Attempts.Table.{update, both}
use haniel.Attempts.Rows.{
  Status, pending, rejected, deploying, succeeded, is_pending, is_deploying, Event, Terminal,
  ProbeRow, Outcome, Attempt, Requirement, SourceAttempt, Db, Clock, runtime_error, integrity_error,
  Reply, Body, returns, raises,
}
use haniel.Attempts.Support.{
  has_id, is_attempt, is_running, owns, holds_branch, event, requires, retry_of, is_latest,
  cleanup_retry, terminalize_sibling_probes, head_or_last_part,
}

-- The values that `_insert_attempt` takes beside the event; the probe and its proposal come together.
pub record Begin : Type 0 where
  pub orchestrator_attempt_id : String
  pub connection_generation : String
  pub source : String
  pub approved_by : String
  pub deadline_at : String
  pub mode : Mode

abbrev pub of_probe {ℓ} :
    {A : Type ℓ} → (ProbeRow → Proposal → Option A) → Option (ProbeRow × Proposal) → Option A
of_probe f none = none
of_probe f (some (probe, proposal)) = f probe proposal

-- The columns of the new row.
unfoldable pub new_attempt : (now : String) → Begin → Option (ProbeRow × Proposal) → Event → Attempt
new_attempt now b from e = record {
  orchestrator_attempt_id = b.orchestrator_attempt_id;
  deploy_id = e.deploy_id;
  node_id = e.node_id;
  repo = e.repo;
  branch = e.branch;
  target_head = head_or_last_part e.target_head e.deploy_id;
  source = b.source;
  execution_mode = b.mode;
  approved_by = b.approved_by;
  probe_id = of_probe (λ probe p. some probe.probe.probe_id) from;
  connection_generation = b.connection_generation;
  proposal_fingerprint = of_probe (λ probe p. some p.fingerprint) from;
  source_orchestrator_attempt_id =
      of_probe (λ probe p. probe.probe.source_orchestrator_attempt_id) from;
  journal_attempt_id = of_probe (λ probe p. p.evidence.journal_attempt_id) from;
  manifest_identity = of_probe (λ probe p. p.evidence.manifest_identity) from;
  manifest_digest = of_probe (λ probe p. p.evidence.manifest_digest) from;
  journal_target_head = of_probe (λ probe p. p.evidence.journal_target_head) from;
  journal_completed_at = of_probe (λ probe p. p.evidence.journal_completed_at) from;
  original_previous_head = of_probe (λ probe p. p.evidence.original_previous_head) from;
  result_status = none;
  result_error = none;
  duration_ms = none;
  settled_local_head = none;
  settled_remote_head = none;
  settled_at = none;
  outcome = Outcome.active;
  ended = none;
  commits_json = e.commits_json;
  affected_services_json = e.affected_services_json;
  diff_stat = e.diff_stat;
  detected_at = e.detected_at;
  started_at = now;
  expected_budget_sec = none;
  deadline_at = b.deadline_at;
  completed_at = none;
}

-- The primary key, and the two unique indexes on the active rows.
unfoldable pub admits : List Attempt → Attempt → Bool
admits rows a =
    eqb (count (is_attempt a.orchestrator_attempt_id) rows) 0
    && (eqb (count (owns a.deploy_id) rows) 0
        && eqb (count (holds_branch a.node_id a.repo a.branch) rows) 0)

-- `UPDATE deploy_events SET … WHERE deploy_id = ? AND status = ?`
unfoldable pub move_event : (Status → Bool) → String → (Event → Event) → Db → Db
move_event from d f db = record db {
  deploy_events = update (both (has_id d) (λ e. from e.status)) f db.deploy_events;
}

unfoldable pub set_attempts : (Attempt → Bool) → (Attempt → Attempt) → Db → Db
set_attempts p f db = record db { deploy_attempts = update p f db.deploy_attempts }

abbrev pub is_active_row : String → Attempt → Bool
is_active_row k = both (is_attempt k) is_running

-- The three conditions of `_finalize_normal_if_ready`.
unfoldable pub is_ready : Attempt → Bool
is_ready a =
    same a.result_status (some "success")
    && (same a.settled_local_head (some a.target_head)
        && same a.settled_remote_head (some a.target_head))

abbrev pub is_recovery : Mode → Bool
is_recovery Mode.evidence_recovery = true
is_recovery _ = false

-- `stable_source`: a recovery keeps the source of the marker.
unfoldable pub stable_source : Attempt → Option Requirement → String
stable_source a none = a.orchestrator_attempt_id
stable_source a (some r) =
    if is_recovery a.execution_mode
    then r.source_orchestrator_attempt_id
    else a.orchestrator_attempt_id

abbrev pub is_source : String → String → SourceAttempt → Bool
is_source d k s = s.deploy_id == d && s.lineage_orchestrator_attempt_id == k

module _ (clock : Clock) where
  unfoldable pub approve_event : String → Begin → Db → Db
  unfolding move_event
  approve_event d b db =
      move_event is_pending d
        (λ e. record e {
          status = deploying;
          approved_by = some b.approved_by;
          updated_at = clock.now_iso;
        })
        db

  unfoldable pub insert_attempt : Event → Begin → Option (ProbeRow × Proposal) → Db → Body Unit
  unfolding admits approve_event
  insert_attempt e b from db =
      let a = new_attempt clock.now_iso b from e in
      if not (admits db.deploy_attempts a)
      then raises integrity_error
      else if eqb (count (both (has_id e.deploy_id) (λ x. is_pending x.status)) db.deploy_events) 1
      then returns tt (
          approve_event e.deploy_id b
            (record db { deploy_attempts = db.deploy_attempts ++ a ∷ [] }))
      else raises (runtime_error "canonical owner changed during begin")

  unfoldable pub succeed_event : Attempt → Db → Db
  unfolding move_event
  succeed_event a db =
      move_event is_deploying a.deploy_id
        (λ e. record e {
          status = succeeded;
          error = none;
          duration_ms = a.duration_ms;
          updated_at = clock.now_iso;
        })
        db

  unfoldable pub close_attempt : String → Outcome → Option Terminal → Db → Db
  unfolding set_attempts
  close_attempt k o t db =
      set_attempts (is_active_row k)
        (λ a. record a {
          outcome = o;
          ended = (if is_some t then t else a.ended);
          completed_at = some clock.now_iso;
        })
        db

  unfoldable pub success_unlocked : Attempt → Outcome → Db → Reply × Db
  unfolding close_attempt succeed_event
  success_unlocked a o db =
      if eqb (count (is_active_row a.orchestrator_attempt_id) db.deploy_attempts) 1
      then (
        Reply.succeeded a.deploy_id,
        terminalize_sibling_probes clock a.deploy_id "canonical succeeded before this probe began" (
            cleanup_retry a.deploy_id
              (succeed_event a (close_attempt a.orchestrator_attempt_id o none db))),
      )
      else (Reply.ignored, db)

  unfoldable pub finalize_normal_if_ready : Attempt → Db → Reply × Db
  unfolding is_ready success_unlocked
  finalize_normal_if_ready a db =
      if is_ready a then success_unlocked a Outcome.success db else (Reply.recorded, db)

  -- `INSERT INTO deploy_retry_requirements … ON CONFLICT(deploy_id) DO UPDATE SET …`, by the row that
  -- was read.
  unfoldable pub upsert_requirement :
      Attempt → Option Requirement → List Requirement → List Requirement
  unfolding stable_source
  upsert_requirement a none rows =
      rows
      ++ record {
        deploy_id = a.deploy_id;
        source_orchestrator_attempt_id = stable_source a none;
        last_failed_orchestrator_attempt_id = a.orchestrator_attempt_id;
        created_at = clock.now_iso;
        updated_at = clock.now_iso;
      }
        ∷ []
  upsert_requirement a (some r) rows =
      update (requires a.deploy_id)
        (λ x. record x {
          source_orchestrator_attempt_id = stable_source a (some r);
          last_failed_orchestrator_attempt_id = a.orchestrator_attempt_id;
          updated_at = clock.now_iso;
        })
        rows

  unfoldable pub require_retry : Attempt → Db → Db
  unfolding upsert_requirement retry_of
  require_retry a db = record db {
    deploy_retry_requirements =
        upsert_requirement a (retry_of db a.deploy_id) db.deploy_retry_requirements;
  }

  -- `INSERT OR IGNORE INTO deploy_retry_source_attempts`
  unfoldable pub add_source : Attempt → Db → Db
  add_source a db =
      if ltb 0
        (count (is_source a.deploy_id a.orchestrator_attempt_id) db.deploy_retry_source_attempts)
      then db
      else record db {
        deploy_retry_source_attempts =
            db.deploy_retry_source_attempts
            ++ record {
              deploy_id = a.deploy_id;
              lineage_orchestrator_attempt_id = a.orchestrator_attempt_id;
              added_at = clock.now_iso;
            }
              ∷ [];
      }

  unfoldable pub reject_superseded : String → Db → Db
  unfolding move_event
  reject_superseded d db =
      move_event (λ s. true) d
        (λ e. record e {
          status = rejected;
          reject_reason = some "superseded by newer canonical";
          updated_at = clock.now_iso;
        })
        db

  unfoldable pub reopen_event : String → Db → Db
  unfolding move_event
  reopen_event d db =
      move_event is_deploying d
        (λ e. record e {
          status = pending;
          approved_by = none;
          error = none;
          duration_ms = none;
          updated_at = clock.now_iso;
        })
        db

  -- The branch of `_fail_attempt_unlocked` for a deploy that a newer one has replaced.
  unfoldable pub end_superseded : Attempt → Db → Db
  unfolding reject_superseded
  end_superseded a db =
      terminalize_sibling_probes clock a.deploy_id
        "canonical was superseded before this probe began"
        (cleanup_retry a.deploy_id (reject_superseded a.deploy_id db))

  -- Its branch for the latest deploy: pending again, and marked for a manual retry.
  unfoldable pub end_latest : Attempt → Db → Db
  unfolding reopen_event require_retry add_source
  end_latest a db =
      terminalize_sibling_probes clock a.deploy_id
        "attempt failed; a new manual retry probe is required"
        (add_source a (require_retry a (reopen_event a.deploy_id db)))

  unfoldable pub fail_attempt_unlocked : Attempt → Terminal → Db → Reply × Db
  unfolding close_attempt event is_latest end_superseded end_latest
  fail_attempt_unlocked a t db =
      let d = a.deploy_id in
      let closed = close_attempt a.orchestrator_attempt_id Outcome.failed (some t) db in
      if not (eqb (count (is_active_row a.orchestrator_attempt_id) db.deploy_attempts) 1)
      then (Reply.ignored, db)
      else elim (event closed d) [
        | none ↦ (Reply.has_failed d, closed)
        | some e ↦
            if not (is_latest clock closed (some e))
            then (Reply.was_superseded d, end_superseded a closed)
            else (Reply.has_failed d, end_latest a closed)
      ]
