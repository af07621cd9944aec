-- ===== src/Attempts/NodeReports.antt =====
-- orch-server/src/haniel_orch/node_deploy_store.py: the reports of deploys that a node starts by itself,
-- outside the orchestrator's attempts.
use haniel.Prelude.{
  ℕ, String, Bool, not, ◌&&◌, ◌||◌, Option, none, some, [], ◌∷◌, ◌++◌, same, is_some, ◌==◌,
  if◌then◌else◌,
}
use haniel.Attempts.Table.{find, update, both}
use haniel.Attempts.Rows.{
  Status, pending, succeeded, is_pending, is_deploying, Event, Outcome, is_active, NodeAttempt, Db,
  Clock, value_error, Reply, Body, returns, raises,
}
use haniel.Attempts.Support.{has_id, owns, cleanup_retry, close_probes}
use haniel.Attempts.Transitions.{move_event, set_attempts}
use haniel.Attempts.Reports.{terminal}

pub data Phase : Type 0 where
  started succeeds fails : Phase

-- `NodeDeployReport`
pub record NodeDeployReport : Type 0 where
  pub phase : Phase
  pub node_attempt_id : String
  pub journal_attempt_id : Option String
  pub deploy_id : String
  pub node_id : String
  pub repo : String
  pub branch : String
  pub target_head : String
  pub local_head : String
  pub trigger : String
  pub error : Option String
  pub duration_ms : Option ℕ

abbrev pub is_node_attempt : String → NodeAttempt → Bool
is_node_attempt k a = a.node_attempt_id == k

abbrev pub is_canonical : NodeDeployReport → Event → Bool
is_canonical r e =
    has_id r.deploy_id e
    && ((e.node_id == r.node_id && (e.repo == r.repo && e.branch == r.branch))
        && same e.target_head (some r.target_head))

unfoldable pub canonical : Db → NodeDeployReport → Option Event
canonical db r = find (is_canonical r) db.deploy_events

-- `_validate_identity`: whether a field of the stored row is not the report's.
abbrev pub identity_changed : NodeAttempt → NodeDeployReport → Bool
identity_changed a r =
    not (same a.journal_attempt_id r.journal_attempt_id)
    || (not (a.deploy_id == r.deploy_id)
        || (not (a.node_id == r.node_id)
            || (not (a.repo == r.repo)
                || (not (a.branch == r.branch) || not (a.target_head == r.target_head)))))

-- A canonical row that is pending or deploying.
abbrev pub is_unsettled : Status → Bool
is_unsettled s = is_pending s || is_deploying s

module _ (clock : Clock) where
  unfoldable pub insert_started : NodeDeployReport → Db → Db
  insert_started r db = record db {
    node_deploy_attempts =
        db.node_deploy_attempts
        ++ record {
          node_attempt_id = r.node_attempt_id;
          journal_attempt_id = r.journal_attempt_id;
          deploy_id = r.deploy_id;
          node_id = r.node_id;
          repo = r.repo;
          branch = r.branch;
          target_head = r.target_head;
          trigger = r.trigger;
          outcome = Outcome.active;
          started_local_head = r.local_head;
          terminal_local_head = none;
          error = none;
          duration_ms = none;
          started_at = clock.now_iso;
          completed_at = none;
        }
          ∷ [];
  }

  unfoldable pub close_node_attempt : Outcome → NodeDeployReport → Db → Db
  close_node_attempt o r db = record db {
    node_deploy_attempts =
        update (both (is_node_attempt r.node_attempt_id) (λ a. is_active a.outcome))
          (λ a. record a {
            outcome = o;
            terminal_local_head = some r.local_head;
            error = r.error;
            duration_ms = r.duration_ms;
            completed_at = some clock.now_iso;
          })
          db.node_deploy_attempts;
  }

  -- The attempts and the event of a deploy that has succeeded out of band.
  unfoldable pub supersede_attempts : String → Db → Db
  unfolding set_attempts
  supersede_attempts d db =
      set_attempts (owns d)
        (λ a. record a {
          outcome = Outcome.superseded;
          ended = some (
              terminal "node_deploy_succeeded" "node_deploy_report" "out_of_band_success"
                "superseded by node-owned deployment");
          completed_at = some clock.now_iso;
        })
        db

  unfoldable pub settle_event : String → Option ℕ → Db → Db
  unfolding move_event
  settle_event d duration db =
      move_event is_unsettled d
        (λ e. record e {
          status = succeeded;
          approved_by = none;
          error = none;
          duration_ms = duration;
          updated_at = clock.now_iso;
        })
        db

  unfoldable pub node_success : String → Option ℕ → Db → Db
  unfolding supersede_attempts settle_event
  node_success d duration db =
      close_probes clock (λ p. p.probe.deploy_id == d)
        (terminal "preflight_stale" "node_deploy_report" "canonical_terminal"
          "canonical succeeded out of band")
        (cleanup_retry d (settle_event d duration (supersede_attempts d db)))

  unfoldable pub node_reopen : String → Db → Db
  unfolding move_event
  node_reopen d db =
      move_event is_deploying d
        (λ e. record e {
          status = pending;
          approved_by = none;
          error = none;
          duration_ms = none;
          updated_at = clock.now_iso;
        })
        db

  -- From the test of the phase on.
  unfoldable pub record_phase : Phase → NodeDeployReport → Db → Body Reply
  record_phase started r db = returns (Reply.node_report Outcome.active) db
  record_phase succeeds r db =
      returns (Reply.node_report Outcome.success)
        (node_success r.deploy_id r.duration_ms (close_node_attempt Outcome.success r db))
  record_phase fails r db = returns (Reply.node_report Outcome.failed) (
      if is_some (find (owns r.deploy_id) db.deploy_attempts)
      then close_node_attempt Outcome.failed r db
      else node_reopen r.deploy_id (close_node_attempt Outcome.failed r db))

  unfoldable pub record_node_deploy_report : NodeDeployReport → Db → Body Reply
  record_node_deploy_report r db = elim (canonical db r) [
    | none ↦ returns Reply.ignored db
    | some e ↦
        if not (is_unsettled e.status)
        then returns Reply.ignored db
        else elim (find (is_node_attempt r.node_attempt_id) db.node_deploy_attempts) [
          | none ↦ record_phase r.phase r (insert_started r db)
          | some a ↦
              if identity_changed a r
              then raises (value_error "node deploy attempt identity changed")
              else if not (is_active a.outcome)
              then returns Reply.ignored db
              else record_phase r.phase r db
        ]
  ]
