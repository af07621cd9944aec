-- ===== src/Attempts/OutOfBand.antt =====
-- What the report of a node's own successful deploy settles.
use mathlib.Core.Path.{subst}
use haniel.Prelude.{
  not, false, Bool, ℕ, ◌≡◌, refl, sym, ap, ◌∙◌, String, true, ◌&&◌, Option, none, some, arith,
  count, same, ◌==◌, if◌then◌else◌,
}
use haniel.Attempts.Table.{
  find, both, updated, find-holds, find-stricter, find-deleted, find-update, count-emptied,
}
use haniel.Attempts.Rows.{
  succeeded, Event, Outcome, NodeAttempt, is_active, Db, Clock, Reply, Body, transaction,
}
use haniel.Attempts.Support.{has_id, owns, requires, retry_of, cleanup_retry, close_probes}
use haniel.Attempts.Transitions.{set_attempts, move_event}
use haniel.Attempts.NodeReports.{
  succeeds, NodeDeployReport, is_node_attempt, canonical, is_unsettled, insert_started,
  identity_changed, close_node_attempt, supersede_attempts, settle_event, node_success,
  record_phase, record_node_deploy_report,
}
use haniel.Attempts.Calls.{reports_node, perform, step}
use haniel.Attempts.Ownership.Ends.{Inv}
use haniel.Attempts.Lifecycle.{status_of, status_in}

-- The state that a success out of band leaves.
pub record IsSettled (db : Db) (d : String) : Type 0 where
  pub at_success : status_of db.deploy_events d ≡ some succeeded
  pub unowned : count (owns d) db.deploy_attempts ≡ 0
  pub unmarked : retry_of db d ≡ none

success-IsSettled :
    (clock : Clock) (d : String) (n : Option ℕ) (e : Event) (db : Db)
    → find (has_id d) db.deploy_events ≡ some e
    → is_unsettled e.status ≡ true
    → IsSettled (node_success clock d n db) d
unfolding node_success supersede_attempts settle_event set_attempts move_event close_probes
    cleanup_retry status_of retry_of updated
success-IsSettled clock d n e db found open_status =
    let p = both (has_id d) (λ x. is_unsettled x.status) in
    let settle : Event → Event = λ x. record x {
      status = succeeded;
      approved_by = none;
      error = none;
      duration_ms = n;
      updated_at = clock.now_iso;
    } in
    let here : p e ≡ true =
      ground (arith, open_status, find-holds (has_id d) db.deploy_events e found) in
    record {
      at_success =
          ap status_in (
            find-update p (has_id d) settle db.deploy_events (λ x. refl)
            ∙ ap (updated p settle) found)
          ∙ ap (λ b. some (if b then settle e else e).status) here;
      unowned = count-emptied (owns d) _ db.deploy_attempts (λ x. refl);
      unmarked = find-deleted (requires d) db.deploy_retry_requirements;
    }

-- Whether the store takes a report up: it has no row of the node's attempt, or an active one whose
-- identity the report keeps.
abbrev pub is_taken : NodeDeployReport → Option NodeAttempt → Bool
is_taken r none = true
is_taken r (some a) = not (identity_changed a r) && is_active a.outcome

-- The tables that the report's phase is recorded in.
abbrev noted : Clock → NodeDeployReport → Db → Option NodeAttempt → Db
noted clock r db none = insert_started clock r db
noted clock r db (some a) = db

taken_report :
    (clock : Clock) (r : NodeDeployReport) (e : Event) (db : Db) (o : Option NodeAttempt)
    → canonical db r ≡ some e
    → is_unsettled e.status ≡ true
    → find (is_node_attempt r.node_attempt_id) db.node_deploy_attempts ≡ o
    → is_taken r o ≡ true
    → record_node_deploy_report clock r db ≡ record_phase clock r.phase r (noted clock r db o)
unfolding record_node_deploy_report
taken_report clock r e db none found open_status row taken =
    rw (found, record_node_deploy_report) (rw open_status (rw row refl))
taken_report clock r e db (some a) found open_status row taken =
    let kept : identity_changed a r ≡ false = ground (arith, taken) in
    let live : is_active a.outcome ≡ true = ground (arith, taken) in
    rw (found, record_node_deploy_report) (rw open_status (rw row (rw kept (rw live refl))))

found_row :
    (r : NodeDeployReport) (e : Event) (db : Db)
    → Inv db
    → canonical db r ≡ some e
    → find (has_id r.deploy_id) db.deploy_events ≡ some e
unfolding canonical
found_row r e db o found =
    find-stricter (has_id r.deploy_id)
      (λ x.
        (x.node_id == r.node_id && (x.repo == r.repo && x.branch == r.branch))
        && same x.target_head (some r.target_head))
      db.deploy_events e (o.event_ids r.deploy_id) found

noted_events :
    (clock : Clock) (r : NodeDeployReport) (db : Db) (o : Option NodeAttempt)
    → (noted clock r db o).deploy_events ≡ db.deploy_events
unfolding insert_started
noted_events clock r db none = refl
noted_events clock r db (some a) = refl

-- A node's report that a deploy has succeeded, for a deploy that is pending or deploying in tables whose
-- owners are in order, settles it whoever owned it: the deploy stands at success, no attempt of it is
-- active and no retry marker is left. So does a first report of the node's attempt, and one that follows
-- a report of its start.
pub report-IsSettled :
    (clock : Clock) (r : NodeDeployReport) (e : Event) (db : Db)
    → Inv db
    → canonical db r ≡ some e
    → is_unsettled e.status ≡ true
    → is_taken r (find (is_node_attempt r.node_attempt_id) db.node_deploy_attempts) ≡ true
    → r.phase ≡ succeeds
    → IsSettled (step (clock, reports_node r) db).1 r.deploy_id
unfolding step perform transaction record_phase close_node_attempt
report-IsSettled clock r e db o found open_status taken phase =
    let row = find (is_node_attempt r.node_attempt_id) db.node_deploy_attempts in
    let before = noted clock r db row in
    subst (λ (m : Body Reply). IsSettled (transaction db m).1 r.deploy_id)
      (sym (
        taken_report clock r e db row found open_status refl taken
        ∙ ap (λ ph. record_phase clock ph r before) phase))
      (success-IsSettled clock r.deploy_id r.duration_ms e
        (close_node_attempt clock Outcome.success r before)
        (ap (find (has_id r.deploy_id)) (noted_events clock r db row) ∙ found_row r e db o found)
        open_status)
