-- ===== src/Attempts/Events.antt =====
-- The transactions on `deploy_events`: `create_deploy_event` and `resolve_observed_pending` of
-- orch-server/src/haniel_orch/event_store.py, `update_deploy_status` and
-- `reject_pending_deploys_for_nodes` of event_store_lifecycle.py, and event_store_mutations.py.
use Prim.Native.String.{◌++◌ as append}
use haniel.Prelude.{
  ℕ, String, Bool, true, false, not, ◌&&◌, Option, none, some, List, [], ◌∷◌, ◌++◌, map, same,
  is_some, ltb, eqb, count, contains, ◌==◌, if◌then◌else◌,
}
use haniel.Attempts.Table.{find, update, select}
use haniel.Attempts.Rows.{
  Status, pending, rejected, deploying, succeeded, is_pending, Event, Db, Clock, runtime_error,
  Reply, Body, returns, raises,
}
use haniel.Attempts.Support.{
  has_id, owns, latest_id, retry_of, cleanup_retry, close_probes, head_or_last_part,
}
use haniel.Attempts.Transitions.{move_event}
use haniel.Attempts.Reports.{terminal}

-- The arguments of `create_deploy_event`.
pub record Change : Type 0 where
  pub deploy_id : String
  pub node_id : String
  pub repo : String
  pub branch : String
  pub commits_json : String
  pub affected_services_json : String
  pub diff_stat : Option String
  pub detected_at : String
  pub target_head : Option String
  pub expected_manifest_identity : Option String
  pub expected_manifest_digest : Option String

unfoldable pub new_event : (now : String) → Change → Event
new_event now c = record {
  deploy_id = c.deploy_id;
  node_id = c.node_id;
  repo = c.repo;
  branch = c.branch;
  status = pending;
  commits_json = c.commits_json;
  affected_services_json = c.affected_services_json;
  diff_stat = c.diff_stat;
  detected_at = c.detected_at;
  approved_by = none;
  reject_reason = none;
  error = none;
  duration_ms = none;
  created_at = now;
  updated_at = now;
  target_head = some (head_or_last_part c.target_head c.deploy_id);
  expected_manifest_identity = c.expected_manifest_identity;
  expected_manifest_digest = c.expected_manifest_digest;
}

-- `WHERE node_id = ? AND repo = ? AND branch = ? AND status = 'pending' AND deploy_id != ?`
abbrev pub older_pending : (node repo branch latest : String) → Event → Bool
older_pending node repo branch latest e =
    (is_pending e.status && (e.node_id == node && (e.repo == repo && e.branch == branch)))
    && not (e.deploy_id == latest)

unfoldable pub each : (String → Db → Db) → List String → Db → Db
each f [] db = db
each f (d ∷ ds) db = each f ds (f d db)

abbrev pub ids_where : (Event → Bool) → Db → List String
ids_where which db = map (λ e. e.deploy_id) (select which db.deploy_events)

abbrev pub or_keep {ℓ} : {A : Type ℓ} → Option A → Option A → Option A
or_keep none old = old
or_keep (some new) old = some new

abbrev pub is_closing : Status → Bool
is_closing rejected = true
is_closing succeeded = true
is_closing _ = false

-- `status.value`
abbrev pub status_text : Status → String
status_text pending = "pending"
status_text Status.approved = "approved"
status_text rejected = "rejected"
status_text deploying = "deploying"
status_text succeeded = "success"
status_text Status.failed = "failed"

-- The optional arguments of `update_deploy_status`.
pub record Fields : Type 0 where
  pub approved_by : Option String
  pub reject_reason : Option String
  pub error : Option String
  pub duration_ms : Option ℕ

module _ (clock : Clock) where
  unfoldable pub reject_event : (from : Status → Bool) → (reason : String) → String → Db → Db
  reject_event from reason d db =
      move_event from d
        (λ e. record e {
          status = rejected;
          reject_reason = some reason;
          updated_at = clock.now_iso;
        })
        db

  -- One turn of the loop over the older pending rows.
  unfoldable pub supersede : (latest : String) → String → Db → Db
  supersede latest d db =
      close_probes clock (λ p. p.probe.deploy_id == d)
        (terminal "preflight_stale" "canonical_create" "newer_canonical"
          (append "canonical superseded by " latest))
        (cleanup_retry d (reject_event is_pending (append "superseded by " latest) d db))

  unfoldable pub create_deploy_event : Change → Db → Body Reply
  create_deploy_event c db =
      let inserted = record db {
        deploy_events = db.deploy_events ++ new_event clock.now_iso c ∷ [];
      } in
      if ltb 0 (count (has_id c.deploy_id) db.deploy_events)
      then returns (Reply.changed false) db
      else elim (latest_id clock inserted c.node_id c.repo c.branch) [
        | none ↦ raises (runtime_error "inserted canonical disappeared")
        | some latest ↦ returns (Reply.changed true) (
            each (supersede latest)
              (ids_where (older_pending c.node_id c.repo c.branch latest) inserted) inserted)
      ]

  -- The update is one statement, and its subqueries read the tables as they stand.
  unfoldable pub resolve_observed_pending :
      (deploy_id node_id repo branch local_head remote_head : String) → Db → Body Reply
  resolve_observed_pending d node repo branch local remote db =
      let which = λ (e : Event).
        has_id d e
        && ((e.node_id == node && (e.repo == repo && e.branch == branch))
            && (is_pending e.status
                && (same e.target_head (some local)
                    && ((local == remote)
                        && (not (is_some (retry_of db e.deploy_id))
                            && not (is_some (find (owns e.deploy_id) db.deploy_attempts))))))) in
      returns (Reply.changed (eqb (count which db.deploy_events) 1)) (record db {
        deploy_events =
            update which (λ e. record e { status = succeeded; updated_at = clock.now_iso })
              db.deploy_events;
      })

  unfoldable pub update_deploy_status_unlocked : String → Status → Fields → Db → Db
  update_deploy_status_unlocked d status f db =
      move_event (λ s. true) d
        (λ e. record e {
          status = status;
          updated_at = clock.now_iso;
          approved_by = or_keep f.approved_by e.approved_by;
          reject_reason = or_keep f.reject_reason e.reject_reason;
          error = or_keep f.error e.error;
          duration_ms = or_keep f.duration_ms e.duration_ms;
        })
        db

  unfoldable pub update_deploy_status : String → Status → Fields → Db → Body Reply
  update_deploy_status d status f db =
      let moved = update_deploy_status_unlocked d status f db in
      returns Reply.recorded (
        if is_closing status
        then close_probes clock (λ p. p.probe.deploy_id == d)
            (terminal "preflight_stale" "canonical_status_update" "canonical_terminal"
              (append "canonical became " (append (status_text status) " during preflight")))
            (cleanup_retry d moved)
        else moved)

  -- `_cleanup_retry_rows`, one id at a time.
  unfoldable pub cleanup_retry_rows : List String → Db → Db
  cleanup_retry_rows ds db =
      each
        (λ d db.
          close_probes clock (λ p. p.probe.deploy_id == d)
            (terminal "preflight_stale" "canonical_cleanup" "canonical_terminal"
              "canonical became terminal during preflight")
            (cleanup_retry d db))
        ds db

  unfoldable pub supersede_pending_for_branch : (node repo branch : String) → Db → Body Reply
  supersede_pending_for_branch node repo branch db = elim (latest_id clock db node repo branch) [
    | none ↦ returns (Reply.closed []) db
    | some latest ↦
        let ids = ids_where (older_pending node repo branch latest) db in
        returns (Reply.closed ids) (
          cleanup_retry_rows ids
            (each (reject_event is_pending (append "superseded by " latest)) ids db))
  ]

  unfoldable pub reject_pending_deploys_for_nodes :
      List String → (reason : String) → Db → Body Reply
  reject_pending_deploys_for_nodes nodes reason db =
      let which = λ (e : Event). is_pending e.status && contains e.node_id nodes in
      let ids = ids_where which db in
      returns (Reply.closed ids) (
        cleanup_retry_rows ids (record db {
          deploy_events =
              update which
                (λ e. record e {
                  status = rejected;
                  reject_reason = some reason;
                  updated_at = clock.now_iso;
                })
                db.deploy_events;
        }))
