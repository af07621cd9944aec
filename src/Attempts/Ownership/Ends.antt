-- ===== src/Attempts/Ownership/Ends.antt =====
-- The beginning and the ends of an attempt, as deploy_attempt_store_support.py writes them, keep the
-- ownership of deploys.
use haniel.Prelude.{
  ◌≡◌, refl, ap, true, false, Option, none, some, List, [], ◌∷◌, ◌++◌, arith, eqb, ltb, count, ◌==◌,
  ◌≢◌, eq_refl, Bool-cases, Option-cases, inl, inr,
}
use haniel.Retry.Messages.{Proposal}
use haniel.Attempts.Table.{find, both, find-only, find-counted}
use haniel.Attempts.Rows.{
  is_pending, is_deploying, Event, ProbeRow, Terminal, Outcome, is_active, Attempt, Db, empty,
  Clock, Reply,
}
use haniel.Attempts.Support.{
  has_id, is_attempt, is_running, owns, event, is_latest, cleanup_retry, close_probes,
  terminalize_sibling_probes,
}
use haniel.Attempts.Transitions.{
  Begin, new_attempt, admits, insert_attempt, approve_event, move_event, set_attempts,
  close_attempt, is_active_row, succeed_event, success_unlocked, reject_superseded, reopen_event,
  require_retry, add_source, is_source, fail_attempt_unlocked, end_superseded, end_latest,
}
use haniel.Attempts.Reports.{write_result, write_settled, renewed_to}
use haniel.Attempts.Events.{new_event}
use haniel.Attempts.NodeReports.{
  is_unsettled, node_success, supersede_attempts, settle_event, node_reopen,
}
use haniel.Attempts.Rule.{OnReturn, IsSnapshot, IsKept, attempt_of-IsSnapshot}
use haniel.Attempts.Rule.Runs.{run_keeps}
use haniel.Attempts.Calls.{Call, run}
use haniel.Attempts.Ownership.{idle-Owned, new-Owned, Owned, runs, is_carried, columns-Owned}
use haniel.Attempts.Ownership.Begun.{begin-Owned}
use haniel.Attempts.Ownership.Ended.{end-Owned, clear-Owned, reopen-Owned}

abbrev pub Inv : Db → Type 0
Inv db = Owned db.deploy_events db.deploy_attempts

-- The tables after the statement that closes the attempt's row.
abbrev pub closed_by : Clock → Attempt → Terminal → Db → Db
closed_by clock a t db = close_attempt clock a.orchestrator_attempt_id Outcome.failed (some t) db

pub row_runs :
    (db : Db) (a : Attempt)
    → Inv db
    → (h : IsSnapshot db a)
    → eqb (count (is_active_row a.orchestrator_attempt_id) db.deploy_attempts) 1 ≡ true
    → is_running h.row ≡ true
row_runs db a o h one =
    find-only (is_attempt a.orchestrator_attempt_id) is_running db.deploy_attempts h.row
      (o.attempt_ids a.orchestrator_attempt_id) h.found (ground (arith, one))

pub begun-Inv :
    (clock : Clock) (e : Event) (b : Begin) (from : Option (ProbeRow × Proposal)) (db : Db)
    → admits db.deploy_attempts (new_attempt clock.now_iso b from e) ≡ true
    → eqb (count (both (has_id e.deploy_id) (λ x. is_pending x.status)) db.deploy_events) 1 ≡ true
    → Inv db
    → Inv (
        approve_event clock e.deploy_id b (record db {
          deploy_attempts = db.deploy_attempts ++ new_attempt clock.now_iso b from e ∷ [];
        }))
unfolding approve_event move_event admits new_attempt
begun-Inv clock e b from db t u o =
    begin-Owned db.deploy_events db.deploy_attempts (new_attempt clock.now_iso b from e) _ refl
      (ground (arith, t)) (ground (arith, t)) (ground (arith, t)) (ground (arith, u)) (λ x. refl)
      (λ x. refl) o

pub insert_attempt-Inv :
    (clock : Clock) (e : Event) (b : Begin) (from : Option (ProbeRow × Proposal)) (db : Db)
    → Inv db
    → OnReturn Inv (insert_attempt clock e b from db)
unfolding insert_attempt
insert_attempt-Inv clock e b from db o =
    elim (Bool-cases (admits db.deploy_attempts (new_attempt clock.now_iso b from e))) [
      | inl t ↦
          elim (Bool-cases (
            eqb (count (both (has_id e.deploy_id) (λ x. is_pending x.status)) db.deploy_events)
              1)) [
                | inl u ↦ rw t (rw u (begun-Inv clock e b from db t u o))
                | inr u ↦ rw t (rw u tt)
              ]
      | inr t ↦ rw t tt
    ]

pub success_unlocked-Inv :
    (clock : Clock) (a : Attempt) (out : Outcome) (db : Db)
    → is_active out ≡ false
    → IsSnapshot db a
    → Inv db
    → Inv (success_unlocked clock a out db).1
unfolding success_unlocked succeed_event close_attempt move_event set_attempts cleanup_retry
    terminalize_sibling_probes close_probes
success_unlocked-Inv clock a out db closes h o =
    elim (Bool-cases (eqb (count (is_active_row a.orchestrator_attempt_id) db.deploy_attempts) 1)) [
      | inl t ↦ rw t (
          end-Owned db.deploy_events db.deploy_attempts a.orchestrator_attempt_id a.deploy_id h.row
            is_deploying _ _ h.found h.of (row_runs db a o h t) (λ x. refl) (λ x. closes)
            (λ e. refl) (λ e r. r) (λ e. refl) o)
      | inr t ↦ rw t o
    ]

add_source-Inv : (clock : Clock) (a : Attempt) (db : Db) → Inv db → Inv (add_source clock a db)
unfolding add_source
add_source-Inv clock a db o =
    elim (Bool-cases (
      ltb 0 (
        count (is_source a.deploy_id a.orchestrator_attempt_id) db.deploy_retry_source_attempts))) [
          | inl t ↦ rw t o
          | inr t ↦ rw t o
        ]

-- A running attempt has an event.
event-exists :
    (db : Db) (a : Attempt)
    → Inv db
    → (h : IsSnapshot db a) → is_running h.row ≡ true
    → find (has_id a.deploy_id) db.deploy_events ≢ none
unfolding runs is_carried
event-exists db a o h live e = ground (
  arith,
  ap is_carried e,
  o.owners a.deploy_id,
  eq_refl a.deploy_id,
  live,
  ap (λ i. i == a.deploy_id) h.of,
  find-counted (is_attempt a.orchestrator_attempt_id) (owns a.deploy_id) db.deploy_attempts h.row
      h.found (ground (arith, live, ap (λ i. i == a.deploy_id) h.of, eq_refl a.deploy_id)),
)

pub snapshot-deploying :
    (db : Db) (a : Attempt) (e : Event)
    → Inv db
    → (h : IsSnapshot db a) → is_running h.row ≡ true
    → find (has_id a.deploy_id) db.deploy_events ≡ some e
    → is_deploying e.status ≡ true
unfolding runs is_carried
snapshot-deploying db a e o h live x = ground (
  arith,
  ap is_carried x,
  o.owners a.deploy_id,
  eq_refl a.deploy_id,
  live,
  ap (λ i. i == a.deploy_id) h.of,
  find-counted (is_attempt a.orchestrator_attempt_id) (owns a.deploy_id) db.deploy_attempts h.row
      h.found (ground (arith, live, ap (λ i. i == a.deploy_id) h.of, eq_refl a.deploy_id)),
)

-- The four ways through `fail_attempt_unlocked`.
pub fail_rule {ℓ} :
    (clock : Clock) (a : Attempt) (t : Terminal) (db : Db) (P : Reply × Db → Type ℓ)
    → (eqb (count (is_active_row a.orchestrator_attempt_id) db.deploy_attempts) 1 ≡ false
        → P (Reply.ignored, db))
    → (eqb (count (is_active_row a.orchestrator_attempt_id) db.deploy_attempts) 1 ≡ true
        → event (closed_by clock a t db) a.deploy_id ≡ none
        → P (Reply.has_failed a.deploy_id, closed_by clock a t db))
    → ((e : Event)
        → eqb (count (is_active_row a.orchestrator_attempt_id) db.deploy_attempts) 1 ≡ true
        → event (closed_by clock a t db) a.deploy_id ≡ some e
        → is_latest clock (closed_by clock a t db) (some e) ≡ false
        → P (Reply.was_superseded a.deploy_id, end_superseded clock a (closed_by clock a t db)))
    → ((e : Event)
        → eqb (count (is_active_row a.orchestrator_attempt_id) db.deploy_attempts) 1 ≡ true
        → event (closed_by clock a t db) a.deploy_id ≡ some e
        → is_latest clock (closed_by clock a t db) (some e) ≡ true
        → P (Reply.has_failed a.deploy_id, end_latest clock a (closed_by clock a t db)))
    → P (fail_attempt_unlocked clock a t db)
unfolding fail_attempt_unlocked
fail_rule clock a t db P missed lone old new =
    elim (Bool-cases (eqb (count (is_active_row a.orchestrator_attempt_id) db.deploy_attempts) 1)) [
      | inl u ↦ rw u (elim (Option-cases (event (closed_by clock a t db) a.deploy_id)) [
        | inl e ↦ rw e (lone u e)
        | inr (x, e) ↦ rw e (elim (Bool-cases (is_latest clock (closed_by clock a t db) (some x))) [
          | inl l ↦ rw l (new x u e l)
          | inr l ↦ rw l (old x u e l)
        ])
      ])
      | inr u ↦ rw u (missed u)
    ]

pub fail_attempt_unlocked-Inv :
    (clock : Clock) (a : Attempt) (t : Terminal) (db : Db)
    → IsSnapshot db a
    → Inv db
    → Inv (fail_attempt_unlocked clock a t db).1
unfolding close_attempt event set_attempts reject_superseded reopen_event move_event end_superseded
    end_latest require_retry cleanup_retry terminalize_sibling_probes close_probes
fail_attempt_unlocked-Inv clock a t db h o =
    fail_rule clock a t db (λ r. Inv r.1) (λ u. o)
      (λ u e. elim (event-exists db a o h (row_runs db a o h u) e) [ ])
      (λ x u e l.
        end-Owned db.deploy_events db.deploy_attempts a.orchestrator_attempt_id a.deploy_id h.row
          (λ s. true) _ _ h.found h.of (row_runs db a o h u) (λ x. refl) (λ x. refl) (λ e. refl)
          (λ e r. refl) (λ e. refl) o)
      (λ x u e l.
        add_source-Inv clock a
          (require_retry clock a (reopen_event clock a.deploy_id (closed_by clock a t db)))
          (end-Owned db.deploy_events db.deploy_attempts a.orchestrator_attempt_id a.deploy_id h.row
            is_deploying _ _ h.found h.of (row_runs db a o h u) (λ x. refl) (λ x. refl) (λ e. refl)
            (λ e r. r) (λ e. refl) o))

pub Inv-IsKept : IsKept Inv
unfolding write_result write_settled set_attempts renewed_to cleanup_retry new_event node_success
    supersede_attempts settle_event node_reopen move_event close_probes
Inv-IsKept = record {
  begins = λ clock e b from db h o. insert_attempt-Inv clock e b from db o;
  completes = λ clock a db h r o.
      success_unlocked-Inv clock a Outcome.success db refl
        (attempt_of-IsSnapshot db a.orchestrator_attempt_id a h) o;
  recovers = λ clock a v db h m r o.
      success_unlocked-Inv clock a Outcome.evidence_recovered_success db refl
        (attempt_of-IsSnapshot db a.orchestrator_attempt_id a h) o;
  fails = λ clock a t db h o. fail_attempt_unlocked-Inv clock a t db h o;
  reports = λ k status error n a db h r o.
      columns-Owned _ _ db.deploy_events db.deploy_attempts (λ i x. refl) (λ i x. refl)
        (λ i j l x. refl) o;
  settles = λ clock k local remote a db h r o.
      columns-Owned _ _ db.deploy_events db.deploy_attempts (λ i x. refl) (λ i x. refl)
        (λ i j l x. refl) o;
  renews = λ k at n db o.
      columns-Owned _ _ db.deploy_events db.deploy_attempts (λ i x. refl) (λ i x. refl)
        (λ i j l x. refl) o;
  probes = λ rows db o. o;
  closes = λ p f db keeps from to o.
      idle-Owned p f db.deploy_events db.deploy_attempts keeps (λ e h. ground (arith, from e h))
        (λ e. ground (arith, to e)) o;
  creates = λ clock c db fresh o.
      new-Owned db.deploy_events (new_event clock.now_iso c) db.deploy_attempts fresh refl o;
  cleans = λ d db o. o;
  node_rows = λ rows db o. o;
  node_succeeds = λ clock d n db o.
      clear-Owned db.deploy_events db.deploy_attempts d is_unsettled _ _ (λ a. refl) (λ a. refl)
        (λ e. refl) (λ e h. ground (arith, h)) (λ e. refl) o;
  node_reopens = λ clock d db none_here o.
      reopen-Owned db.deploy_events db.deploy_attempts d is_deploying _ none_here (λ e. refl)
        (λ e h. h) (λ e. refl) o;
}

pub empty-Inv : Inv empty
unfolding runs is_carried find
empty-Inv = record {
  attempt_ids = λ k. omega arith;
  event_ids = λ d. omega arith;
  owners = λ d. refl;
  branches = λ n r b. omega arith;
}

-- Whatever transactions of `Call` a store has run from its creation, in any order and with any arguments: the
-- ids of attempts and of events are unique, a deploy is deploying if and only if it has an active
-- attempt, it then has only one, and a branch of a node has one active attempt at most.
pub run-empty-Owned :
    (calls : List (Clock × Call))
    → Owned (run calls empty).deploy_events (run calls empty).deploy_attempts
run-empty-Owned calls = run_keeps Inv Inv-IsKept calls empty empty-Inv
