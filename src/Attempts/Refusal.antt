-- ===== src/Attempts/Refusal.antt =====
-- What the store refuses and what it ends: a new begin beside a retry marker, and an attempt whose
-- deadline has passed; and a rejection that comes too late.
use haniel.Prelude.{
  ◌≡◌, ◌≤◌, refl, sym, ap, ◌∙◌, String, true, false, Option, none, some, arith, eq_refl, count, eqb,
  if◌then◌else◌, Bool-cases, Option-cases, inl, inr, ◌==◌,
}
use mathlib.Core.Path.{subst}
use haniel.Attempts.Table.{
  find, both, updated, find-holds, find-both, find-update, count-both, count-update,
}
use haniel.Attempts.Rows.{
  rejected, is_pending, is_deploying, Event, Terminal, Outcome, Attempt, Requirement, Db, Clock,
  Reply, Body, transaction,
}
use haniel.Attempts.Support.{
  has_id, is_attempt, is_running, owns, event, attempt_of, retry_of, is_latest, cleanup_retry,
  close_probes, terminalize_sibling_probes,
}
use haniel.Attempts.Transitions.{
  Begin, move_event, set_attempts, close_attempt, is_active_row, reject_superseded, end_superseded,
  fail_attempt_unlocked,
}
use haniel.Attempts.Reports.{answer, begin_normal_attempt, fail_attempt_if_deadline_due}
use haniel.Attempts.Events.{Fields, or_keep, update_deploy_status, update_deploy_status_unlocked}
use haniel.Attempts.Calls.{expires, perform, step}
use haniel.Attempts.Rule.{OnReturn}
use haniel.Attempts.Ownership.{runs, is_carried}
use haniel.Attempts.Ownership.Ends.{Inv, Inv-IsKept, closed_by, fail_rule}
use haniel.Attempts.Evidence.Sound.{end_latest-attempts}
use haniel.Attempts.Lifecycle.{status_of, status_in}
use haniel.Attempts.Failure.{fail-IsMarked, one_row, false-true}

begin_normal_refused :
    (clock : Clock) (d : String) (b : Begin) (g : String) (db : Db) (r : Requirement)
    → retry_of db d ≡ some r
    → OnReturn (λ x. ⊥) (begin_normal_attempt clock d b g db)
unfolding begin_normal_attempt
begin_normal_refused clock d b g db r e = elim (Bool-cases (b.connection_generation == g)) [
  | inr t ↦ rw t tt
  | inl t ↦ rw t (elim (Option-cases (event db d)) [
    | inl n ↦ rw n tt
    | inr (x, n) ↦ rw n (elim (Bool-cases (is_pending x.status)) [
      | inr u ↦ rw u tt
      | inl u ↦ rw u (elim (Bool-cases (is_latest clock db (some x))) [
        | inr l ↦ rw l tt
        | inl l ↦ rw l (rw e tt)
      ])
    ])
  ])
]

-- In tables whose owners are in order: when an active attempt of the latest deploy of its branch has
-- failed, a normal begin of that deploy that comes next is refused, whatever its arguments and time.
pub fail-refuses_begin :
    (clock later : Clock) (a : Attempt) (e : Event) (t : Terminal) (db : Db) (b : Begin)
    (g : String)
    → Inv db
    → attempt_of db a.orchestrator_attempt_id ≡ some a
    → is_running a ≡ true
    → event db a.deploy_id ≡ some e
    → is_latest clock db (some e) ≡ true
    → OnReturn
        (λ x. ⊥)
        (begin_normal_attempt later a.deploy_id b g (fail_attempt_unlocked clock a t db).1)
fail-refuses_begin clock later a e t db b g o stored live found latest =
    let m = fail-IsMarked clock a e t db o stored live found latest in
    begin_normal_refused later a.deploy_id b g (fail_attempt_unlocked clock a t db).1 m.marker
      m.marked

abbrev pub outcome_in : Option Attempt → Option Outcome
outcome_in none = none
outcome_in (some a) = some a.outcome

-- What closing a running attempt does to its row and to the owners of its deploy.
closed_row :
    (clock : Clock) (a : Attempt) (t : Terminal) (db : Db)
    → Inv db
    → attempt_of db a.orchestrator_attempt_id ≡ some a
    → is_running a ≡ true
    → (outcome_in
          (find (is_attempt a.orchestrator_attempt_id) (closed_by clock a t db).deploy_attempts)
        ≡ some Outcome.failed)
      × (count (owns a.deploy_id) (closed_by clock a t db).deploy_attempts ≡ 0)
unfolding close_attempt set_attempts attempt_of updated
closed_row clock a t db o stored live =
    let k = a.orchestrator_attempt_id in
    let mine = is_active_row k in
    let close : Attempt → Attempt = λ x. record x {
      outcome = Outcome.failed;
      ended = some t;
      completed_at = some clock.now_iso;
    } in
    let here : mine a ≡ true = ground (arith, live, eq_refl k) in
    let one : count mine db.deploy_attempts ≤ 1 =
      omega (arith, count-both (is_attempt k) is_running db.deploy_attempts, o.attempt_ids k) in
    (
      ap outcome_in (
            find-update mine (is_attempt k) close db.deploy_attempts (λ x. refl)
            ∙ ap (updated mine close) stored)
          ∙ ap (λ b. some (if b then close a else a).outcome) here,
      ground (
        arith,
        o.owners a.deploy_id,
        live,
        eq_refl a.deploy_id,
        count-update mine (owns a.deploy_id) close db.deploy_attempts a one
            (find-both (is_attempt k) is_running db.deploy_attempts a stored live),
      ),
    )

fail-attempts :
    (clock : Clock) (a : Attempt) (t : Terminal) (db : Db)
    → eqb (count (is_active_row a.orchestrator_attempt_id) db.deploy_attempts) 1 ≡ true
    → (fail_attempt_unlocked clock a t db).1.deploy_attempts
      ≡ (closed_by clock a t db).deploy_attempts
unfolding end_superseded terminalize_sibling_probes close_probes cleanup_retry reject_superseded
    move_event
fail-attempts clock a t db one =
    fail_rule clock a t db (λ r. r.1.deploy_attempts ≡ (closed_by clock a t db).deploy_attempts)
      (λ u. elim (false-true (sym u ∙ one)) [ ]) (λ u e. refl) (λ e u x l. refl)
      (λ e u x l. end_latest-attempts clock a (closed_by clock a t db))

due_fails :
    (clock : Clock) (k : String) (a : Attempt) (t : Terminal) (db : Db)
    → attempt_of db k ≡ some a
    → is_running a ≡ true
    → clock.expired a.deadline_at ≡ true
    → fail_attempt_if_deadline_due clock k a.deadline_at t db
      ≡ answer (fail_attempt_unlocked clock a t db)
unfolding fail_attempt_if_deadline_due
due_fails clock k a t db stored live due =
    rw (stored, live, eq_refl a.deadline_at, due, fail_attempt_if_deadline_due) refl

fail-ends :
    (clock : Clock) (a : Attempt) (t : Terminal) (db : Db)
    → Inv db
    → attempt_of db a.orchestrator_attempt_id ≡ some a
    → is_running a ≡ true
    → (outcome_in (
          find
            (is_attempt a.orchestrator_attempt_id)
            (fail_attempt_unlocked clock a t db).1.deploy_attempts)
        ≡ some Outcome.failed)
      × (runs (fail_attempt_unlocked clock a t db).1.deploy_events a.deploy_id ≡ false)
unfolding attempt_of
fail-ends clock a t db o stored live =
    let same = fail-attempts clock a t db (one_row db a o stored live) in
    let c = closed_row clock a t db o stored live in
    let after = Inv-IsKept.fails clock a t db (record { row = a; found = stored; of = refl }) o in
    (
      ap (λ rows. outcome_in (find (is_attempt a.orchestrator_attempt_id) rows)) same ∙ c.0,
      ground (arith, after.owners a.deploy_id, ap (count (owns a.deploy_id)) same, c.1),
    )

-- An attempt whose stored deadline has passed does not stay: the call of the deadline that finds that
-- deadline unchanged closes the attempt as failed, and its deploy is deploying no more.
pub expires-ends :
    (clock : Clock) (db : Db) (a : Attempt) (t : Terminal)
    → Inv db
    → attempt_of db a.orchestrator_attempt_id ≡ some a
    → is_running a ≡ true
    → clock.expired a.deadline_at ≡ true
    → (outcome_in (
          attempt_of
            (step (clock, expires a.orchestrator_attempt_id a.deadline_at t) db).1
            a.orchestrator_attempt_id)
        ≡ some Outcome.failed)
      × (runs
            (step (clock, expires a.orchestrator_attempt_id a.deadline_at t) db).1.deploy_events
            a.deploy_id
          ≡ false)
unfolding step perform transaction attempt_of
expires-ends clock db a t o stored live due =
    let k = a.orchestrator_attempt_id in
    subst
      (λ (m : Body Reply).
        (outcome_in (find (is_attempt k) (transaction db m).1.deploy_attempts)
          ≡ some Outcome.failed)
        × (runs (transaction db m).1.deploy_events a.deploy_id ≡ false))
      (sym (due_fails clock k a t db stored live due)) (fail-ends clock a t db o stored live)

-- `update_deploy_status` reads no status, so a rejection whose caller saw the deploy pending, and that
-- comes after another caller's begin, leaves a rejected deploy with its attempt still active.
pub reject-orphans :
    (clock : Clock) (db : Db) (d : String) (e : Event) (f : Fields)
    → Inv db
    → event db d ≡ some e
    → is_deploying e.status ≡ true
    → OnReturn
        (λ after.
          (status_of after.deploy_events d ≡ some rejected)
          × (count (owns d) after.deploy_attempts ≡ 1))
        (update_deploy_status clock d rejected f db)
unfolding update_deploy_status update_deploy_status_unlocked move_event close_probes cleanup_retry
    status_of runs is_carried event updated
reject-orphans clock db d e f o found held =
    let p = both (has_id d) (λ x. true) in
    let move : Event → Event = λ x. record x {
      status = rejected;
      updated_at = clock.now_iso;
      approved_by = or_keep f.approved_by x.approved_by;
      reject_reason = or_keep f.reject_reason x.reject_reason;
      error = or_keep f.error x.error;
      duration_ms = or_keep f.duration_ms x.duration_ms;
    } in
    let here : p e ≡ true = ground (arith, find-holds (has_id d) db.deploy_events e found) in
    (
      ap status_in
            (find-update p (has_id d) move db.deploy_events (λ x. refl) ∙ ap (updated p move) found)
          ∙ ap (λ b. some (if b then move e else e).status) here,
      ground (arith, o.owners d, held, ap is_carried found),
    )
