-- ===== src/Attempts/Evidence/Sound.antt =====
-- The transactions write a success only on its evidence.
use haniel.Prelude.{
  ◌≡◌, refl, sym, ap, ◌∙◌, ◌&&◌, String, Bool, true, Option, none, some, List, [], ◌∷◌, ◌++◌, arith,
  eq_iff, count, eqb, ltb, Bool-cases, inl, inr,
}
use mathlib.Core.Path.{subst}
use mathlib.Core.Option.{some-injective}
use haniel.Retry.Messages.{Proposal}
use haniel.Attempts.Table.{find, both, find-holds}
use haniel.Attempts.Rows.{
  is_pending, Event, ProbeRow, Terminal, Outcome, is_active, Attempt, Db, Clock, empty,
}
use haniel.Attempts.Support.{
  owns, has_id, is_attempt, is_running, attempt_of, cleanup_retry, close_probes,
  terminalize_sibling_probes,
}
use haniel.Attempts.Transitions.{
  Begin, new_attempt, admits, insert_attempt, approve_event, move_event, set_attempts,
  succeed_event, close_attempt, is_active_row, is_ready, success_unlocked, reject_superseded,
  reopen_event, require_retry, add_source, is_source, end_superseded, end_latest,
  fail_attempt_unlocked,
}
use haniel.Attempts.Reports.{write_result, write_settled, renewed_to}
use haniel.Attempts.Calls.{Call, run}
use haniel.Attempts.NodeReports.{node_success, supersede_attempts, settle_event, node_reopen}
use haniel.Attempts.Rule.{OnReturn, IsKept}
use haniel.Attempts.Rule.Runs.{run_keeps}
use haniel.Attempts.Ownership.Ends.{closed_by, fail_rule}
use haniel.Attempts.Evidence.{
  shown, is_justified, IsSound, holds_of, update-IsSound, append-IsSound,
}

-- The row that an id finds is the one that a test of the id holds on.
pub same_row :
    (db : Db) (j k : String) (x a : Attempt)
    → attempt_of db k ≡ some a
    → attempt_of db j ≡ some x
    → is_attempt k x ≡ true
    → x ≡ a
unfolding attempt_of
same_row db j k x a one two is = some-injective x a (
    sym two
    ∙ (ap (λ i. find (is_attempt i) db.deploy_attempts)
          (sym (
              (eq_iff x.orchestrator_attempt_id j).0
                (find-holds (is_attempt j) db.deploy_attempts x two))
            ∙ (eq_iff x.orchestrator_attempt_id k).0 is)
        ∙ one))

-- A test of a row that it is, by its id, the row of `a`.
first_true : (b c : Bool) → (b && c) ≡ true → b ≡ true
first_true b c h = ground arith

active-shown : (o : Outcome) (r e : Bool) → is_active o ≡ true → shown o r e ≡ true
active-shown Outcome.active r e h = refl
active-shown Outcome.success r e h = ground arith
active-shown Outcome.evidence_recovered_success r e h = ground arith
active-shown Outcome.failed r e h = ground arith
active-shown Outcome.superseded r e h = ground arith

succeeded-IsSound :
    (clock : Clock) (a : Attempt) (o : Outcome) (db : Db)
    → attempt_of db a.orchestrator_attempt_id ≡ some a
    → is_justified (record a { outcome = o }) ≡ true
    → IsSound db
    → IsSound (
        terminalize_sibling_probes clock a.deploy_id "canonical succeeded before this probe began" (
          cleanup_retry a.deploy_id
            (succeed_event clock a (close_attempt clock a.orchestrator_attempt_id o none db))))
unfolding terminalize_sibling_probes close_probes cleanup_retry succeed_event move_event
    close_attempt attempt_of is_justified is_ready
succeeded-IsSound clock a o db stored fit h = record {
  justified =
      (update-IsSound _ _ db (λ x. refl)
        (λ k x e t j.
          subst (λ y. is_justified (record y { outcome = o }) ≡ true)
            (sym (
              same_row db k a.orchestrator_attempt_id x a stored e
                (first_true (is_attempt a.orchestrator_attempt_id x) (is_running x) t)))
            fit)
        h).justified;
}

end_superseded-IsSound :
    (clock : Clock) (a : Attempt) (db : Db) → IsSound db → IsSound (end_superseded clock a db)
unfolding end_superseded terminalize_sibling_probes close_probes cleanup_retry reject_superseded
    move_event attempt_of
end_superseded-IsSound clock a db h = record { justified = h.justified }

add_source-attempts :
    (clock : Clock) (a : Attempt) (db : Db)
    → (add_source clock a db).deploy_attempts ≡ db.deploy_attempts
unfolding add_source
add_source-attempts clock a db =
    elim (Bool-cases (
      ltb 0 (
        count (is_source a.deploy_id a.orchestrator_attempt_id) db.deploy_retry_source_attempts))) [
          | inl t ↦ rw t refl
          | inr t ↦ rw t refl
        ]

pub end_latest-attempts :
    (clock : Clock) (a : Attempt) (db : Db)
    → (end_latest clock a db).deploy_attempts ≡ db.deploy_attempts
unfolding end_latest terminalize_sibling_probes close_probes require_retry reopen_event move_event
end_latest-attempts clock a db =
    add_source-attempts clock a (require_retry clock a (reopen_event clock a.deploy_id db))

end_latest-IsSound :
    (clock : Clock) (a : Attempt) (db : Db) → IsSound db → IsSound (end_latest clock a db)
unfolding attempt_of
end_latest-IsSound clock a db h = record {
  justified = λ k.
      ap (λ rows. holds_of is_justified (find (is_attempt k) rows)) (end_latest-attempts clock a db)
      ∙ h.justified k;
}

success-IsSound :
    (clock : Clock) (a : Attempt) (o : Outcome) (db : Db)
    → attempt_of db a.orchestrator_attempt_id ≡ some a
    → is_justified (record a { outcome = o }) ≡ true
    → IsSound db
    → IsSound (success_unlocked clock a o db).1
unfolding success_unlocked
success-IsSound clock a o db stored fit h =
    elim (Bool-cases (eqb (count (is_active_row a.orchestrator_attempt_id) db.deploy_attempts) 1)) [
      | inl t ↦ rw t (succeeded-IsSound clock a o db stored fit h)
      | inr t ↦ rw t h
    ]

fail-IsSound :
    (clock : Clock) (a : Attempt) (t : Terminal) (db : Db)
    → IsSound db
    → IsSound (fail_attempt_unlocked clock a t db).1
unfolding close_attempt is_justified
fail-IsSound clock a t db h =
    let closed : IsSound (closed_by clock a t db) =
      update-IsSound _ _ db (λ x. refl) (λ k x e u j. refl) h in
    fail_rule clock a t db (λ r. IsSound r.1) (λ u. h) (λ u e. closed)
      (λ e u x l. end_superseded-IsSound clock a (closed_by clock a t db) closed)
      (λ e u x l. end_latest-IsSound clock a (closed_by clock a t db) closed)

begun-IsSound :
    (clock : Clock) (e : Event) (b : Begin) (from : Option (ProbeRow × Proposal)) (db : Db)
    → IsSound db
    → IsSound (
        approve_event clock e.deploy_id b (record db {
          deploy_attempts = db.deploy_attempts ++ new_attempt clock.now_iso b from e ∷ [];
        }))
unfolding approve_event move_event attempt_of is_justified new_attempt
begun-IsSound clock e b from db h = record {
  justified = (append-IsSound db (new_attempt clock.now_iso b from e) refl h).justified;
}

empty-IsSound : IsSound empty
unfolding attempt_of find
empty-IsSound = record { justified = λ k. refl }

begins-IsSound :
    (clock : Clock) (e : Event) (b : Begin) (from : Option (ProbeRow × Proposal)) (db : Db)
    → IsSound db
    → OnReturn IsSound (insert_attempt clock e b from db)
unfolding insert_attempt
begins-IsSound clock e b from db h =
    elim (Bool-cases (admits db.deploy_attempts (new_attempt clock.now_iso b from e))) [
      | inl t ↦
          elim (Bool-cases (
            eqb (count (both (has_id e.deploy_id) (λ x. is_pending x.status)) db.deploy_events)
              1)) [
                | inl u ↦ rw t (rw u (begun-IsSound clock e b from db h))
                | inr u ↦ rw t (rw u tt)
              ]
      | inr t ↦ rw t tt
    ]

-- A report writes into the row of a running attempt.
report-IsSound :
    (k : String) (g : Attempt → Attempt) (a : Attempt) (db : Db)
    → ((x : Attempt) → (g x).orchestrator_attempt_id ≡ x.orchestrator_attempt_id)
    → ((x : Attempt) → (g x).outcome ≡ x.outcome)
    → attempt_of db k ≡ some a
    → is_running a ≡ true
    → IsSound db
    → IsSound (set_attempts (is_attempt k) g db)
unfolding is_justified
report-IsSound k g a db ids same stored live h =
    update-IsSound (is_attempt k) g db ids
      (λ j x e t u. active-shown (g x).outcome _ _ (
        ap is_active (same x)
        ∙ (ap (λ y. is_active y.outcome) (same_row db j k x a stored e t) ∙ live)))
      h

pub IsSound-IsKept : IsKept IsSound
unfolding write_result write_settled is_justified is_ready renewed_to cleanup_retry attempt_of
    node_success supersede_attempts settle_event node_reopen move_event close_probes
IsSound-IsKept = record {
  begins = λ clock e b from db found h. begins-IsSound clock e b from db h;
  completes =
      λ clock a db stored ready h. success-IsSound clock a Outcome.success db stored ready h;
  recovers = λ clock a v db stored mode none h.
      success-IsSound clock a Outcome.evidence_recovered_success db stored mode h;
  fails = λ clock a t db snapshot h. fail-IsSound clock a t db h;
  reports =
      λ k s e n a db stored live h. report-IsSound k _ a db (λ x. refl) (λ x. refl) stored live h;
  settles = λ clock k l r a db stored live h.
      report-IsSound k _ a db (λ x. refl) (λ x. refl) stored live h;
  renews = λ k at n db h. update-IsSound (is_active_row k) _ db (λ x. refl) (λ j x e t u. u) h;
  probes = λ rows db h. record { justified = h.justified };
  closes = λ p f db keeps from to h. record { justified = h.justified };
  creates = λ clock c db fresh h. record { justified = h.justified };
  cleans = λ d db h. record { justified = h.justified };
  node_rows = λ rows db h. record { justified = h.justified };
  node_succeeds = λ clock d n db h. record {
    justified = (update-IsSound (owns d) _ db (λ x. refl) (λ j x e t u. refl) h).justified;
  };
  node_reopens = λ clock d db none_here h. record { justified = h.justified };
}

-- In every store that its transactions have made from its creation, an attempt whose outcome is a
-- success has reported success and has settled with both heads at its target, and one whose outcome
-- is a success recovered from evidence was begun as a recovery.
pub run-justified :
    (calls : List (Clock × Call)) (k : String) (a : Attempt)
    → attempt_of (run calls empty) k ≡ some a
    → is_justified a ≡ true
run-justified calls k a e =
    sym (ap (holds_of is_justified) e)
    ∙ (run_keeps IsSound IsSound-IsKept calls empty empty-IsSound).justified k
