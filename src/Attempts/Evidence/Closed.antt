-- ===== src/Attempts/Evidence/Closed.antt =====
-- The transactions write into the row of a running attempt only.
use haniel.Prelude.{
  ℕ, ◌≡◌, refl, ap, ◌∙◌, String, Bool, true, false, Option, none, some, List, arith, count, eqb,
  if◌then◌else◌, Bool-cases, inl, inr, ◌==◌,
}
use haniel.Retry.Messages.{Proposal}
use haniel.Attempts.Table.{find, both, updated, find-update, find-before}
use haniel.Attempts.Rows.{is_pending, Event, ProbeRow, Terminal, Outcome, Attempt, Db, Clock}
use haniel.Attempts.Support.{
  owns, has_id, is_attempt, is_running, attempt_of, cleanup_retry, close_probes,
  terminalize_sibling_probes,
}
use haniel.Attempts.Transitions.{
  Begin, new_attempt, admits, insert_attempt, approve_event, move_event, set_attempts,
  succeed_event, close_attempt, is_active_row, success_unlocked, reject_superseded, end_superseded,
  fail_attempt_unlocked,
}
use haniel.Attempts.Reports.{write_result, write_settled, renewed_to}
use haniel.Attempts.Calls.{Call, run}
use haniel.Attempts.NodeReports.{node_success, supersede_attempts, settle_event, node_reopen}
use haniel.Attempts.Rule.{OnReturn, IsKept}
use haniel.Attempts.Rule.Runs.{run_keeps}
use haniel.Attempts.Ownership.Ends.{closed_by, fail_rule}
use haniel.Attempts.Evidence.Sound.{same_row, end_latest-attempts}

renewed_id :
    (at : String) (n : Option ℕ) (a : Attempt)
    → (renewed_to at n a).orchestrator_attempt_id ≡ a.orchestrator_attempt_id
unfolding renewed_to
renewed_id at n a = refl

-- The row of a closed attempt stands in the tables.
module _ (k : String) (s : Attempt) (closed : is_running s ≡ false) where
  abbrev Stands : Db → Type 0
  Stands db = attempt_of db k ≡ some s

  update-Stands :
      (p : Attempt → Bool) (g : Attempt → Attempt) (db : Db)
      → ((a : Attempt) → (g a).orchestrator_attempt_id ≡ a.orchestrator_attempt_id)
      → p s ≡ false
      → Stands db
      → Stands (set_attempts p g db)
  unfolding set_attempts attempt_of updated
  update-Stands p g db ids skips h =
      find-update p (is_attempt k) g db.deploy_attempts (λ x. ap (λ i. i == k) (ids x))
      ∙ (ap (updated p g) h ∙ ap (λ b. some (if b then g s else s)) skips)

  skips_closed : (j : String) → is_active_row j s ≡ false
  skips_closed j = ground (arith, closed)

  skips_owner : (d : String) → owns d s ≡ false
  skips_owner d = ground (arith, closed)

  report-Stands :
      (j : String) (g : Attempt → Attempt) (a : Attempt) (db : Db)
      → ((x : Attempt) → (g x).orchestrator_attempt_id ≡ x.orchestrator_attempt_id)
      → attempt_of db j ≡ some a
      → is_running a ≡ true
      → Stands db
      → Stands (set_attempts (is_attempt j) g db)
  report-Stands j g a db ids stored live h =
      update-Stands (is_attempt j) g db ids
        (elim (Bool-cases (is_attempt j s)) [
          | inl t ↦ ground (arith, closed, live, ap is_running (same_row db k j s a stored h t))
          | inr t ↦ t
        ])
        h

  begins-Stands :
      (clock : Clock) (e : Event) (b : Begin) (from : Option (ProbeRow × Proposal)) (db : Db)
      → Stands db
      → OnReturn Stands (insert_attempt clock e b from db)
  unfolding insert_attempt approve_event move_event attempt_of
  begins-Stands clock e b from db h =
      elim (Bool-cases (admits db.deploy_attempts (new_attempt clock.now_iso b from e))) [
        | inl t ↦
            elim (Bool-cases (
              eqb (count (both (has_id e.deploy_id) (λ x. is_pending x.status)) db.deploy_events)
                1)) [
                  | inl u ↦ rw t (
                      rw u (
                        find-before (is_attempt k) db.deploy_attempts
                          (new_attempt clock.now_iso b from e) s h))
                  | inr u ↦ rw t (rw u tt)
                ]
        | inr t ↦ rw t tt
      ]

  close-Stands :
      (clock : Clock) (j : String) (o : Outcome) (t : Option Terminal) (db : Db)
      → Stands db
      → Stands (close_attempt clock j o t db)
  unfolding close_attempt
  close-Stands clock j o t db h = update-Stands _ _ db (λ x. refl) (skips_closed j) h

  success-Stands :
      (clock : Clock) (a : Attempt) (o : Outcome) (db : Db)
      → Stands db
      → Stands (success_unlocked clock a o db).1
  unfolding success_unlocked terminalize_sibling_probes close_probes cleanup_retry succeed_event
      move_event attempt_of
  success-Stands clock a o db h =
      elim (Bool-cases
        (eqb (count (is_active_row a.orchestrator_attempt_id) db.deploy_attempts) 1)) [
          | inl t ↦ rw t (close-Stands clock a.orchestrator_attempt_id o none db h)
          | inr t ↦ rw t h
        ]

  superseded-Stands :
      (clock : Clock) (a : Attempt) (db : Db) → Stands db → Stands (end_superseded clock a db)
  unfolding end_superseded terminalize_sibling_probes close_probes cleanup_retry reject_superseded
      move_event attempt_of
  superseded-Stands clock a db h = h

  fail-Stands :
      (clock : Clock) (a : Attempt) (t : Terminal) (db : Db)
      → Stands db
      → Stands (fail_attempt_unlocked clock a t db).1
  unfolding attempt_of
  fail-Stands clock a t db h =
      let c = close-Stands clock a.orchestrator_attempt_id Outcome.failed (some t) db h in
      fail_rule clock a t db (λ r. Stands r.1) (λ u. h) (λ u e. c)
        (λ e u x l. superseded-Stands clock a (closed_by clock a t db) c)
        (λ e u x l.
          ap (find (is_attempt k)) (end_latest-attempts clock a (closed_by clock a t db)) ∙ c)

  Stands-IsKept : IsKept Stands
  unfolding write_result write_settled cleanup_retry attempt_of node_success supersede_attempts
      settle_event node_reopen move_event close_probes
  Stands-IsKept = record {
    begins = λ clock e b from db found h. begins-Stands clock e b from db h;
    completes = λ clock a db stored ready h. success-Stands clock a Outcome.success db h;
    recovers = λ clock a v db stored mode none h.
        success-Stands clock a Outcome.evidence_recovered_success db h;
    fails = λ clock a t db snapshot h. fail-Stands clock a t db h;
    reports = λ j s e n a db stored live h. report-Stands j _ a db (λ x. refl) stored live h;
    settles = λ clock j l r a db stored live h. report-Stands j _ a db (λ x. refl) stored live h;
    renews = λ j at n db h.
        update-Stands (is_active_row j) (renewed_to at n) db (renewed_id at n) (skips_closed j) h;
    probes = λ rows db h. h;
    closes = λ p f db keeps from to h. h;
    creates = λ clock c db fresh h. h;
    cleans = λ d db h. h;
    node_rows = λ rows db h. h;
    node_succeeds = λ clock d n db h. update-Stands (owns d) _ db (λ x. refl) (skips_owner d) h;
    node_reopens = λ clock d db none_here h. h;
  }

-- Once an attempt's outcome is set, no sequence of the store's transactions changes any column of its
-- row: a late result, a late receipt, a renewed lease or an expired deadline finds it closed.
pub run-keeps_closed :
    (calls : List (Clock × Call)) (db : Db) (k : String) (s : Attempt)
    → attempt_of db k ≡ some s
    → is_running s ≡ false
    → attempt_of (run calls db) k ≡ some s
run-keeps_closed calls db k s h closed =
    run_keeps (Stands k s closed) (Stands-IsKept k s closed) calls db h
