-- ===== src/Attempts/Failure.antt =====
-- What the end of an attempt leaves behind, by `_fail_attempt_unlocked` of
-- orch-server/src/haniel_orch/deploy_attempt_store_support.py, and what the store then refuses.
use haniel.Prelude.{
  ◌≡◌, ◌≢◌, ◌≤◌, refl, sym, ap, ◌∙◌, String, true, false, Option, none, some, List, [], ◌∷◌, map,
  arith, eq_refl, count, contains, eqb, ltb, if◌then◌else◌, Bool-cases, inl, inr, ◌==◌,
}
use mathlib.Core.Path.{subst}
use mathlib.Core.Option.{some-injective}
use haniel.Attempts.Table.{
  find, select, both, updated, find-holds, find-none, find-counted, find-both, find-update,
  find-append, count-both,
}
use haniel.Attempts.Rows.{
  pending, is_deploying, Event, Terminal, Attempt, Requirement, SourceAttempt, Db, Clock,
}
use haniel.Attempts.Support.{
  has_id, is_attempt, is_running, event, attempt_of, retry_of, lineage_of, is_latest, latest_id,
  close_probes, terminalize_sibling_probes, requires, insert_by_time, by_time,
}
use haniel.Attempts.Transitions.{
  move_event, set_attempts, close_attempt, is_active_row, reopen_event, stable_source,
  upsert_requirement, require_retry, add_source, is_source, end_latest, fail_attempt_unlocked,
}
use haniel.Attempts.Ownership.{count-added}
use haniel.Attempts.Ownership.Ends.{Inv, closed_by, snapshot-deploying, fail_rule}
use haniel.Attempts.Lifecycle.{status_of, status_in}
use haniel.Attempts.Lifecycle.Refines.{add_source-events}

pub false-true : false ≢ true
false-true h = cc

none-some : (e : Event) → none ≢ some e
none-some e h = ground arith

-- The state of a deploy whose latest attempt has failed.
pub record IsMarked (clock : Clock) (db : Db) (d k : String) : Type 0 where
  pub at_pending : status_of db.deploy_events d ≡ some pending
  pub marker : Requirement
  pub marked : retry_of db d ≡ some marker
  pub last : marker.last_failed_orchestrator_attempt_id ≡ k
  pub listed : contains k (lineage_of clock db d) ≡ true

-- The row of a running attempt is the one row that its id and `active` select.
pub one_row :
    (db : Db) (a : Attempt)
    → Inv db
    → attempt_of db a.orchestrator_attempt_id ≡ some a
    → is_running a ≡ true
    → eqb (count (is_active_row a.orchestrator_attempt_id) db.deploy_attempts) 1 ≡ true
unfolding attempt_of
one_row db a o stored live =
    let k = a.orchestrator_attempt_id in
    ground (
      arith,
      o.attempt_ids k,
      count-both (is_attempt k) is_running db.deploy_attempts,
      find-counted (is_active_row k) (is_active_row k) db.deploy_attempts a
          (find-both (is_attempt k) is_running db.deploy_attempts a stored live)
          (ground (arith, live, eq_refl k)),
    )

-- Reopening the event that an attempt held.
reopened :
    (clock : Clock) (a : Attempt) (e : Event) (t : Terminal) (db : Db)
    → event db a.deploy_id ≡ some e
    → is_deploying e.status ≡ true
    → status_of (end_latest clock a (closed_by clock a t db)).deploy_events a.deploy_id
      ≡ some pending
unfolding end_latest terminalize_sibling_probes close_probes require_retry reopen_event move_event
    close_attempt set_attempts status_of event updated
reopened clock a e t db found held =
    let d = a.deploy_id in
    let p = both (has_id d) (λ x. is_deploying x.status) in
    let f : Event → Event = λ x. record x {
      status = pending;
      approved_by = none;
      error = none;
      duration_ms = none;
      updated_at = clock.now_iso;
    } in
    let mine : p e ≡ true = ground (arith, held, find-holds (has_id d) db.deploy_events e found) in
    ap (λ es. status_in (find (has_id d) es))
      (add_source-events clock a
        (require_retry clock a (reopen_event clock d (closed_by clock a t db))))
    ∙ (ap status_in
          (find-update p (has_id d) f db.deploy_events (λ x. refl) ∙ ap (updated p f) found)
        ∙ ap (λ b. some (if b then f e else e).status) mine)

upserted :
    (clock : Clock) (a : Attempt) (o : Option Requirement) (rows : List Requirement)
    → find (requires a.deploy_id) rows ≡ o
    → (r : Requirement) × (find (requires a.deploy_id) (upsert_requirement clock a o rows) ≡ some r)
      × (r.last_failed_orchestrator_attempt_id ≡ a.orchestrator_attempt_id)
unfolding upsert_requirement updated
upserted clock a none rows e = (
  _,
  find-append (requires a.deploy_id) rows _ (find-none (requires a.deploy_id) rows e)
      (eq_refl a.deploy_id),
  refl,
)
upserted clock a (some r) rows e =
    let new : Requirement → Requirement = λ x. record x {
      source_orchestrator_attempt_id = stable_source a (some r);
      last_failed_orchestrator_attempt_id = a.orchestrator_attempt_id;
      updated_at = clock.now_iso;
    } in
    (
      new r,
      find-update (requires a.deploy_id) (requires a.deploy_id) new rows (λ x. refl)
          ∙ (ap (updated (requires a.deploy_id) new) e
              ∙ ap (λ b. some (if b then new r else r))
                  (find-holds (requires a.deploy_id) rows r e)),
      refl,
    )

required :
    (clock : Clock) (a : Attempt) (db : Db)
    → (r : Requirement) × (retry_of (require_retry clock a db) a.deploy_id ≡ some r)
      × (r.last_failed_orchestrator_attempt_id ≡ a.orchestrator_attempt_id)
unfolding require_retry retry_of
required clock a db = upserted clock a (retry_of db a.deploy_id) db.deploy_retry_requirements refl

add_source-requirements :
    (clock : Clock) (a : Attempt) (db : Db)
    → (add_source clock a db).deploy_retry_requirements ≡ db.deploy_retry_requirements
unfolding add_source
add_source-requirements clock a db =
    elim (Bool-cases (
      ltb 0 (
        count (is_source a.deploy_id a.orchestrator_attempt_id) db.deploy_retry_source_attempts))) [
          | inl t ↦ rw t refl
          | inr t ↦ rw t refl
        ]

marker_of :
    (clock : Clock) (a : Attempt) (db : Db)
    → (r : Requirement) × (retry_of (end_latest clock a db) a.deploy_id ≡ some r)
      × (r.last_failed_orchestrator_attempt_id ≡ a.orchestrator_attempt_id)
unfolding end_latest terminalize_sibling_probes close_probes retry_of
marker_of clock a db =
    let after = reopen_event clock a.deploy_id db in
    let m = required clock a after in
    (
      m.0,
      ap (find (requires a.deploy_id))
            (add_source-requirements clock a (require_retry clock a after))
          ∙ m.1,
      m.2,
    )

abbrev source_ids : List SourceAttempt → List String
source_ids rows = map (λ s. s.lineage_orchestrator_attempt_id) rows

-- Sorting keeps the ids.
contains-insert :
    (clock : Clock) (k : String) (x : SourceAttempt) (xs : List SourceAttempt)
    → contains k (source_ids (insert_by_time clock x xs)) ≡ contains k (source_ids (x ∷ xs))
unfolding insert_by_time
contains-insert clock k x [] = refl
contains-insert clock k x (y ∷ ys) = elim (Bool-cases (clock.above x.added_at y.added_at)) [
  | inl t ↦ rw t (ground (arith, contains-insert clock k x ys))
  | inr t ↦ rw t refl
]

contains-by_time :
    (clock : Clock) (k : String) (xs : List SourceAttempt)
    → contains k (source_ids (by_time clock xs)) ≡ contains k (source_ids xs)
unfolding by_time
contains-by_time clock k [] = refl
contains-by_time clock k (x ∷ xs) =
    contains-insert clock k x (by_time clock xs) ∙ ground (arith, contains-by_time clock k xs)

-- A source attempt that the table counts is in the lineage.
counted-selected :
    (d k : String) (rows : List SourceAttempt)
    → 1 ≤ count (is_source d k) rows
    → contains k (source_ids (select (λ s. s.deploy_id == d) rows)) ≡ true
unfolding select
counted-selected d k [] h = ground arith
counted-selected d k (x ∷ xs) h = ground (arith, counted-selected d k xs)

counted-listed :
    (clock : Clock) (d k : String) (rows : List SourceAttempt)
    → 1 ≤ count (is_source d k) rows
    → contains k (source_ids (by_time clock (select (λ s. s.deploy_id == d) rows))) ≡ true
counted-listed clock d k rows h =
    contains-by_time clock k (select (λ s. s.deploy_id == d) rows) ∙ counted-selected d k rows h

listed_of :
    (clock : Clock) (a : Attempt) (db : Db)
    → contains a.orchestrator_attempt_id (lineage_of clock (end_latest clock a db) a.deploy_id)
      ≡ true
unfolding end_latest terminalize_sibling_probes close_probes lineage_of add_source
listed_of clock a db =
    let after = require_retry clock a (reopen_event clock a.deploy_id db) in
    elim (Bool-cases (
      ltb 0 (
        count (is_source a.deploy_id a.orchestrator_attempt_id)
          after.deploy_retry_source_attempts))) [
            | inl t ↦
                rw t
                  (counted-listed clock a.deploy_id a.orchestrator_attempt_id _ (ground (arith, t)))
            | inr t ↦ rw t (
                counted-listed clock a.deploy_id a.orchestrator_attempt_id _ (
                  ground (
                    arith,
                    eq_refl a.deploy_id,
                    eq_refl a.orchestrator_attempt_id,
                    count-added (is_source a.deploy_id a.orchestrator_attempt_id)
                        db.deploy_retry_source_attempts
                        (record {
                          deploy_id = a.deploy_id;
                          lineage_orchestrator_attempt_id = a.orchestrator_attempt_id;
                          added_at = clock.now_iso;
                        }),
                  )))
          ]

-- In tables whose owners are in order (ids are unique, and a deploy is deploying if and only if it has
-- its one active attempt): when an active attempt of the latest deploy of its branch ends in failure,
-- its deploy is pending again and bears a retry marker that names the attempt, which is also in the
-- retry lineage.
pub fail-IsMarked :
    (clock : Clock) (a : Attempt) (e : Event) (t : Terminal) (db : Db)
    → Inv db
    → attempt_of db a.orchestrator_attempt_id ≡ some a
    → is_running a ≡ true
    → event db a.deploy_id ≡ some e
    → is_latest clock db (some e) ≡ true
    → IsMarked clock (fail_attempt_unlocked clock a t db).1 a.deploy_id a.orchestrator_attempt_id
unfolding close_attempt set_attempts event is_latest latest_id attempt_of
fail-IsMarked clock a e t db o stored live found latest =
    let held =
      snapshot-deploying db a e o (record { row = a; found = stored; of = refl }) live found in
    let m = marker_of clock a (closed_by clock a t db) in
    fail_rule clock a t db (λ r. IsMarked clock r.1 a.deploy_id a.orchestrator_attempt_id)
      (λ u. elim (false-true (sym u ∙ one_row db a o stored live)) [ ])
      (λ u n. elim (none-some e (sym n ∙ found)) [ ])
      (λ x u y l.
        elim (false-true (
          sym (
            subst (λ z. is_latest clock db (some z) ≡ false) (some-injective x e (sym y ∙ found)) l)
          ∙ latest)) [ ])
      (λ x u y l. record {
        at_pending = reopened clock a e t db found held;
        marker = m.0;
        marked = m.1;
        last = m.2;
        listed = listed_of clock a (closed_by clock a t db);
      })
