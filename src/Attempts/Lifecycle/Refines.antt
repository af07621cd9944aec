-- ===== src/Attempts/Lifecycle/Refines.antt =====
-- The transactions of the store against the machine of deploys.
use haniel.Prelude.{
  ℕ, ◌≡◌, refl, sym, ap, ◌∙◌, String, true, Option, some, List, [], ◌∷◌, ◌++◌, arith, count, eqb,
  ltb, Bool-cases, inl, inr, eq_iff,
}
use mathlib.Core.Path.{subst}
use haniel.Retry.Messages.{Proposal}
use haniel.Attempts.Table.{find, both, find-holds}
use haniel.Attempts.Rows.{
  succeeded, Status, is_pending, is_deploying, Event, ProbeRow, Terminal, Outcome, Attempt, Db,
  Clock,
}
use haniel.Attempts.Support.{has_id, event, cleanup_retry, close_probes, terminalize_sibling_probes}
use haniel.Attempts.Transitions.{
  Begin, new_attempt, admits, move_event, set_attempts, approve_event, insert_attempt,
  succeed_event, close_attempt, is_active_row, success_unlocked, reject_superseded, reopen_event,
  require_retry, add_source, is_source, end_superseded, end_latest, fail_attempt_unlocked,
}
use haniel.Attempts.Reports.{write_result, write_settled}
use haniel.Attempts.Events.{new_event, is_closing}
use haniel.Attempts.NodeReports.{
  is_unsettled, node_success, supersede_attempts, settle_event, node_reopen,
}
use haniel.Attempts.Rule.{OnReturn, IsSnapshot, IsKept}
use haniel.Attempts.Ownership.Ends.{
  Inv, Inv-IsKept, begun-Inv, closed_by, row_runs, snapshot-deploying, fail_rule,
}
use haniel.Attempts.Lifecycle.{
  Moves, rejects, resolves, onward, status_of, Reaches, here, from_pending, from_deploying,
  closing_move, drops, begins, completes, reopens, update-Reaches, append-Reaches,
}

-- From the tables `old` on, each deploy has moved as the machine does.
pub record Refines (old db : Db) : Type 0 where
  pub owned : Inv db
  pub reached :
      (d : String) → Reaches (status_of old.deploy_events d) (status_of db.deploy_events d)

pub add_source-events :
    (clock : Clock) (a : Attempt) (db : Db)
    → (add_source clock a db).deploy_events ≡ db.deploy_events
unfolding add_source
add_source-events clock a db =
    elim (Bool-cases (
      ltb 0 (
        count (is_source a.deploy_id a.orchestrator_attempt_id) db.deploy_retry_source_attempts))) [
          | inl t ↦ rw t refl
          | inr t ↦ rw t refl
        ]

from_unsettled : (s : Status) → is_unsettled s ≡ true → Moves (some s) (some succeeded)
from_unsettled s h = elim (Bool-cases (is_pending s)) [
  | inl t ↦ from_pending s _ t resolves
  | inr t ↦ from_deploying s _ (ground (arith, h, t)) completes
]

module _ (old : Db) where
  begun-Reaches :
      (clock : Clock) (e : Event) (b : Begin) (db : Db) (rows : List Attempt) (d : String)
      → Refines old db
      → Reaches (status_of old.deploy_events d) (
          status_of
            (approve_event clock e.deploy_id b (record db { deploy_attempts = rows })).deploy_events
            d)
  unfolding approve_event move_event
  begun-Reaches clock e b db rows d r =
      update-Reaches _ _ db.deploy_events d _ (λ x. refl)
        (λ x y h. from_pending x.status _ (ground (arith, h)) begins) (r.reached d)

  begins-Refines :
      (clock : Clock) (e : Event) (b : Begin) (from : Option (ProbeRow × Proposal)) (db : Db)
      → event db e.deploy_id ≡ some e
      → Refines old db
      → OnReturn (Refines old) (insert_attempt clock e b from db)
  unfolding insert_attempt
  begins-Refines clock e b from db found r =
      elim (Bool-cases (admits db.deploy_attempts (new_attempt clock.now_iso b from e))) [
        | inl t ↦
            elim (Bool-cases (
              eqb (count (both (has_id e.deploy_id) (λ x. is_pending x.status)) db.deploy_events)
                1)) [
                  | inl u ↦ rw t (
                      rw u (record {
                        owned = begun-Inv clock e b from db t u r.owned;
                        reached = λ d.
                            begun-Reaches clock e b db
                              (db.deploy_attempts ++ new_attempt clock.now_iso b from e ∷ []) d r;
                      }))
                  | inr u ↦ rw t (rw u tt)
                ]
        | inr t ↦ rw t tt
      ]

  success-Refines :
      (clock : Clock) (a : Attempt) (o : Outcome) (db : Db)
      → Inv (success_unlocked clock a o db).1
      → Refines old db
      → Refines old (success_unlocked clock a o db).1
  unfolding success_unlocked succeed_event close_attempt move_event set_attempts cleanup_retry
      terminalize_sibling_probes close_probes
  success-Refines clock a o db owned r =
      elim (Bool-cases
        (eqb (count (is_active_row a.orchestrator_attempt_id) db.deploy_attempts) 1)) [
          | inl t ↦ record {
            owned = owned;
            reached = rw t (λ d.
                update-Reaches _ _ db.deploy_events d _ (λ e. refl)
                  (λ e x h. from_deploying e.status _ (ground (arith, h)) completes) (r.reached d));
          }
          | inr t ↦ record { owned = owned; reached = rw t r.reached }
        ]

  end_superseded-Reaches :
      (clock : Clock) (a : Attempt) (t : Terminal) (db : Db) (d : String)
      → ((e : Event)
          → find (has_id a.deploy_id) db.deploy_events ≡ some e
          → is_deploying e.status ≡ true)
      → Refines old db
      → Reaches
          (status_of old.deploy_events d)
          (status_of (end_superseded clock a (closed_by clock a t db)).deploy_events d)
  unfolding close_attempt set_attempts reject_superseded move_event end_superseded cleanup_retry
      terminalize_sibling_probes close_probes
  end_superseded-Reaches clock a t db d live r =
      update-Reaches _ _ db.deploy_events d _ (λ e. refl)
        (λ e x h.
          from_deploying e.status _
            (live e (
              ap (λ i. find (has_id i) db.deploy_events)
                (sym ((eq_iff e.deploy_id a.deploy_id).0 (ground (arith, h)))
                  ∙ (eq_iff e.deploy_id d).0 (find-holds (has_id d) db.deploy_events e x))
              ∙ x))
            drops)
        (r.reached d)

  end_latest-Reaches :
      (clock : Clock) (a : Attempt) (t : Terminal) (db : Db) (d : String)
      → Refines old db
      → Reaches
          (status_of old.deploy_events d)
          (status_of (end_latest clock a (closed_by clock a t db)).deploy_events d)
  unfolding close_attempt set_attempts reopen_event move_event end_latest require_retry
      terminalize_sibling_probes close_probes
  end_latest-Reaches clock a t db d r =
      subst (λ es. Reaches (status_of old.deploy_events d) (status_of es d))
        (sym (
          add_source-events clock a
            (require_retry clock a (reopen_event clock a.deploy_id (closed_by clock a t db)))))
        (update-Reaches _ _ db.deploy_events d _ (λ e. refl)
          (λ e x h. from_deploying e.status _ (ground (arith, h)) reopens) (r.reached d))

  fails-Refines :
      (clock : Clock) (a : Attempt) (t : Terminal) (db : Db)
      → IsSnapshot db a
      → Refines old db
      → Refines old (fail_attempt_unlocked clock a t db).1
  unfolding close_attempt set_attempts
  fails-Refines clock a t db h r = record {
    owned = Inv-IsKept.fails clock a t db h r.owned;
    reached = λ d.
        fail_rule clock a t db
          (λ x. Reaches (status_of old.deploy_events d) (status_of x.1.deploy_events d))
          (λ u. r.reached d) (λ u e. r.reached d)
          (λ e u x l.
            end_superseded-Reaches clock a t db d
              (λ y z. snapshot-deploying db a y r.owned h (row_runs db a r.owned h u) z) r)
          (λ e u x l. end_latest-Reaches clock a t db d r);
  }

  node_success-Reaches :
      (clock : Clock) (d : String) (n : Option ℕ) (db : Db) (j : String)
      → Refines old db
      → Reaches
          (status_of old.deploy_events j)
          (status_of (node_success clock d n db).deploy_events j)
  unfolding node_success supersede_attempts settle_event set_attempts move_event close_probes
      cleanup_retry
  node_success-Reaches clock d n db j r =
      update-Reaches _ _ db.deploy_events j _ (λ e. refl)
        (λ e x h. from_unsettled e.status (ground (arith, h))) (r.reached j)

  node_reopen-Reaches :
      (clock : Clock) (d : String) (db : Db) (j : String)
      → Refines old db
      → Reaches (status_of old.deploy_events j) (status_of (node_reopen clock d db).deploy_events j)
  unfolding node_reopen move_event
  node_reopen-Reaches clock d db j r =
      update-Reaches _ _ db.deploy_events j _ (λ e. refl)
        (λ e x h. from_deploying e.status _ (ground (arith, h)) reopens) (r.reached j)

  pub Refines-IsKept : IsKept (Refines old)
  unfolding write_result write_settled set_attempts cleanup_retry new_event
  Refines-IsKept = record {
    begins = begins-Refines;
    completes = λ clock a db h c r.
        success-Refines clock a _ db (Inv-IsKept.completes clock a db h c r.owned) r;
    recovers = λ clock a v db h m c r.
        success-Refines clock a _ db (Inv-IsKept.recovers clock a v db h m c r.owned) r;
    fails = fails-Refines;
    reports = λ k s e n a db h c r. record {
      owned = Inv-IsKept.reports k s e n a db h c r.owned;
      reached = r.reached;
    };
    settles = λ clock k x y a db h c r. record {
      owned = Inv-IsKept.settles clock k x y a db h c r.owned;
      reached = r.reached;
    };
    renews =
        λ k at n db r. record { owned = Inv-IsKept.renews k at n db r.owned; reached = r.reached };
    probes = λ rows db r. record { owned = r.owned; reached = r.reached };
    closes = λ p f db keeps from to r. record {
      owned = Inv-IsKept.closes p f db keeps from to r.owned;
      reached = λ d.
          update-Reaches p f db.deploy_events d _ keeps
            (λ e x h. from_pending e.status _ (from e h) (closing_move (f e).status (to e)))
            (r.reached d);
    };
    creates = λ clock c db fresh r. record {
      owned = Inv-IsKept.creates clock c db fresh r.owned;
      reached =
          λ d. append-Reaches db.deploy_events (new_event clock.now_iso c) d _ refl (r.reached d);
    };
    cleans = λ d db r. record { owned = r.owned; reached = r.reached };
    node_rows = λ rows db r. record { owned = r.owned; reached = r.reached };
    node_succeeds = λ clock d n db r. record {
      owned = Inv-IsKept.node_succeeds clock d n db r.owned;
      reached = λ j. node_success-Reaches clock d n db j r;
    };
    node_reopens = λ clock d db none_here r. record {
      owned = Inv-IsKept.node_reopens clock d db none_here r.owned;
      reached = λ j. node_reopen-Reaches clock d db j r;
    };
  }

no_move : (s : Status) (t : Option Status) → is_closing s ≡ true → Moves (some s) t → ⊥
no_move s t h begins = ground arith
no_move s t h completes = ground arith
no_move s t h reopens = ground arith
no_move s t h drops = ground arith
no_move s t h rejects = ground arith
no_move s t h resolves = ground arith

pub stays : (s : Status) (t : Option Status) → is_closing s ≡ true → Reaches (some s) t → t ≡ some s
stays s t h here = refl
stays s t h (onward {b} r m) = elim (no_move s t h (subst (λ o. Moves o t) (stays s b h r) m)) [ ]
