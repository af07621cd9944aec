-- ===== src/Attempts/Writes.antt =====
-- The store's transactions together with the rejections of the dashboard: `reject_deploy` of
-- orch-server/src/haniel_orch/api.py, whose `update_deploy_status` has no condition of its own.
use haniel.Prelude.{
  ◌≡◌, ◌≤◌, refl, sym, String, true, Option, none, some, List, [], ◌∷◌, arith, count,
}
use mathlib.Core.Path.{subst}
use haniel.Attempts.Table.{find, both, update-only}
use haniel.Attempts.Rows.{
  Status, pending, rejected, is_pending, Event, Db, empty, Clock, transaction,
}
use haniel.Attempts.Support.{has_id, close_probes}
use haniel.Attempts.Transitions.{move_event}
use haniel.Attempts.Events.{
  Fields, or_keep, update_deploy_status, update_deploy_status_unlocked, is_closing,
}
use haniel.Attempts.Calls.{Call, step}
use haniel.Attempts.Rule.{IsKept}
use haniel.Attempts.Rule.Runs.{step_keeps}
use haniel.Attempts.Ownership.{Owned}
use haniel.Attempts.Ownership.Ends.{Inv, Inv-IsKept, empty-Inv}
use haniel.Attempts.Lifecycle.{status_in, status_of, Reaches, here}
use haniel.Attempts.Lifecycle.Refines.{Refines, Refines-IsKept, stays}

-- A transaction of the store, or the rejection of one deploy.
pub data Write : Type 0 where
  calls : Call → Write
  rejects_deploy : String → Fields → Write

unfoldable pub write : Clock × Write → Db → Db
write (c, calls call) db = (step (c, call) db).1
write (c, rejects_deploy d f) db = (transaction db (update_deploy_status c d rejected f db)).1

unfoldable pub run_writes : List (Clock × Write) → Db → Db
run_writes [] db = db
run_writes (w ∷ ws) db = run_writes ws (write w db)

-- Each rejection finds its deploy still pending, as its caller has read it before.
abbrev pub IsFresh : Write → Db → Type 0
IsFresh (calls call) db = Unit
IsFresh (rejects_deploy d f) db = status_of db.deploy_events d ≡ some pending

unfoldable pub AreFresh : List (Clock × Write) → Db → Type 0
AreFresh [] db = Unit
AreFresh ((c, w) ∷ ws) db = IsFresh w db × AreFresh ws (write (c, w) db)

pending_row :
    (o : Option Event)
    → status_in o ≡ some pending
    → (e : Event) × (o ≡ some e) × (is_pending e.status ≡ true)
pending_row none h = ground arith
pending_row (some e) h = (e, refl, ground (arith, h))

module _ {ℓ} (P : Db → Type ℓ) (kept : IsKept P)
    (unique : (db : Db) → P db → (d : String) → count (has_id d) db.deploy_events ≤ 1) where
  reject_keeps :
      (clock : Clock) (d : String) (f : Fields) (db : Db)
      → status_of db.deploy_events d ≡ some pending
      → P db
      → P (update_deploy_status_unlocked clock d rejected f db)
  unfolding update_deploy_status_unlocked move_event status_of
  reject_keeps clock d f db at o =
      let row = pending_row (find (has_id d) db.deploy_events) at in
      let move : Event → Event = λ x. record x {
        status = rejected;
        updated_at = clock.now_iso;
        approved_by = or_keep f.approved_by x.approved_by;
        reject_reason = or_keep f.reject_reason x.reject_reason;
        error = or_keep f.error x.error;
        duration_ms = or_keep f.duration_ms x.duration_ms;
      } in
      subst (λ es. P (record db { deploy_events = es }))
        (sym (
          update-only (has_id d) (λ x. is_pending x.status) move db.deploy_events row.0
            (unique db o d) row.1 row.2))
        (kept.closes (both (has_id d) (λ x. is_pending x.status)) move db (λ e. refl)
          (λ e h. ground (arith, h)) (λ e. refl) o)

  write_keeps : (w : Clock × Write) (db : Db) → IsFresh w.1 db → P db → P (write w db)
  unfolding write transaction update_deploy_status close_probes
  write_keeps (c, calls call) db fresh o = step_keeps P kept (c, call) db o
  write_keeps (c, rejects_deploy d f) db fresh o =
      kept.probes _ _ (kept.cleans d _ (reject_keeps c d f db fresh o))

  run_writes_keeps :
      (ws : List (Clock × Write)) (db : Db) → AreFresh ws db → P db → P (run_writes ws db)
  unfolding run_writes AreFresh
  run_writes_keeps [] db fresh o = o
  run_writes_keeps ((c, w) ∷ ws) db (first, others) o =
      run_writes_keeps ws (write (c, w) db) others (write_keeps (c, w) db first o)

-- Whatever a store has run from its creation, in any order and with any arguments, of the transactions
-- that `Call` lists and of rejections that find their deploy still pending: the ids of attempts and of
-- events are unique, a deploy is deploying if and only if it has an active attempt, it then has only
-- one, and a branch of a node has one active attempt at most. `transition_deploy_status` and
-- `supersede_stale_pending_deploys` are not among the transactions.
pub run_writes-Owned :
    (ws : List (Clock × Write))
    → AreFresh ws empty
    → Owned (run_writes ws empty).deploy_events (run_writes ws empty).deploy_attempts
run_writes-Owned ws fresh =
    run_writes_keeps Inv Inv-IsKept (λ db o. o.event_ids) ws empty fresh empty-Inv

-- From tables that the transactions that `Call` lists and rejections that find their deploy still
-- pending have made, any further sequence of them moves the status of every deploy as the abstract
-- machine does: detected as pending, pending to deploying, from there to success, back to pending or to
-- rejected, and pending to success or to rejected.
pub run_writes-Reaches :
    (before after : List (Clock × Write)) (d : String)
    → AreFresh before empty
    → AreFresh after (run_writes before empty)
    → Reaches
        (status_of (run_writes before empty).deploy_events d)
        (status_of (run_writes after (run_writes before empty)).deploy_events d)
run_writes-Reaches before after d fresh later =
    let start = run_writes before empty in
    (run_writes_keeps (Refines start) (Refines-IsKept start) (λ db o. o.owned.event_ids) after start
        later (record { owned = run_writes-Owned before fresh; reached = λ i. here })).reached
      d

-- A deploy that has succeeded or has been rejected keeps that status through every further sequence of
-- the transactions that `Call` lists and of rejections that find their deploy still pending.
pub run_writes-closed :
    (before after : List (Clock × Write)) (d : String) (s : Status)
    → AreFresh before empty
    → AreFresh after (run_writes before empty)
    → status_of (run_writes before empty).deploy_events d ≡ some s
    → is_closing s ≡ true
    → status_of (run_writes after (run_writes before empty)).deploy_events d ≡ some s
run_writes-closed before after d s fresh later at h =
    let now = status_of (run_writes after (run_writes before empty)).deploy_events d in
    stays s now h (subst (λ o. Reaches o now) at (run_writes-Reaches before after d fresh later))
