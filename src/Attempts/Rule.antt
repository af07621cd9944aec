-- ===== src/Attempts/Rule.antt =====
-- The proof rule of the store: a property of the tables that every statement group of the transactions
-- keeps is kept by every transaction. The children go through the transactions.
pub mod Reports
pub mod Probes
pub mod Events
pub mod NodeReports
pub mod Runs
use haniel.Prelude.{
  ℕ, ◌≡◌, refl, sym, ap, ◌∙◌, String, Bool, true, false, not, Option, none, some, List, [], ◌∷◌,
  ◌++◌, arith, eq_iff, count, ltb, ◌==◌, if◌then◌else◌, Bool-cases, Option-cases, inl, inr,
}
use haniel.Retry.Messages.{Mode, Proposal}
use haniel.Attempts.Table.{find, update, find-holds, find-update, updated}
use haniel.Attempts.Rows.{
  NodeAttempt, is_pending, is_deploying, Event, ProbeRow, Terminal, Outcome, Attempt, Db, Clock,
  Body, returns, raises, ◌>>=◌,
}
use haniel.Attempts.Support.{
  owns, has_id, is_attempt, is_running, event, attempt_of, if_current, current_attempt,
  cleanup_retry,
}
use haniel.Attempts.Transitions.{
  Begin, set_attempts, insert_attempt, is_ready, success_unlocked, fail_attempt_unlocked,
  is_active_row,
}
use haniel.Attempts.Reports.{
  RecoveryEvidence, is_execute, is_evidence_recovery, write_result, write_settled,
  evidence_mismatches, renewed_to,
}
use haniel.Attempts.Events.{Change, new_event, is_closing}
use haniel.Attempts.NodeReports.{node_success, node_reopen}

-- What a method's body keeps: its new tables, if it returns.
abbrev pub OnReturn {ℓ} : {A : Type 0} → (Db → Type ℓ) → Body A → Type ℓ
OnReturn P (returns a db) = P db
OnReturn P (raises e) = Unit

pub OnReturn-then {ℓ} :
    {A B : Type 0} (P : Db → Type ℓ) (b : B) (f : Db → Db) (m : Body A)
    → ((db : Db) → P db → P (f db))
    → OnReturn P m
    → OnReturn P (m >>= λ u after. returns b (f after))
OnReturn-then P b f (returns a db) keep h = keep db h
OnReturn-then P b f (raises e) keep h = tt

-- A snapshot names the deploy of the row that it is a snapshot of.
pub record IsSnapshot (db : Db) (a : Attempt) : Type 0 where
  pub row : Attempt
  pub found : find (is_attempt a.orchestrator_attempt_id) db.deploy_attempts ≡ some row
  pub of : row.deploy_id ≡ a.deploy_id

pub attempt_of_self :
    (db : Db) (k : String) (a : Attempt)
    → attempt_of db k ≡ some a
    → attempt_of db a.orchestrator_attempt_id ≡ some a
unfolding attempt_of
attempt_of_self db k a e =
    ap (λ i. find (is_attempt i) db.deploy_attempts)
      ((eq_iff a.orchestrator_attempt_id k).0 (find-holds (is_attempt k) db.deploy_attempts a e))
    ∙ e

pub attempt_of-IsSnapshot :
    (db : Db) (k : String) (a : Attempt) → attempt_of db k ≡ some a → IsSnapshot db a
unfolding attempt_of
attempt_of-IsSnapshot db k a e = record { row = a; found = attempt_of_self db k a e; of = refl }

pub event_self :
    (db : Db) (d : String) (x : Event) → event db d ≡ some x → event db x.deploy_id ≡ some x
unfolding event
event_self db d x e =
    ap (λ i. find (has_id i) db.deploy_events)
      ((eq_iff x.deploy_id d).0 (find-holds (has_id d) db.deploy_events x e))
    ∙ e

-- What `_current_attempt` promises of the row that it answers.
pub record IsCurrent (db : Db) (d k g : String) (a : Attempt) : Type 0 where
  pub stored : attempt_of db k ≡ some a
  pub deploy : a.deploy_id ≡ d
  pub generation : a.connection_generation ≡ g
  pub running : is_running a ≡ true

if_current-holds :
    (d g : String) (o : Option Attempt) (a : Attempt)
    → if_current d g o ≡ some a
    → (o ≡ some a) × (a.deploy_id ≡ d) × (a.connection_generation ≡ g) × (is_running a ≡ true)
unfolding if_current
if_current-holds d g none a e = ground arith
if_current-holds d g (some b) a e =
    ground (arith, eq_iff b.deploy_id d, eq_iff b.connection_generation g)

pub current_attempt-IsCurrent :
    (db : Db) (d k g : String) (a : Attempt)
    → current_attempt db d k g ≡ some a
    → IsCurrent db d k g a
unfolding current_attempt
current_attempt-IsCurrent db d k g a e =
    let h = if_current-holds d g (attempt_of db k) a e in
    record { stored = h.0; deploy = h.1; generation = h.2; running = h.3 }

-- The row that `set_attempts` changes is still a row of the same deploy.
set_attempts-IsSnapshot :
    (p : Attempt → Bool) (g : Attempt → Attempt) (db : Db) (a : Attempt)
    → ((x : Attempt) → (g x).orchestrator_attempt_id ≡ x.orchestrator_attempt_id)
    → ((x : Attempt) → (g x).deploy_id ≡ x.deploy_id)
    → IsSnapshot db a
    → IsSnapshot (set_attempts p g db) a
unfolding set_attempts updated
set_attempts-IsSnapshot p g db a ids deploys h =
    let k = a.orchestrator_attempt_id in
    record {
      row = if p h.row then g h.row else h.row;
      found =
          find-update p (is_attempt k) g db.deploy_attempts (λ x. ap (λ i. i == k) (ids x))
          ∙ ap (updated p g) h.found;
      of = elim (Bool-cases (p h.row)) [
        | inl t ↦ ap (λ b. (if b then g h.row else h.row).deploy_id) t ∙ (deploys h.row ∙ h.of)
        | inr t ↦ ap (λ b. (if b then g h.row else h.row).deploy_id) t ∙ h.of
      ];
    }

reported-IsSnapshot :
    (db : Db) (d k g : String) (a : Attempt) → current_attempt db d k g ≡ some a → IsSnapshot db a
reported-IsSnapshot db d k g a e =
    attempt_of-IsSnapshot db k a (current_attempt-IsCurrent db d k g a e).stored

-- What `P` has to survive.
pub record IsKept {ℓ} (P : Db → Type ℓ) : Type ℓ where
  pub begins :
      (clock : Clock) (e : Event) (b : Begin) (from : Option (ProbeRow × Proposal)) (db : Db)
      → event db e.deploy_id ≡ some e
      → P db
      → OnReturn P (insert_attempt clock e b from db)
  pub completes :
      (clock : Clock) (a : Attempt) (db : Db)
      → attempt_of db a.orchestrator_attempt_id ≡ some a
      → is_ready a ≡ true
      → P db
      → P (success_unlocked clock a Outcome.success db).1
  pub recovers :
      (clock : Clock) (a : Attempt) (v : RecoveryEvidence) (db : Db)
      → attempt_of db a.orchestrator_attempt_id ≡ some a
      → is_evidence_recovery a.execution_mode ≡ true
      → evidence_mismatches clock db a v ≡ []
      → P db
      → P (success_unlocked clock a Outcome.evidence_recovered_success db).1
  pub fails :
      (clock : Clock) (a : Attempt) (t : Terminal) (db : Db)
      → IsSnapshot db a
      → P db
      → P (fail_attempt_unlocked clock a t db).1
  pub reports :
      (k status : String) (error : Option String) (n : Option ℕ) (a : Attempt) (db : Db)
      → attempt_of db k ≡ some a
      → is_running a ≡ true
      → P db
      → P (write_result k status error n db)
  pub settles :
      (clock : Clock) (k local remote : String) (a : Attempt) (db : Db)
      → attempt_of db k ≡ some a
      → is_running a ≡ true
      → P db
      → P (write_settled clock k local remote db)
  pub renews :
      (k at : String) (n : Option ℕ) (db : Db)
      → P db
      → P (set_attempts (is_active_row k) (renewed_to at n) db)
  pub probes : (rows : List ProbeRow) (db : Db) → P db → P (record db { deploy_plan_probes = rows })
  pub closes :
      (p : Event → Bool) (f : Event → Event) (db : Db)
      → ((e : Event) → (f e).deploy_id ≡ e.deploy_id)
      → ((e : Event) → p e ≡ true → is_pending e.status ≡ true)
      → ((e : Event) → is_closing (f e).status ≡ true)
      → P db
      → P (record db { deploy_events = update p f db.deploy_events })
  pub creates :
      (clock : Clock) (c : Change) (db : Db)
      → count (has_id c.deploy_id) db.deploy_events ≡ 0
      → P db
      → P (record db { deploy_events = db.deploy_events ++ new_event clock.now_iso c ∷ [] })
  pub cleans : (d : String) (db : Db) → P db → P (cleanup_retry d db)
  pub node_rows :
      (rows : List NodeAttempt) (db : Db) → P db → P (record db { node_deploy_attempts = rows })
  pub node_succeeds :
      (clock : Clock) (d : String) (n : Option ℕ) (db : Db) → P db → P (node_success clock d n db)
  pub node_reopens :
      (clock : Clock) (d : String) (db : Db)
      → count (owns d) db.deploy_attempts ≡ 0
      → P db
      → P (node_reopen clock d db)
