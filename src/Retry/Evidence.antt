-- ===== src/Retry/Evidence.antt =====
-- What the evidence of a plan shows to the orchestrator: the lemmas on the plans of
-- src/haniel/core/deploy_retry_planner.py and the checks of
-- orch-server/src/haniel_orch/deploy_attempt_store_support.py.
use haniel.Prelude.{
  ◌∙◌, ◌⊎◌, inl, inr, String, ◌≡◌, ◌≢◌, refl, sym, ap, Bool, true, false, ◌&&◌, Option, none, some,
  [], same, same_iff, truthy, is_some, eq_iff, arith,
}
use haniel.Errors.{message_of}
use haniel.Errors.Result.{ok, Result-cases}
use haniel.Journal.Record.{State, failed, verification_failed, Journal}
use haniel.Journal.Path.{Store, read}
use haniel.Retry.Messages.{execute, Probe, in_lineage, Evidence, RetryPlan, Proposal, proposal}
use haniel.Retry.Planner.{
  Planner, is_failure_state, current_head, evidence_of, build, plan_success, may_retry, plan_state,
  plan_journal, plan_with, plan,
}
use haniel.Retry.Durable.{IsDurable}
use haniel.Retry.Plans.{Recovers, Speaks, snapshot-read, plan_with-unread, missing-fails}
use haniel.Retry.Hub.{
  check, reports_failed, recovery_mismatches, execute_checks, execute_mismatches,
}

-- The evidence of a plan is the one it was made of, whatever its mode.
module _ (p : Planner) (probe : Probe) (e : Evidence) where
  pub plan_success-evidence : (j : Journal) → (plan_success p probe e j).evidence ≡ e
  unfolding plan_success build
  plan_success-evidence j = ground arith

  plan_state-evidence : (j : Journal) → (plan_state p probe e j).evidence ≡ e
  unfolding plan_state build
  plan_state-evidence j = ground (arith, plan_success-evidence j)

  plan_journal-evidence :
      (i d : Option String) (o : Option Journal) → (plan_journal p probe e i d o).evidence ≡ e
  unfolding plan_journal build
  plan_journal-evidence i d none = refl
  plan_journal-evidence i d (some j) = ground (arith, plan_state-evidence j)

pub plan_with-evidence :
    (p : Planner) (probe : Probe) (i d e : Option String) (o : Option Journal)
    → (plan_with p probe i d e o).evidence ≡ evidence_of (current_head p) o i d
unfolding plan_with build
plan_with-evidence p probe i d e o =
    ground (arith, plan_journal-evidence p probe (evidence_of (current_head p) o i d) i d o)

pub plan-evidence :
    (p : Planner) (s : Store) (probe : Probe)
    → (v : Recovers p s probe)
    → (plan p s probe).evidence
      ≡ evidence_of (current_head p) (some v.journal) (some v.path) (some v.digest)
unfolding plan
plan-evidence p s probe v =
    rw (snapshot-read p probe.target_head v.path v.managed, v.hashed, v.found)
      (plan_with-evidence p probe (some v.path) (some v.digest) none (some v.journal))

pub recovery_passes :
    (probe : Probe) (made : RetryPlan) (head path digest : String) (j : Journal)
    → made.evidence ≡ evidence_of head (some j) (some path) (some digest)
    → IsDurable probe (some path) (some digest) j
    → head ≡ probe.target_head
    → probe.expected_manifest_identity ≡ some path
    → probe.expected_manifest_digest ≡ some digest
    → truthy (some j.journal_attempt_id) ≡ true
    → recovery_mismatches probe (proposal made probe) ≡ []
unfolding recovery_mismatches proposal evidence_of
recovery_passes probe made head path digest j e v at hi hd attempt = rw (
  e,
  v.succeeded,
  attempt,
  (same_iff j.orchestrator_attempt_id probe.source_orchestrator_attempt_id).1 v.source,
  v.lineage,
  (eq_iff head probe.target_head).1 at,
  (eq_iff probe.target_head j.target_head).1 (sym v.target),
  (same_iff (some path) probe.expected_manifest_identity).1 (sym hi),
  (same_iff (some digest) probe.expected_manifest_digest).1 (sym hd),
  v.completed,
)

pub plan_journal-executes :
    (p : Planner) (probe : Probe) (e : Evidence) (i d : Option String) (j : Journal)
    → (plan_journal p probe e i d (some j)).mode ≡ execute
    → (j.target_head ≡ probe.target_head) × ((plan_state p probe e j).mode ≡ execute)
unfolding plan_journal build
plan_journal-executes p probe e i d j h = ground (arith, eq_iff j.target_head probe.target_head)

pub plan_success-never_executes :
    (p : Planner) (probe : Probe) (e : Evidence) (j : Journal)
    → (plan_success p probe e j).mode ≢ execute
unfolding plan_success build
plan_success-never_executes p probe e j h = ground arith

pub plan_state-executes :
    (p : Planner) (probe : Probe) (e : Evidence) (j : Journal)
    → (plan_state p probe e j).mode ≡ execute
    → may_retry probe j ≡ true
unfolding plan_state build
plan_state-executes p probe e j h = ground (arith, plan_success-never_executes p probe e j)

pub failed_of_test : (s : State) → is_failure_state s ≡ true → s ≢ verification_failed → s ≡ failed
failed_of_test failed h k = refl
failed_of_test verification_failed h k = elim (k refl) [ ]
failed_of_test s h k = cc

pub and_parts : (a b : Bool) → (a && b) ≡ true → (a ≡ true) × (b ≡ true)
and_parts true b h = (refl, h)
and_parts false b h = cc

pub may_retry-parts :
    (probe : Probe) (j : Journal)
    → may_retry probe j ≡ true
    → (is_failure_state j.state ≡ true)
      × (truthy (some j.previous_head) ≡ true)
      × (truthy j.completed_at ≡ true)
      × (j.orchestrator_attempt_id ≡ probe.source_orchestrator_attempt_id)
      × (in_lineage probe.source_orchestrator_attempt_id probe.retry_lineage ≡ true)
may_retry-parts probe j h =
    let (a, h1) = and_parts (is_failure_state j.state) _ h in
    let (b, h2) = and_parts (truthy (some j.previous_head)) _ h1 in
    let (c, h3) = and_parts (truthy j.completed_at) _ h2 in
    let (d, f) =
      and_parts (same j.orchestrator_attempt_id probe.source_orchestrator_attempt_id) _ h3 in
    let source = (same_iff j.orchestrator_attempt_id probe.source_orchestrator_attempt_id).0 d in
    (a, b, c, source, rw source at f)

-- Of the orchestrator's checks on a retry that the node plans, only the state's can fail.
pub execute_passes :
    (probe : Probe) (made : RetryPlan) (head path digest : String) (j : Journal)
    → made.evidence ≡ evidence_of head (some j) (some path) (some digest)
    → j.target_head ≡ probe.target_head
    → may_retry probe j ≡ true
    → probe.expected_manifest_identity ≡ some path
    → probe.expected_manifest_digest ≡ some digest
    → truthy (some j.journal_attempt_id) ≡ true
    → execute_checks probe (proposal made probe)
      ≡ check (reports_failed (some j.state)) "failed journal" []
unfolding execute_checks proposal evidence_of
execute_passes probe made head path digest j e target retried hi hd attempt =
    let (_, previous, completed, source, lineage) = may_retry-parts probe j retried in
    rw (
      e,
      attempt,
      (same_iff (some j.target_head) (some probe.target_head)).1 (ap some target),
      previous,
      (same_iff j.orchestrator_attempt_id probe.source_orchestrator_attempt_id).1 source,
      lineage,
      (same_iff (some path) probe.expected_manifest_identity).1 (sym hi),
      (same_iff (some digest) probe.expected_manifest_digest).1 (sym hd),
      completed,
    )

-- A plan to execute, of a managed repository.
pub plan_with-executes :
    (p : Planner) (probe : Probe) (path digest : String) (o : Option Journal)
    → p.manifest_path ≡ some path
    → (plan_with p probe (some path) (some digest) none o).mode ≡ execute
    → (probe.expected_manifest_identity ≡ some path)
      × (probe.expected_manifest_digest ≡ some digest)
      × ((current_head p ≢ probe.target_head)
          ⊎ ((plan_journal p probe
                (evidence_of (current_head p) o (some path) (some digest))
                (some path)
                (some digest)
                o).mode
              ≡ execute))
unfolding plan_with build
plan_with-executes p probe path digest o m h = ground (
  arith,
  same_iff (some path) probe.expected_manifest_identity,
  same_iff (some digest) probe.expected_manifest_digest,
  eq_iff (current_head p) probe.target_head,
)

pub snapshot_of_execute :
    (p : Planner) (s : Store) (probe : Probe) (path : String)
    → Speaks p
    → p.manifest_path ≡ some path
    → (plan p s probe).mode ≡ execute
    → (digest : String) × (p.digest_at probe.target_head path ≡ ok digest)
      × ((plan_with p probe (some path) (some digest) none (read s probe.repo)).mode ≡ execute)
unfolding plan
snapshot_of_execute p s probe path speaks m h =
    elim (Result-cases (p.digest_at probe.target_head path)) [
      | inl (digest, d) ↦ (digest, d, rw (snapshot-read p probe.target_head path m, d) at h)
      | inr (e, d) ↦ cc (
        plan_with-unread p probe (some path) none (some (message_of e)) (read s probe.repo)
            (ap is_some m) (speaks probe.target_head path e d),
        rw (snapshot-read p probe.target_head path m, d) at h,
      )
    ]

pub evidence_of_execute :
    (p : Planner) (s : Store) (probe : Probe) (path digest : String) (o : Option Journal)
    → p.manifest_path ≡ some path
    → p.digest_at probe.target_head path ≡ ok digest
    → read s probe.repo ≡ o
    → (plan p s probe).evidence ≡ evidence_of (current_head p) o (some path) (some digest)
unfolding plan
evidence_of_execute p s probe path digest o m d r =
    rw (snapshot-read p probe.target_head path m, d, r)
      (plan_with-evidence p probe (some path) (some digest) none o)

-- Elsewhere than at the target there is nothing to check.
pub away_passes :
    (probe : Probe) (made : RetryPlan)
    → made.evidence.current_head ≢ probe.target_head
    → execute_mismatches probe (proposal made probe) ≡ []
unfolding execute_mismatches proposal
away_passes probe made h = ground (arith, eq_iff made.evidence.current_head probe.target_head)

pub checks_left :
    (probe : Probe) (prop : Proposal)
    → is_some probe.expected_manifest_identity ≡ true
    → prop.evidence.current_head ≡ probe.target_head
    → execute_mismatches probe prop ≡ execute_checks probe prop
unfolding execute_mismatches
checks_left probe prop m h = rw (m, (eq_iff prop.evidence.current_head probe.target_head).1 h)

-- What is left to check of a plan to execute at the target.
pub record IsLeft (probe : Probe) (made : RetryPlan) (o : Option Journal) : Type 0 where
  pub journal : Journal
  pub found : o ≡ some journal
  pub failing : is_failure_state journal.state ≡ true
  pub checked :
      truthy (some journal.journal_attempt_id) ≡ true
      → made.evidence.current_head ≡ probe.target_head
      → execute_mismatches probe (proposal made probe)
        ≡ check (reports_failed (some journal.state)) "failed journal" []

pub IsLeft-at_target :
    (p : Planner) (probe : Probe) (made : RetryPlan) (path digest : String) (o : Option Journal)
    → made.evidence ≡ evidence_of (current_head p) o (some path) (some digest)
    → probe.expected_manifest_identity ≡ some path
    → probe.expected_manifest_digest ≡ some digest
    → (plan_journal p probe
        (evidence_of (current_head p) o (some path) (some digest))
        (some path)
        (some digest)
        o).mode
      ≡ execute
    → IsLeft probe made o
unfolding proposal
IsLeft-at_target p probe made path digest none e hi hd h = cc (
  missing-fails p probe (evidence_of (current_head p) none (some path) (some digest)) (some path)
      (some digest),
  h,
)
IsLeft-at_target p probe made path digest (some j) e hi hd h =
    let (target, at_state) = plan_journal-executes p probe _ (some path) (some digest) j h in
    let retried = plan_state-executes p probe _ j at_state in
    record {
      journal = j;
      found = refl;
      failing = (may_retry-parts probe j retried).0;
      checked = λ attempt at.
          checks_left probe (proposal made probe) (ap is_some hi) at
          ∙ execute_passes probe made (current_head p) path digest j e target retried hi hd attempt;
    }

pub head_of_evidence :
    (made : RetryPlan) (head : String) (o : Option Journal) (i d : Option String)
    → made.evidence ≡ evidence_of head o i d
    → made.evidence.current_head ≡ head
unfolding evidence_of
head_of_evidence made head none i d e = rw e
head_of_evidence made head (some j) i d e = rw e

pub execute-IsLeft :
    (p : Planner) (s : Store) (probe : Probe) (path : String)
    → Speaks p
    → p.manifest_path ≡ some path
    → (plan p s probe).mode ≡ execute
    → ((plan p s probe).evidence.current_head ≢ probe.target_head)
      ⊎ IsLeft probe (plan p s probe) (read s probe.repo)
execute-IsLeft p s probe path speaks m h =
    let (digest, d, planned) = snapshot_of_execute p s probe path speaks m h in
    let (hi, hd, way) = plan_with-executes p probe path digest (read s probe.repo) m planned in
    let e = evidence_of_execute p s probe path digest (read s probe.repo) m d refl in
    let head =
      head_of_evidence (plan p s probe) (current_head p) (read s probe.repo) (some path)
        (some digest) e in
    elim way [
      | inl away ↦ inl (λ k. away (sym head ∙ k))
      | inr at ↦
          inr (IsLeft-at_target p probe (plan p s probe) path digest (read s probe.repo) e hi hd at)
    ]
