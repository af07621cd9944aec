-- ===== src/Retry/Durable.antt =====
-- The journal that proves a success, and the end of `plan` of
-- src/haniel/core/deploy_retry_planner.py, which asks for it.
use haniel.Prelude.{
  String, ◌≡◌, refl, true, Option, none, some, same_iff, truthy, eq_iff, arith, ap,
}
use haniel.Journal.Record.{State, success, Journal}
use haniel.Retry.Messages.{evidence_recovery, durable_local_success, Probe, in_lineage, Evidence}
use haniel.Retry.Planner.{Planner, is_success_state, build, plan_success, plan_state, plan_journal}

-- The journal is that of a success of this very target, in this scope, under this manifest, reached
-- by an attempt of the lineage that the probe retries.
pub record IsDurable (probe : Probe) (identity digest : Option String) (j : Journal) : Type 0 where
  pub target : j.target_head ≡ probe.target_head
  pub repo : j.repo ≡ probe.repo
  pub node : j.node_id ≡ some probe.node_id
  pub branch : j.branch ≡ some probe.branch
  pub identity_same : j.manifest_identity ≡ identity
  pub digest_same : j.manifest_digest ≡ digest
  pub succeeded : j.state ≡ success
  pub linked : truthy j.orchestrator_attempt_id ≡ true
  pub source : j.orchestrator_attempt_id ≡ probe.source_orchestrator_attempt_id
  pub lineage : in_lineage probe.source_orchestrator_attempt_id probe.retry_lineage ≡ true
  pub completed : truthy j.completed_at ≡ true

pub success_of_test : (s : State) → is_success_state s ≡ true → s ≡ success
success_of_test success h = refl
success_of_test s h = cc

module _ (p : Planner) (probe : Probe) (e : Evidence) where
  pub plan_success-recovers :
      (j : Journal)
      → (plan_success p probe e j).mode ≡ evidence_recovery
      → (truthy j.orchestrator_attempt_id ≡ true)
        × (j.orchestrator_attempt_id ≡ probe.source_orchestrator_attempt_id)
        × (in_lineage probe.source_orchestrator_attempt_id probe.retry_lineage ≡ true)
        × (truthy j.completed_at ≡ true)
  unfolding plan_success build
  plan_success-recovers j h =
      ground (arith, same_iff j.orchestrator_attempt_id probe.source_orchestrator_attempt_id)

  plan_state-recovers :
      (j : Journal)
      → (plan_state p probe e j).mode ≡ evidence_recovery
      → (is_success_state j.state ≡ true) × ((plan_success p probe e j).mode ≡ evidence_recovery)
  unfolding plan_state build
  plan_state-recovers j h = ground arith

  plan_journal-scope :
      (identity digest : Option String) (j : Journal)
      → (plan_journal p probe e identity digest (some j)).mode ≡ evidence_recovery
      → ((plan_state p probe e j).mode ≡ evidence_recovery)
        × (j.target_head ≡ probe.target_head)
        × (j.repo ≡ probe.repo)
        × (j.node_id ≡ some probe.node_id)
        × (j.branch ≡ some probe.branch)
        × (j.manifest_identity ≡ identity)
        × (j.manifest_digest ≡ digest)
  unfolding plan_journal build
  plan_journal-scope identity digest j h = ground (
    arith,
    eq_iff j.target_head probe.target_head,
    eq_iff j.repo probe.repo,
    same_iff j.node_id (some probe.node_id),
    same_iff j.branch (some probe.branch),
    same_iff j.manifest_identity identity,
    same_iff j.manifest_digest digest,
  )

  pub plan_journal-recovers :
      (identity digest : Option String) (j : Journal)
      → (plan_journal p probe e identity digest (some j)).mode ≡ evidence_recovery
      → IsDurable probe identity digest j
  plan_journal-recovers identity digest j h =
      let (at_state, target, repo, node, branch, same_identity, same_digest) =
        plan_journal-scope identity digest j h in
      let (at_success, recovers) = plan_state-recovers j at_state in
      let (linked, source, lineage, completed) = plan_success-recovers j recovers in
      record {
        target = target;
        repo = repo;
        node = node;
        branch = branch;
        identity_same = same_identity;
        digest_same = same_digest;
        succeeded = success_of_test j.state at_success;
        linked = linked;
        source = source;
        lineage = lineage;
        completed = completed;
      }

  -- The other direction.
  pub IsDurable-recovers :
      (identity digest : Option String) (j : Journal)
      → IsDurable probe identity digest j
      → plan_journal p probe e identity digest (some j)
        ≡ build p evidence_recovery e durable_local_success none
  unfolding plan_journal plan_state plan_success
  IsDurable-recovers identity digest j v = rw (
    (eq_iff j.target_head probe.target_head).1 v.target,
    (eq_iff j.repo probe.repo).1 v.repo,
    (same_iff j.node_id (some probe.node_id)).1 v.node,
    (same_iff j.branch (some probe.branch)).1 v.branch,
    (same_iff j.manifest_identity identity).1 v.identity_same,
    (same_iff j.manifest_digest digest).1 v.digest_same,
    ap is_success_state v.succeeded,
    v.linked,
    (same_iff j.orchestrator_attempt_id probe.source_orchestrator_attempt_id).1 v.source,
    v.lineage,
    v.completed,
  )
