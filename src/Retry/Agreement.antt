-- ===== src/Retry/Agreement.antt =====
-- The plans of src/haniel/core/deploy_retry_planner.py before the checks of
-- orch-server/src/haniel_orch/deploy_attempt_store_support.py: which proposals of a node the
-- orchestrator takes.
use haniel.Prelude.{
  ◌∙◌, inl, inr, String, ◌≡◌, ◌≢◌, sym, true, some, [], ◌∷◌, truthy, ◌==◌, eq_iff, Bool-cases,
}
use mathlib.Core.Option.{some-injective}
use haniel.Journal.Record.{verification_failed, Journal}
use haniel.Journal.Path.{Store, read}
use haniel.Retry.Messages.{execute, evidence_recovery, Probe, proposal}
use haniel.Retry.Planner.{Planner, current_head, plan}
use haniel.Retry.Plans.{Speaks, Recovers-of-plan}
use haniel.Retry.Hub.{recovery_mismatches, execute_mismatches}
use haniel.Retry.Evidence.{
  plan-evidence, recovery_passes, failed_of_test, away_passes, execute-IsLeft,
}

-- A plan of a node to recover from evidence passes the orchestrator's checks of such a proposal, when
-- the attempt in the journal has an id.
pub recovery_agrees :
    (p : Planner) (s : Store) (probe : Probe)
    → Speaks p
    → ((j : Journal) → read s probe.repo ≡ some j → truthy (some j.journal_attempt_id) ≡ true)
    → (plan p s probe).mode ≡ evidence_recovery
    → recovery_mismatches probe (proposal (plan p s probe) probe) ≡ []
recovery_agrees p s probe speaks named h =
    let v = Recovers-of-plan p s probe speaks h in
    recovery_passes probe (plan p s probe) (current_head p) v.path v.digest v.journal
      (plan-evidence p s probe v) v.durable v.at_target v.expected_identity v.expected_digest
      (named v.journal v.found)

-- A plan of a managed node to execute passes the orchestrator's checks of such a proposal, when the
-- attempt in the journal has an id and did not end with a failed verification.
pub execute_agrees :
    (p : Planner) (s : Store) (probe : Probe) (path : String)
    → Speaks p
    → p.manifest_path ≡ some path
    → ((j : Journal)
        → read s probe.repo ≡ some j
        → (truthy (some j.journal_attempt_id) ≡ true) × (j.state ≢ verification_failed))
    → (plan p s probe).mode ≡ execute
    → execute_mismatches probe (proposal (plan p s probe) probe) ≡ []
execute_agrees p s probe path speaks m named h = elim (execute-IsLeft p s probe path speaks m h) [
  | inl away ↦ away_passes probe (plan p s probe) away
  | inr v ↦
      let (attempt, other) = named v.journal v.found in
      elim (Bool-cases ((plan p s probe).evidence.current_head == probe.target_head)) [
        | inl at ↦
            v.checked attempt
              ((eq_iff (plan p s probe).evidence.current_head probe.target_head).0 at)
            ∙ rw (failed_of_test v.journal.state v.failing other)
        | inr away ↦
            away_passes probe (plan p s probe) (λ k.
              cc (away, (eq_iff (plan p s probe).evidence.current_head probe.target_head).1 k))
      ]
]

-- The retry of a failed verification at the target, which the node plans to execute, fails exactly
-- the orchestrator's check that the journal's state is "failed".
pub verification_retry_rejected :
    (p : Planner) (s : Store) (probe : Probe) (path : String) (j : Journal)
    → Speaks p
    → p.manifest_path ≡ some path
    → read s probe.repo ≡ some j
    → j.state ≡ verification_failed
    → truthy (some j.journal_attempt_id) ≡ true
    → (plan p s probe).evidence.current_head ≡ probe.target_head
    → (plan p s probe).mode ≡ execute
    → execute_mismatches probe (proposal (plan p s probe) probe) ≡ "failed journal" ∷ []
verification_retry_rejected p s probe path j speaks m r state attempt at h =
    elim (execute-IsLeft p s probe path speaks m h) [
      | inl away ↦ elim (away at) [ ]
      | inr v ↦
          let same_journal = some-injective v.journal j (sym v.found ∙ r) in
          v.checked (rw same_journal attempt) at ∙ rw (same_journal, state)
    ]
