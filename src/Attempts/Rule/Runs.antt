-- ===== src/Attempts/Rule/Runs.antt =====
-- Any sequence of transactions, by the proof rule.
use haniel.Prelude.{List, [], ◌∷◌}
use haniel.Attempts.Rows.{Db, Clock, Body, returns, raises, transaction}
use haniel.Attempts.Begins.{terminalize_generation, terminalize_prior_generations}
use haniel.Attempts.Calls.{
  Call, creates, resolves, supersedes, rejects, probes, begins, proposes, results, settles,
  recovers, fails_active, node_fails, expires, renews, reports_node, ends_probe, ends_generation,
  ends_prior, perform, step, run,
}
use haniel.Attempts.Rule.{OnReturn, IsKept}
use haniel.Attempts.Rule.Reports.{
  begin_normal_attempt_keeps, record_result_keeps, record_settled_keeps,
  record_recovery_evidence_keeps, fail_active_attempt_keeps, record_node_terminal_keeps,
  fail_attempt_if_deadline_due_keeps, renew_active_attempt_keeps,
}
use haniel.Attempts.Rule.Probes.{
  create_probe_keeps, end_each_keeps, record_proposal_and_begin_keeps, terminalize_preflight_keeps,
}
use haniel.Attempts.Rule.Events.{
  create_deploy_event_keeps, reject_pending_deploys_for_nodes_keeps, resolve_observed_pending_keeps,
  supersede_pending_for_branch_keeps,
}
use haniel.Attempts.Rule.NodeReports.{record_node_deploy_report_keeps}

pub transaction_keeps {ℓ} :
    {A : Type 0} (P : Db → Type ℓ) (db : Db) (m : Body A)
    → P db
    → OnReturn P m
    → P (transaction db m).1
unfolding transaction
transaction_keeps P db (returns a after) h k = k
transaction_keeps P db (raises e) h k = h

module _ {ℓ} (P : Db → Type ℓ) (kept : IsKept P) where
  perform_keeps :
      (clock : Clock) (call : Call) (db : Db) → P db → OnReturn P (perform clock call db)
  unfolding perform terminalize_generation terminalize_prior_generations
  perform_keeps c (creates change) db o = create_deploy_event_keeps P kept c change db o
  perform_keeps c (resolves d n r b x y) db o =
      resolve_observed_pending_keeps P kept c d n r b x y db o
  perform_keeps c (supersedes n r b) db o = supersede_pending_for_branch_keeps P kept c n r b db o
  perform_keeps c (rejects nodes reason) db o =
      reject_pending_deploys_for_nodes_keeps P kept c nodes reason db o
  perform_keeps c (probes n) db o = create_probe_keeps P kept c n db o
  perform_keeps c (begins d b g) db o = begin_normal_attempt_keeps P kept c d b g db o
  perform_keeps c (proposes p b g) db o = record_proposal_and_begin_keeps P kept c p b g db o
  perform_keeps c (results d k g s e n) db o = record_result_keeps P kept c d k g s e n db o
  perform_keeps c (settles d k g x y) db o = record_settled_keeps P kept c d k g x y db o
  perform_keeps c (recovers v) db o = record_recovery_evidence_keeps P kept c v db o
  perform_keeps c (fails_active k t) db o = fail_active_attempt_keeps P kept c k t db o
  perform_keeps c (node_fails d k g t) db o = record_node_terminal_keeps P kept c d k g t db o
  perform_keeps c (expires k at t) db o = fail_attempt_if_deadline_due_keeps P kept c k at t db o
  perform_keeps c (renews d k g n at) db o = renew_active_attempt_keeps P kept d k g n at db o
  perform_keeps c (reports_node r) db o = record_node_deploy_report_keeps P kept c r db o
  perform_keeps c (ends_probe k t) db o = terminalize_preflight_keeps P kept c k t db o
  perform_keeps c (ends_generation g) db o = end_each_keeps P kept c _ _ db o
  perform_keeps c (ends_prior n g) db o = end_each_keeps P kept c _ _ db o

  pub step_keeps : (call : Clock × Call) (db : Db) → P db → P (step call db).1
  unfolding step
  step_keeps (c, call) db o =
      transaction_keeps P db (perform c call db) o (perform_keeps c call db o)

  pub run_keeps : (calls : List (Clock × Call)) (db : Db) → P db → P (run calls db)
  unfolding run
  run_keeps [] db o = o
  run_keeps (call ∷ calls) db o = run_keeps calls (step call db).1 (step_keeps call db o)
