-- ===== src/Attempts/Calls.antt =====
-- The transactions of the store as one type of calls. Three are left out of it.
-- `update_deploy_status` reads no status: Attempts/Writes.antt adds
-- it, as its one caller uses it. Nothing calls `transition_deploy_status`, and
-- `supersede_stale_pending_deploys`, run when the hub starts, is not modelled.
use haniel.Prelude.{ℕ, String, Option, List, [], ◌∷◌}
use haniel.Retry.Messages.{Proposal}
use haniel.Attempts.Rows.{Terminal, Db, Clock, Reply, Body, Answer, transaction}
use haniel.Attempts.Transitions.{Begin}
use haniel.Attempts.Reports.{
  RecoveryEvidence, begin_normal_attempt, record_result, record_settled, record_recovery_evidence,
  fail_active_attempt, record_node_terminal, fail_attempt_if_deadline_due, renew_active_attempt,
}
use haniel.Attempts.Proposals.{NewProbe, create_probe}
use haniel.Attempts.Begins.{
  record_proposal_and_begin, terminalize_preflight, terminalize_generation,
  terminalize_prior_generations,
}
use haniel.Attempts.Events.{
  Change, create_deploy_event, resolve_observed_pending, supersede_pending_for_branch,
  reject_pending_deploys_for_nodes,
}
use haniel.Attempts.NodeReports.{NodeDeployReport, record_node_deploy_report}

pub data Call : Type 0 where
  creates : Change → Call
  resolves : (deploy_id node_id repo branch local_head remote_head : String) → Call
  supersedes : (node_id repo branch : String) → Call
  rejects : List String → (reason : String) → Call
  probes : NewProbe → Call
  begins : (deploy_id : String) → Begin → (current_generation : String) → Call
  proposes : Proposal → Begin → (current_generation : String) → Call
  results : (deploy_id id generation status : String) → Option String → Option ℕ → Call
  settles : (deploy_id id generation local_head remote_head : String) → Call
  recovers : RecoveryEvidence → Call
  fails_active : String → Terminal → Call
  node_fails : (deploy_id id generation : String) → Terminal → Call
  expires : (id expected_deadline_at : String) → Terminal → Call
  renews : (deploy_id id generation : String) → Option ℕ → (deadline_at : String) → Call
  reports_node : NodeDeployReport → Call
  ends_probe : String → Terminal → Call
  ends_generation : String → Call
  ends_prior : (node_id current_generation : String) → Call

unfoldable pub perform : Clock → Call → Db → Body Reply
perform c (creates change) = create_deploy_event c change
perform c (resolves d n r b local remote) = resolve_observed_pending c d n r b local remote
perform c (supersedes n r b) = supersede_pending_for_branch c n r b
perform c (rejects nodes reason) = reject_pending_deploys_for_nodes c nodes reason
perform c (probes n) = create_probe c n
perform c (begins d b g) = begin_normal_attempt c d b g
perform c (proposes p b g) = record_proposal_and_begin c p b g
perform c (results d k g s e n) = record_result c d k g s e n
perform c (settles d k g local remote) = record_settled c d k g local remote
perform c (recovers v) = record_recovery_evidence c v
perform c (fails_active k t) = fail_active_attempt c k t
perform c (node_fails d k g t) = record_node_terminal c d k g t
perform c (expires k at t) = fail_attempt_if_deadline_due c k at t
perform c (renews d k g n at) = renew_active_attempt d k g n at
perform c (reports_node r) = record_node_deploy_report c r
perform c (ends_probe k t) = terminalize_preflight c k t
perform c (ends_generation g) = terminalize_generation c g
perform c (ends_prior n g) = terminalize_prior_generations c n g

unfoldable pub step : Clock × Call → Db → Answer Reply × Db
step (c, call) db = transaction db (perform c call db)

-- The tables after a sequence of transactions; the lock of the store puts them in a sequence.
unfoldable pub run : List (Clock × Call) → Db → Db
run [] db = db
run (call ∷ calls) db = run calls (step call db).1
