-- ===== src/Lib.antt =====
-- Verification of the core of Haniel, a runner of services that deploys releases to its node by order
-- of an orchestrator. The parts modelled, and how they meet:
--
-- Health (src/haniel/core/health.py): the health of each service. Health.antt has the methods of
--   `ServiceHealth`, Health/Manager.antt those of `HealthManager`: a method of the code is the function
--   of the same name without `record_`, its clock readings are arguments, and the callbacks that it
--   calls are returned beside the new manager. Times and delays are whole numbers of one unit.
-- Errors (src/haniel/core/deployment_errors.py): exceptions as values, with their class, code and
--   causes; the registered codes; the stable code of an exception. The walk over the causes has the
--   size of the tree as fuel, since every turn takes one exception of the tree; exceptions that are equal
--   in what the model keeps count as one object. Errors/Result.antt is the outcome of a call that may raise.
-- Journal (src/haniel/core/deployment_state.py): the journal of each repository. Journal/Record.antt has
--   its data, Journal/Path.antt the files, Journal/Begin.antt `begin`, Journal/Handover.antt
--   `begin_handover`, `bind_handover_target` and `fail_handover_if_current`, Journal/Updates.antt the
--   other methods. Journals and receipts are files of one directory. Files hold what the store wrote; the redaction of texts is a parameter.
--   Journal/Steps.antt reduces every call to a few kinds of change, from which the invariant and the
--   retention of attempts follow.
-- Deployment (src/haniel/core/deployment.py, deployment_verification.py and deployment_quiescence.py
--   beside it): Deployment/Machine.antt has the state of an attempt (the store, the calls made, the
--   variables of `execute`) and the actions on it; Deployment/Retrying.antt the retry loops;
--   Deployment/Quiescence.antt the check of a receipt; Deployment/Coordinator.antt the data of a
--   release; Deployment/Execute.antt the body of `execute`; Deployment/Recover.antt its `except`
--   clauses. What the callbacks, the commands, the clock and the waiter answer is a parameter, a function
--   of all that has happened. A retry loop recurses on the attempts that are left, so that it ends.
--   Deployment/Triple.antt has the rules by which a property of an action follows from its parts.
--   Deployment/Ending.antt follows the journal through `execute`, Deployment/Undone.antt and
--   Deployment/Preserved.antt its calls;
--   Deployment/Receipts.antt is about the receipt.
-- Retry (src/haniel/core/deploy_retry_planner.py of the node, and the checks of its proposals in
--   orch-server/src/haniel_orch/deploy_attempt_store_support.py): Retry/Planner.antt reads the journal
--   that Journal keeps and makes a plan; Retry/Hub.antt gives the names of the checks that a proposal
--   fails. Git's answers and the digest of a plan are parameters.
--
-- Attempts (orch-server/src/haniel_orch/: deploy_attempt_store.py, deploy_attempt_store_support.py,
--   deploy_attempt_generation_store.py, deploy_attempt_progress_store.py, deploy_attempt_schema.py,
--   event_store.py, event_store_mutations.py, event_store_lifecycle.py and node_deploy_store.py): the tables in which the
--   orchestrator keeps deploys, their attempts, the probes of a preflight and the retry markers.
--   Attempts/Table.antt has the SQL statements, Attempts/Rows.antt the rows and the transaction with its
--   rollback, Attempts/Support.antt the shared reads, Attempts/Transitions.antt the beginning and the
--   ends of an attempt, Attempts/Reports.antt the transactions on a running attempt,
--   Attempts/Proposals.antt and Attempts/Begins.antt those of the preflight, which call the checks of
--   Retry/Hub.antt, Attempts/Events.antt those on deploys, and Attempts/NodeReports.antt the reports of
--   deploys that a node starts by itself. Attempts/Calls.antt puts them in a
--   sequence, as the lock of the store does. The time, the order of texts and the test of a deadline
--   are parameters. Attempts/Rule.antt is a proof rule: what the statement groups keep, every sequence
--   of transactions keeps; Attempts/Ownership, Attempts/Lifecycle and Attempts/Evidence apply it.
--   Attempts/Writes.antt adds the rejections of the dashboard (`reject_deploy` of
--   orch-server/src/haniel_orch/api.py), under the condition that its caller has read.
-- Gate (src/haniel/integrations/deploy_attempt_gate.py): the node's requests for permission and the
--   orchestrator's ACKs. Gate.antt has each method as a step under the gate's lock;
--   Gate/Invariant.antt is what every step keeps, Gate/Denied.antt the fate of a request when the
--   connection changes.
-- Budget (src/haniel/core/deployment_budget.py): the budget that a node declares, in Budget.antt;
--   Budget/Time.antt compares it with the retries of Deployment, whose bounds are in
--   Deployment/Bounds.antt.
--
-- Not modelled: the orchestrator's `supersede_stale_pending_deploys` and `transition_deploy_status`, its
-- table of nodes, the lists that it shows, the graph of dependencies
-- and the scheduling of restarts, the configuration, and all that is input and output (processes, git, HTTP,
-- WebSocket, chat, dashboard). Writers of one journal are taken one after the other, as the code has
-- them; a crash between two writes leaves the journal of the first.
pub mod Prelude
pub mod Gate
pub mod Health
pub mod Errors
pub mod Journal
pub mod Attempts
pub mod Budget
pub mod Deployment
pub mod Retry
