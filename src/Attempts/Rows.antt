-- ===== src/Attempts/Rows.antt =====
-- The tables of orch-server/src/haniel_orch/deploy_attempt_schema.py and event_store.py that the
-- deploy-attempt transactions read and write, their rows, and the transactions themselves.
use haniel.Prelude.{ℕ, String, Bool, Option, List, [], true, false}
use haniel.Retry.Messages.{Mode, Probe}

-- `DeployStatus`
pub data Status : Type 0 where
  pending approved rejected deploying succeeded failed : Status

abbrev pub is_pending : Status → Bool
is_pending pending = true
is_pending _ = false

abbrev pub is_deploying : Status → Bool
is_deploying deploying = true
is_deploying _ = false

-- A row of `deploy_events`.
pub record Event : Type 0 where
  pub deploy_id : String
  pub node_id : String
  pub repo : String
  pub branch : String
  pub status : Status
  pub commits_json : String
  pub affected_services_json : String
  pub diff_stat : Option String
  pub detected_at : String
  pub approved_by : Option String
  pub reject_reason : Option String
  pub error : Option String
  pub duration_ms : Option ℕ
  pub created_at : String
  pub updated_at : String
  pub target_head : Option String
  pub expected_manifest_identity : Option String
  pub expected_manifest_digest : Option String

pub record Terminal : Type 0 where
  pub kind : String
  pub stage : String
  pub reason : String
  pub message : String

pub data ProbeStatus : Type 0 where
  active proposed begun terminal : ProbeStatus

-- `status IN ('active','proposed')`
abbrev pub is_open : ProbeStatus → Bool
is_open active = true
is_open proposed = true
is_open _ = false

-- A row of `deploy_plan_probes`.
pub record ProbeRow : Type 0 where
  pub probe : Probe
  pub requested_orchestrator_attempt_id : Option String
  pub status : ProbeStatus
  pub mode : Option Mode
  pub proposal_fingerprint : Option String
  pub ended : Option Terminal
  pub created_at : String
  pub deadline_at : String
  pub completed_at : Option String

pub data Outcome : Type 0 where
  active success evidence_recovered_success failed superseded : Outcome

abbrev pub is_active : Outcome → Bool
is_active active = true
is_active _ = false

-- A row of `deploy_attempts`.
pub record Attempt : Type 0 where
  pub orchestrator_attempt_id : String
  pub deploy_id : String
  pub node_id : String
  pub repo : String
  pub branch : String
  pub target_head : String
  pub source : String
  pub execution_mode : Mode
  pub approved_by : String
  pub probe_id : Option String
  pub connection_generation : String
  pub proposal_fingerprint : Option String
  pub source_orchestrator_attempt_id : Option String
  pub journal_attempt_id : Option String
  pub manifest_identity : Option String
  pub manifest_digest : Option String
  pub journal_target_head : Option String
  pub journal_completed_at : Option String
  pub original_previous_head : Option String
  pub result_status : Option String
  pub result_error : Option String
  pub duration_ms : Option ℕ
  pub settled_local_head : Option String
  pub settled_remote_head : Option String
  pub settled_at : Option String
  pub outcome : Outcome
  pub ended : Option Terminal
  pub commits_json : String
  pub affected_services_json : String
  pub diff_stat : Option String
  pub detected_at : String
  pub started_at : String
  pub expected_budget_sec : Option ℕ
  pub deadline_at : String
  pub completed_at : Option String

-- A row of `deploy_retry_requirements`: the marker that a deploy needs a manual retry.
pub record Requirement : Type 0 where
  pub deploy_id : String
  pub source_orchestrator_attempt_id : String
  pub last_failed_orchestrator_attempt_id : String
  pub created_at : String
  pub updated_at : String

-- A row of `deploy_retry_source_attempts`.
pub record SourceAttempt : Type 0 where
  pub deploy_id : String
  pub lineage_orchestrator_attempt_id : String
  pub added_at : String

-- A row of `node_deploy_attempts`; its outcome is active, success or failed.
pub record NodeAttempt : Type 0 where
  pub node_attempt_id : String
  pub journal_attempt_id : Option String
  pub deploy_id : String
  pub node_id : String
  pub repo : String
  pub branch : String
  pub target_head : String
  pub trigger : String
  pub outcome : Outcome
  pub started_local_head : String
  pub terminal_local_head : Option String
  pub error : Option String
  pub duration_ms : Option ℕ
  pub started_at : String
  pub completed_at : Option String

pub record Db : Type 0 where
  pub deploy_events : List Event
  pub deploy_plan_probes : List ProbeRow
  pub deploy_attempts : List Attempt
  pub deploy_retry_requirements : List Requirement
  pub deploy_retry_source_attempts : List SourceAttempt
  pub node_deploy_attempts : List NodeAttempt

abbrev pub empty : Db
empty = record {
  deploy_events = [];
  deploy_plan_probes = [];
  deploy_attempts = [];
  deploy_retry_requirements = [];
  deploy_retry_source_attempts = [];
  node_deploy_attempts = [];
}

-- What one transaction takes from outside: the time, whether a stored deadline lies behind it, and
-- two of SQLite's tests on texts, `a > b` and `a LIKE 'attempt:%'`.
pub record Clock : Type 0 where
  pub now_iso : String
  pub expired : String → Bool
  pub above : String → String → Bool
  pub is_attempt_id : String → Bool

pub data StoreError : Type 0 where
  value_error permission_error runtime_error : String → StoreError
  integrity_error : StoreError

-- What a method answers: the value of "status" in its dict, with the rest of the dict.
pub data Reply : Type 0 where
  ignored recorded duplicate_begun : Reply
  node_report : Outcome → Reply
  ignored_because terminated : String → Reply
  has_begun succeeded has_failed was_superseded : String → Reply
  renewed : String → Option ℕ → Reply
  deadline_changed : String → Reply
  changed : Bool → Reply
  closed : List String → Reply

-- The body of a method: a value with the new tables, or an exception.
pub data Body (A : Type 0) : Type 0 where
  returns : A → Db → Body A
  raises : StoreError → Body A

pub data Answer (A : Type 0) : Type 0 where
  answers : A → Answer A
  fails : StoreError → Answer A

infixl 5 ◌>>=◌
abbrev pub ◌>>=◌ : {A B : Type 0} → Body A → (A → Db → Body B) → Body B
returns a db >>= f = f a db
raises e >>= f = raises e

-- The commit at the end of a method, and the rollback of its `except`.
unfoldable pub transaction : {A : Type 0} → Db → Body A → Answer A × Db
transaction db (returns a after) = (answers a, after)
transaction db (raises e) = (fails e, db)
