-- ===== src/Journal/Record.antt =====
-- The journal's dict as a record, the terminal states, and the redaction on its way to the disk.
use haniel.Prelude.{String, Bool, true, false, Option, none, List, map, truthy, if◌then◌else◌}
use mathlib.Core.Option
use haniel.Prelude.Json.{Json}

-- The values that the code writes under "state".
pub data State : Type 0 where
  build target_resolving staging_probed preflight migrating starting verifying recovering : State
  success failed verification_failed interrupted aborted : State

-- `state in TERMINAL_STATES`
abbrev pub is_terminal : State → Bool
is_terminal success = true
is_terminal failed = true
is_terminal verification_failed = true
is_terminal interrupted = true
is_terminal aborted = true
is_terminal _ = false

-- An item of "history".
pub record Entry : Type 0 where
  pub state : State
  pub at : String
  pub message : Option String

-- The keys of one attempt, all but "previous_attempts".
pub record Attempt : Type 0 where
  pub repo : String
  pub journal_attempt_id : String
  pub orchestrator_attempt_id : Option String
  pub node_id : Option String
  pub branch : Option String
  pub release_id : String
  pub previous_head : String
  pub target_head : String
  pub state : State
  pub recovered : Bool
  pub history : List Entry
  pub started_at : String
  pub manifest_identity : Option String
  pub manifest_digest : Option String
  pub request_id : Option String
  pub expected_operation : Option String
  pub config_digest : Option String
  pub target_ref : Option String
  pub completed_at : Option String
  pub error_code : Option String
  pub error : Option String
  pub target_preserved : Option Bool
  pub aborted_from : Option State
  pub abort_reason : Option String
  pub interrupted_from : Option State
  pub interruption_reason : Option String
  pub operation : Option String
  pub database_journal_path : Option String
  pub quiescence_receipt : Option Json
  pub database_last_result_phase : Option String
  pub database_last_result : Option Json

pub record Journal : Type 0 where
  pub current : Attempt
  pub open current use *
  pub previous_attempts : List Attempt

-- src/haniel/core/safety_redaction.py, as far as the store calls it: `redact_text`, `redact_value`
-- on nested JSON, and `bounded_redact_text` with the journal's limit.
pub record Redaction : Type 0 where
  pub text : String → String
  pub value : Json → Json
  pub bounded : String → String

module _ (redaction : Redaction) where
  abbrev pub redact_entry : Entry → Entry
  redact_entry e = record e {
    at = redaction.text e.at;
    message = Option.map redaction.text e.message;
  }

  -- `redact_value` on the keys of one attempt: no key is sensitive, so each text is redacted in place.
  unfoldable pub redact_attempt : Attempt → Attempt
  redact_attempt a = record {
    repo = redaction.text a.repo;
    journal_attempt_id = redaction.text a.journal_attempt_id;
    orchestrator_attempt_id = Option.map redaction.text a.orchestrator_attempt_id;
    node_id = Option.map redaction.text a.node_id;
    branch = Option.map redaction.text a.branch;
    release_id = redaction.text a.release_id;
    previous_head = redaction.text a.previous_head;
    target_head = redaction.text a.target_head;
    state = a.state;
    recovered = a.recovered;
    history = map redact_entry a.history;
    started_at = redaction.text a.started_at;
    manifest_identity = Option.map redaction.text a.manifest_identity;
    manifest_digest = Option.map redaction.text a.manifest_digest;
    request_id = Option.map redaction.text a.request_id;
    expected_operation = Option.map redaction.text a.expected_operation;
    config_digest = Option.map redaction.text a.config_digest;
    target_ref = Option.map redaction.text a.target_ref;
    completed_at = Option.map redaction.text a.completed_at;
    error_code = Option.map redaction.text a.error_code;
    error = Option.map redaction.text a.error;
    target_preserved = a.target_preserved;
    aborted_from = a.aborted_from;
    abort_reason = Option.map redaction.text a.abort_reason;
    interrupted_from = a.interrupted_from;
    interruption_reason = Option.map redaction.text a.interruption_reason;
    operation = Option.map redaction.text a.operation;
    database_journal_path = Option.map redaction.text a.database_journal_path;
    quiescence_receipt = Option.map redaction.value a.quiescence_receipt;
    database_last_result_phase = Option.map redaction.text a.database_last_result_phase;
    database_last_result = Option.map redaction.value a.database_last_result;
  }

  unfoldable pub redact_journal : Journal → Journal
  unfolding redact_attempt
  redact_journal j = record {
    current = redact_attempt j.current;
    previous_attempts = map redact_attempt j.previous_attempts;
  }

  -- `_entry`: an empty message is left out.
  unfoldable pub entry : (at : String) → State → Option String → Entry
  entry at state message = record {
    state = state;
    at = at;
    message = if truthy message then Option.map redaction.bounded message else none;
  }
