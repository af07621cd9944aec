-- ===== src/Deployment/Coordinator.antt =====
-- `DeploymentCoordinator` of src/haniel/core/deployment.py.
use Prim.Native.String.{◌++◌ as append}
use haniel.Prelude.{
  String, Bool, true, false, not, ◌&&◌, ◌||◌, Option, none, some, List, is_some, same, truthy, ◌==◌,
  if◌then◌else◌,
}
use haniel.Prelude.Json.{Json, string, bool, Fields, member}
use haniel.Errors.{
  Exn, exn, Class, deployment, verification, Link, nothing, linked, message_of, plain_error,
  stable_code,
}
use haniel.Errors.Result.{Result, ok, raise}
use haniel.Journal.Begin.{Intent}
use haniel.Deployment.Machine.{CommandSpec, CommandResult}
use haniel.Deployment.Retrying.{RetrySpec}
use haniel.Deployment.Quiescence.{Expected}

-- `MigrationSpec`: `operation` is "discover" or absent.
pub record MigrationSpec : Type 0 where
  pub operation : Option String
  pub result_contract : Option String
  pub preflight_command : CommandSpec
  pub apply_command : CommandSpec

pub data Strategy : Type 0 where
  rollback roll_forward : Strategy

pub record RecoverySpec : Type 0 where
  pub strategy : Strategy
  pub command : CommandSpec
  pub fallback : Option CommandSpec

pub record ReleaseManifest : Type 0 where
  pub release_id : String
  pub migration : Option MigrationSpec
  pub build_retry : RetrySpec
  pub post_start_verify : List CommandSpec
  pub post_start_verify_retry : RetrySpec
  pub recovery : RecoverySpec

-- The arguments of `execute`, with the plain fields of `DeploymentCallbacks`, and whether its optional
-- callbacks are there.
pub record Deployment : Type 0 where
  pub repo_name : String
  pub previous_head : String
  pub target_head : String
  pub manifest : ReleaseManifest
  pub orchestrator_attempt_id : Option String
  pub node_id : Option String
  pub branch : Option String
  pub manifest_identity : Option String
  pub manifest_digest : Option String
  pub journal_attempt_id : Option String
  pub expected_operation : Option String
  pub request_id : Option String
  pub config_digest : Option String
  pub has_stop_partial : Bool
  pub has_acknowledge : Bool
  pub writer_services : List String
  pub owner_instance : Option String
  pub quiescence_nonce : Option String
  pub callback_config_digest : Option String

pub record DeploymentResult : Type 0 where
  pub status : String
  pub recovered : Bool
  pub skipped : Bool

abbrev pub intent_of : Deployment → Intent
intent_of d = record {
  previous_head = d.previous_head;
  target_head = d.target_head;
  release_id = d.manifest.release_id;
  orchestrator_attempt_id = d.orchestrator_attempt_id;
  node_id = d.node_id;
  branch = d.branch;
  manifest_identity = d.manifest_identity;
  manifest_digest = d.manifest_digest;
  journal_attempt_id = d.journal_attempt_id;
  request_id = d.request_id;
  expected_operation = d.expected_operation;
  config_digest = d.config_digest;
}

-- `bool(manifest.migration and manifest.migration.operation)`
abbrev pub contract_mode : Deployment → Bool
contract_mode d = elim d.manifest.migration [ none ↦ false | some g ↦ truthy g.operation ]

abbrev pub expected : Deployment → Expected
expected d = record {
  request_id = d.request_id;
  repo_name = d.repo_name;
  target_head = d.target_head;
  owner_instance = d.owner_instance;
  quiescence_nonce = d.quiescence_nonce;
  config_digest = d.callback_config_digest;
  writer_services = d.writer_services;
}

-- `DeploymentVerificationError(error)`: its code is that of the error.
unfoldable pub verification_error : Exn → Exn
verification_error e =
    exn verification (some (stable_code e))
      (append "deployment verification failed; target preserved: " (message_of e)) nothing
      (linked e)

-- `DeploymentError(message, recovery_error=recovery) from cause`
abbrev pub deployment_error : String → Link → Link → Exn
deployment_error message recovery cause = exn deployment none message recovery cause

abbrev pub is_verification : Class → Bool
is_verification verification = true
is_verification _ = false

-- `except DeploymentError` also takes its subclass.
abbrev pub is_deployment : Class → Bool
is_deployment deployment = true
is_deployment verification = true
is_deployment _ = false

-- `{...}.get(phase, "DATABASE_COMMAND_FAILED")`, for the phases that the coordinator runs.
unfoldable pub phase_code : String → String
phase_code phase =
    if phase == "preflight"
    then "PREFLIGHT_FAILED"
    else if phase == "backup"
    then "BACKUP_CREATE_FAILED"
    else if phase == "verify_backup"
    then "BACKUP_VERIFY_FAILED"
    else if phase == "apply"
    then "APPLY_FAILED"
    else if phase == "recovery"
    then "RECOVERY_FAILED"
    else "DATABASE_COMMAND_FAILED"

abbrev pub json_of : Option CommandResult → Option Fields
json_of none = none
json_of (some r) = r.json_data

abbrev pub is_true : Json → Bool
is_true (bool true) = true
is_true _ = false

abbrev pub equals_text : Json → Option String → Bool
equals_text (string s) (some e) = s == e
equals_text _ _ = false

-- An operation that a preflight may give.
abbrev pub operation_in : Json → Option String
operation_in (string s) = if s == "fresh_install" || s == "upgrade" then some s else none
operation_in _ = none

abbrev pub path_in : Json → Option String
path_in (string s) = if s == "" then none else some s
path_in _ = none

abbrev pub with_path : (operation : String) → Option String → Result (String × String)
with_path operation none = raise (plain_error "PREFLIGHT_FAILED: journal_path is required")
with_path operation (some path) = ok (operation, path)

abbrev text_or_empty : Option String → String
text_or_empty none = ""
text_or_empty (some s) = s

abbrev pub contract_of :
    (operation : String) → (wanted path : Option String) → Result (String × String)
contract_of operation wanted path =
    if is_some wanted && not (same (some operation) wanted)
    then raise (
        plain_error (
          append "OPERATION_MISMATCH: expected "
            (append (text_or_empty wanted) (append ", got " operation))))
    else with_path operation path

abbrev pub with_operation : Option String → Option String → Option String → Result (String × String)
with_operation none wanted path = raise (plain_error "PREFLIGHT_FAILED: invalid operation")
with_operation (some operation) wanted path = contract_of operation wanted path

abbrev pub contract_with :
    MigrationSpec → (wanted : Option String) → Option Fields → Result (String × String)
contract_with g wanted none = raise (plain_error "PREFLIGHT_FAILED: expected a JSON result object")
contract_with g wanted (some payload) =
    if truthy g.result_contract
      && not (equals_text (member "schema_version" payload) g.result_contract)
    then raise (plain_error "PREFLIGHT_FAILED: result contract mismatch")
    else if not (is_true (member "ok" payload))
    then raise (plain_error "PREFLIGHT_FAILED: preflight did not return ok=true")
    else with_operation (operation_in (member "operation" payload)) wanted
        (path_in (member "journal_path" payload))

-- `_preflight_contract`: the operation and the path of the database's journal.
unfoldable pub preflight_contract :
    MigrationSpec → Option CommandResult → (wanted : Option String) → Result (String × String)
preflight_contract g result wanted = contract_with g wanted (json_of result)
