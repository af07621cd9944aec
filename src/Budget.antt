-- ===== src/Budget.antt =====
-- src/haniel/core/deployment_budget.py: the budget of a deployment that a node declares. Seconds are
-- whole numbers.
mod Time
mod Examples
use haniel.Prelude.{
  ℕ, ◌+◌, ◌*◌, String, Bool, true, false, Option, none, some, List, [], ◌∷◌, same, is_some,
  if◌then◌else◌,
}
use haniel.Prelude.Dict
use haniel.Prelude.Dict.{Dict}
use haniel.Deployment.Coordinator.{ReleaseManifest}
use haniel.Deployment.Bounds.{timeouts}

-- `HooksConfig`, the fields that the budget reads.
pub record Hooks : Type 0 where
  pub timeout : ℕ
  pub post_pull : Option String
  pub pre_start : Option String

-- `ServiceConfig`, the fields that the budget reads, and whether `ready_timeout` is among its
-- `model_fields_set`.
pub record ServiceConfig : Type 0 where
  pub repo : Option String
  pub ready_timeout : ℕ
  pub ready_timeout_set : Bool
  pub hooks : Option Hooks

abbrev pub Services : Type 0
Services = Dict ServiceConfig

pub record DeploymentBudget : Type 0 where
  pub build_hooks_sec : ℕ
  pub pre_start_hooks_sec : ℕ
  pub readiness_sec : ℕ
  pub verification_sec : ℕ
  pub recovery_sec : ℕ
  pub total_sec : ℕ

abbrev pub is_owned : (repo_name : String) → Option ServiceConfig → Bool
is_owned repo_name none = false
is_owned repo_name (some service) = same service.repo (some repo_name)

unfoldable pub repo_owned_services : (repo_name : String) → List String → Services → List String
repo_owned_services repo_name [] services = []
repo_owned_services repo_name (name ∷ names) services =
    let rest = repo_owned_services repo_name names services in
    if is_owned repo_name (Dict.get name services) then name ∷ rest else rest

unfoldable pub effective_ready_timeout : ServiceConfig → (process_default : ℕ) → ℕ
effective_ready_timeout service process_default =
    if service.ready_timeout_set then service.ready_timeout else process_default

-- The limit of a hook that a service has.
abbrev pub hook_sec : (Hooks → Option String) → Option Hooks → ℕ
hook_sec hook none = 0
hook_sec hook (some hooks) = if is_some (hook hooks) then hooks.timeout else 0

abbrev pub service_sec : (ServiceConfig → ℕ) → Option ServiceConfig → ℕ
service_sec seconds none = 0
service_sec seconds (some service) = seconds service

-- A sum over the services of a list, those that are not configured left out.
unfoldable pub sum_of : (ServiceConfig → ℕ) → List String → Services → ℕ
sum_of seconds [] services = 0
sum_of seconds (name ∷ names) services =
    service_sec seconds (Dict.get name services) + sum_of seconds names services

abbrev pub build_sec : ServiceConfig → ℕ
build_sec service = hook_sec (λ h. h.post_pull) service.hooks

abbrev pub start_sec : ServiceConfig → ℕ
start_sec service = hook_sec (λ h. h.pre_start) service.hooks

abbrev pub ready_sec : ServiceConfig → ℕ
ready_sec service = service.ready_timeout

unfoldable pub expected_deployment_budget :
    (repo_name : String) → List String → Services → ReleaseManifest → DeploymentBudget
expected_deployment_budget repo_name affected services manifest =
    let one_build_attempt_sec =
      sum_of build_sec (repo_owned_services repo_name affected services) services in
    let build_hooks_sec = one_build_attempt_sec * manifest.build_retry.max_attempts in
    let pre_start_hooks_sec = sum_of start_sec affected services in
    let readiness_sec = sum_of ready_sec affected services in
    let verification_sec = timeouts manifest.post_start_verify in
    let recovery_sec = one_build_attempt_sec + readiness_sec in
    record {
      build_hooks_sec = build_hooks_sec;
      pre_start_hooks_sec = pre_start_hooks_sec;
      readiness_sec = readiness_sec;
      verification_sec = verification_sec;
      recovery_sec = recovery_sec;
      total_sec =
          build_hooks_sec + pre_start_hooks_sec + readiness_sec + verification_sec + recovery_sec;
    }
