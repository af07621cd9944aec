-- ===== src/Deployment/Recover.antt =====
-- `_recover_and_raise` of src/haniel/core/deployment.py, and `execute` around the deployment.
use Prim.Native.String.{◌++◌ as append}
use haniel.Prelude.{String, Bool, true, false, Option, none, some, if◌then◌else◌}
use haniel.Prelude.Dict
use haniel.Errors.{Exn, nothing, linked, class_of, message_of, plain_error}
use haniel.Journal.Record.{recovering, failed, Redaction}
use haniel.Journal.Begin.{begin}
use haniel.Journal.Updates.{is_success}
use haniel.Deployment.Machine.{
  CommandSpec, Environment, started, rolled_back, prepared, stopped_partial, World, Action, ◌>>=◌,
  ◌>>◌, catching, pure, throw, modify, read_machine, on_store,
}
use haniel.Deployment.Retrying.{Numeral, run}
use haniel.Deployment.Coordinator.{
  Strategy, rollback, roll_forward, Deployment, DeploymentResult, intent_of, contract_mode,
  deployment_error, is_verification, is_deployment,
}
use haniel.Deployment.Execute.{
  is_fresh, begun, operation_text, move, call, environment, run_database, verify, deploy,
}

abbrev pub is_roll_forward : Strategy → Bool
is_roll_forward roll_forward = true
is_roll_forward rollback = false

module _ (redaction : Redaction) (w : World) (numeral : Numeral) (d : Deployment) where
  abbrev pub partial_stop : Action (Unit {0})
  partial_stop =
      if d.has_stop_partial
      then call redaction w numeral d stopped_partial
      else throw (plain_error "partial target stop callback is unavailable")

  abbrev pub cleanup_error : (e cleanup : Exn) → Exn
  cleanup_error e cleanup =
      deployment_error "RECOVERY_FAILED: fresh target processes could not be stopped"
        (linked cleanup) (linked e)

  abbrev pub cleanup_failed : (e cleanup : Exn) → Action (Unit {0})
  cleanup_failed e cleanup =
      move redaction w numeral d failed
        (some
          (append "fresh_install failed and partial target cleanup failed: " (message_of cleanup)))
        (some false) (some (cleanup_error e cleanup))
      >> throw (cleanup_error e cleanup)

  -- The branch for a fresh install: nothing is undone.
  unfoldable pub give_up : Exn → Action DeploymentResult
  give_up e = do
    attempted ← read_machine (λ m. m.target_start_attempted)
    if attempted then catching partial_stop (cleanup_failed e) else pure tt
    move redaction w numeral d failed
        (some (append "fresh_install failed without destructive recovery: " (message_of e)))
        (some false) (some e)
    throw (deployment_error (append "deployment failed: " (message_of e)) nothing (linked e))

  abbrev pub recovered_error : Exn → Exn
  recovered_error e =
      deployment_error (append "deployment failed but availability recovered: " (message_of e))
        nothing (linked e)

  -- `transition(..., "failed", recovered=True)` and `raise DeploymentError(..., recovered=True)`.
  unfoldable pub close_recovered : {A : Type 0} → String → Exn → Action A
  close_recovered {A} text e = do
    move redaction w numeral d failed (some (append text (message_of e))) (some true) (some e)
    throw (recovered_error e)

  abbrev pub recovery_environment : Environment → Option String → Environment
  recovery_environment env operation =
      Dict.put "HANIEL_FAILED_DATABASE_OPERATION" (operation_text operation)
        (Dict.put "HANIEL_DATABASE_OPERATION" "recovery" env)

  abbrev pub recover_database : Action (Unit {0})
  recover_database = do
    begun_migration ← read_machine (λ m. m.migration_started)
    env ← read_machine (λ m. m.environment)
    operation ← read_machine (λ m. m.operation)
    if begun_migration
        then (run_database redaction w numeral d "recovery" d.manifest.recovery.command
              (recovery_environment env operation)
            >>= λ _. pure tt)
        else pure tt

  -- The contract's recovery: the database by its command, then the repository.
  unfoldable pub recover_contract : Exn → Action (Unit {0})
  recover_contract e = do
    recover_database
    call redaction w numeral d rolled_back
    close_recovered "deployment failed but database and repository recovery completed: " e

  abbrev pub plain_run : (site : String) → CommandSpec → Environment → Action (Unit {0})
  plain_run site command env = run w numeral site command env >>= λ _. pure tt

  abbrev pub fall_back_with : Environment → Exn → Option CommandSpec → Action (Unit {0})
  fall_back_with env e none = throw e
  fall_back_with env e (some command) = do
    call redaction w numeral d prepared
    plain_run "fallback" command env
    call redaction w numeral d rolled_back

  abbrev pub fall_back : Environment → Exn → Action (Unit {0})
  fall_back env e = fall_back_with env e d.manifest.recovery.fallback

  abbrev pub forward : Environment → Action (Unit {0})
  forward env = do
    call redaction w numeral d prepared
    plain_run "recovery" d.manifest.recovery.command env
    call redaction w numeral d started
    verify redaction w numeral d env

  abbrev pub backward : Environment → Action (Unit {0})
  backward env = do
    plain_run "recovery" d.manifest.recovery.command env
    call redaction w numeral d rolled_back

  -- The recovery of a release without the contract.
  unfoldable pub recover_plain : Action (Unit {0})
  recover_plain = do
    begun_migration ← read_machine (λ m. m.migration_started)
    env ← read_machine (λ m. m.environment)
    if begun_migration
        then catching
            (if is_roll_forward d.manifest.recovery.strategy then forward env else backward env)
            (fall_back env)
        else call redaction w numeral d rolled_back

  abbrev pub recovery_error : (e recovery : Exn) → Exn
  recovery_error e recovery =
      deployment_error
        (append "deployment failed: "
          (append (message_of e) (append "; recovery failed: " (message_of recovery))))
        (linked recovery) (linked e)

  unfoldable pub recovery_failed : (e recovery : Exn) → Action (Unit {0})
  recovery_failed e recovery = if is_deployment (class_of recovery) then throw recovery else (do
    move redaction w numeral d failed (some (append "recovery failed: " (message_of recovery)))
        (some false) (some (recovery_error e recovery))
    throw (recovery_error e recovery))

  unfoldable pub undo : Exn → Action DeploymentResult
  undo e = do
    catching (if contract_mode d then recover_contract e else recover_plain) (recovery_failed e)
    close_recovered "deployment failed but availability recovered: " e

  unfoldable pub recover_and_raise : Exn → Action DeploymentResult
  recover_and_raise e = do
    move redaction w numeral d recovering (some (message_of e)) none none
    operation ← read_machine (λ m. m.operation)
    if is_fresh operation then give_up e else undo e

  -- The `except` clauses of `execute`.
  unfoldable pub on_error : Exn → Action DeploymentResult
  on_error e = if is_verification (class_of e) then throw e else recover_and_raise e

  unfoldable pub start_attempt : Action (Unit {0})
  start_attempt =
      on_store
        (λ m. begun (begin redaction (w.now m) (w.fresh m) d.repo_name (intent_of d) m.store))
      >> modify (λ m. record m {
        environment = environment redaction w numeral d;
        migration_started = false;
        target_start_attempted = false;
        operation = d.expected_operation;
      })

  abbrev pub has_succeeded : Action Bool
  has_succeeded =
      read_machine
        (λ m. is_success redaction d.repo_name d.target_head d.manifest.release_id m.store)

  unfoldable pub execute : Action DeploymentResult
  execute = do
    done ← has_succeeded
    if done
        then pure (record { status = "success"; recovered = false; skipped = true })
        else (do start_attempt; catching (deploy redaction w numeral d) on_error)
