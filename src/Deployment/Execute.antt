-- ===== src/Deployment/Execute.antt =====
-- `DeploymentCoordinator.execute` of src/haniel/core/deployment.py, and its recovery.
use haniel.Prelude.{
  String, Bool, true, false, not, ◌&&◌, ◌||◌, Option, none, some, [], ◌∷◌, same, ◌==◌,
  if◌then◌else◌,
}
use haniel.Prelude.Dict
use haniel.Prelude.Json.{Json, obj, Fields}
use haniel.Errors.{
  Exn, exn, stable, nothing, linked, class_of, message_of, plain_error, stable_code, unclassified,
}
use haniel.Errors.Result.{Result, ok, raise}
use haniel.Journal.Record.{
  State, preflight, migrating, starting, verifying, success, verification_failed, Redaction,
  Journal,
}
use haniel.Journal.Path.{Store, read, write_receipt}
use haniel.Journal.Updates.{transition, link_release_contract, record_database_result}
use haniel.Deployment.Machine.{
  CommandSpec, CommandResult, Environment, Event, built, stopped, started, acknowledged, World,
  Action, ◌>>=◌, ◌>>◌, catching, pure, throw, modify, read_machine, perform, on_store,
}
use haniel.Deployment.Retrying.{Label, Numeral, run, run_with_retry, verify_with_retry}
use haniel.Deployment.Quiescence.{validate_quiescence_receipt}
use haniel.Deployment.Coordinator.{
  MigrationSpec, Deployment, DeploymentResult, contract_mode, expected, verification_error,
  phase_code, json_of, preflight_contract,
}

abbrev pub is_stable : Exn → Bool
is_stable e = elim (class_of e) [ stable ↦ true | _ ↦ false ]

abbrev pub build_label : Label
build_label = record {
  operation_label = "build phase";
  exhausted_error_code = "BUILD_RETRIES_EXHAUSTED";
  interrupted_error_code = "BUILD_RETRY_INTERRUPTED";
  retry_if = λ e. not (is_stable e);
}

abbrev pub put_some : String → Option String → Environment → Environment
put_some k none env = env
put_some k (some v) env = Dict.put k v env

abbrev pub begun : Result (String × Store) → Result Store
begun (ok r) = ok r.1
begun (raise e) = raise e

abbrev pub is_fresh : Option String → Bool
is_fresh operation = same operation (some "fresh_install")

abbrev pub is_upgrade : Option String → Bool
is_upgrade operation = same operation (some "upgrade")

-- `str(state_store.read(repo_name)["database_journal_path"])`, a `KeyError` where it is absent.
abbrev pub recorded_path : Option String → Result String
recorded_path none = raise (plain_error "'database_journal_path'")
recorded_path (some path) = ok path

abbrev pub database_path : Option Journal → Result String
database_path none = raise (plain_error "'NoneType' object is not subscriptable")
database_path (some j) = recorded_path j.database_journal_path

abbrev pub operation_text : Option String → String
operation_text none = "None"
operation_text (some o) = o

module _ (redaction : Redaction) (w : World) (numeral : Numeral) (d : Deployment) where
  unfoldable pub move : State → Option String → Option Bool → Option Exn → Action (Unit {0})
  move state message recovered error =
      on_store
        (λ m. transition redaction (w.now m) d.repo_name state message recovered error m.store)

  abbrev pub call : Event → Action (Unit {0})
  call event = perform event (λ m. w.call m event)

  -- The variables of `execute` at the start of the attempt.
  unfoldable pub environment : Environment
  environment = put_some "HANIEL_CONFIG_DIGEST" d.config_digest (
      put_some "HANIEL_DATABASE_OPERATION" d.expected_operation (
        put_some "HANIEL_REQUEST_ID" d.request_id (
          ("HANIEL_DEPLOY_REPO", d.repo_name)
          ∷ ("HANIEL_RELEASE_ID", d.manifest.release_id)
          ∷ ("HANIEL_PREVIOUS_HEAD", d.previous_head)
          ∷ ("HANIEL_TARGET_HEAD", d.target_head)
          ∷ (
            "HANIEL_PREVIOUS_RELEASE_PRESENT",
            if is_fresh d.expected_operation then "false" else "true",
          )
          ∷ ("HANIEL_DEPLOYMENT_JOURNAL", w.journal_path d.repo_name)
          ∷ [])))

  abbrev pub result_kept : String → Option Fields → Action (Unit {0})
  result_kept phase none = pure tt
  result_kept phase (some payload) =
      on_store (λ m. record_database_result redaction d.repo_name phase (obj payload) m.store)

  abbrev pub keep_result : String → Option CommandResult → Action (Unit {0})
  keep_result phase result = result_kept phase (json_of result)

  abbrev pub coded : String → Exn → Exn
  coded phase e =
      if stable_code e == unclassified
      then exn stable (some (phase_code phase)) (message_of e) nothing (linked e)
      else e

  -- `_run_database`
  unfoldable pub run_database : String → CommandSpec → Environment → Action (Option CommandResult)
  run_database phase command env = do
    result ← catching (run w numeral phase command env) (λ e. throw (coded phase e))
    keep_result phase result
    pure result

  abbrev pub link : (operation path : String) → Option Json → Action (Unit {0})
  link operation path receipt =
      on_store (λ m.
        link_release_contract redaction d.repo_name d.request_id operation path receipt m.store)

  unfoldable pub build_phase : Action (Unit {0})
  build_phase = do
    _ ←
        run_with_retry w numeral build_label (call built) d.manifest.build_retry
          d.manifest.build_retry.total_grace
    move preflight none none none

  abbrev pub link_operation : String × String → Action (Unit {0})
  link_operation (operation, path) =
      modify (λ m. record m {
        operation = some operation;
        environment = Dict.put "HANIEL_DATABASE_OPERATION" operation m.environment;
      })
      >> link operation path none

  abbrev pub lift_result : {A : Type 0} → Result A → Action A
  lift_result r m = (r, m)

  unfoldable pub preflight_with : Option MigrationSpec → Action (Unit {0})
  preflight_with none = pure tt
  preflight_with (some g) = do
    env ← read_machine (λ m. m.environment)
    result ← run_database "preflight" g.preflight_command env
    if contract_mode d
        then (lift_result (preflight_contract g result d.expected_operation) >>= link_operation)
        else pure tt

  abbrev pub stop_services : Action (Option Fields)
  stop_services = perform stopped w.stop

  abbrev pub acknowledge : Fields → Action (Unit {0})
  acknowledge receipt = if d.has_acknowledge then call (acknowledged receipt) else pure tt

  abbrev pub write_down : Fields → Action (Unit {0})
  write_down receipt = modify (λ m. record m {
    store = write_receipt redaction d.repo_name (obj receipt) m.store;
    environment = Dict.put "HANIEL_QUIESCENCE_RECEIPT" (w.receipt_path d.repo_name) m.environment;
  })

  -- A valid receipt is acknowledged, written and linked. `assert quiescence_receipt is not None`.
  abbrev pub with_receipt : Option Fields → Action (Unit {0})
  with_receipt none = throw (plain_error "")
  with_receipt (some receipt) = do
    acknowledge receipt
    write_down receipt
    path ← (λ m. (database_path (read m.store d.repo_name), m))
    operation ← read_machine (λ m. m.operation)
    link (operation_text operation) path (some (obj receipt))

  unfoldable pub quiesce : Action (Unit {0})
  quiesce = do
    operation ← read_machine (λ m. m.operation)
    if not (contract_mode d) || is_upgrade operation
        then (do
          receipt ← stop_services
          if contract_mode d && is_upgrade operation
              then (lift_result (validate_quiescence_receipt (expected d) receipt)
                  >> with_receipt receipt)
              else pure tt)
        else pure tt

  unfoldable pub migrate_with : Option MigrationSpec → Action (Unit {0})
  migrate_with none = pure tt
  migrate_with (some g) = do
    modify (λ m. record m { migration_started = true })
    env ← read_machine (λ m. m.environment)
    _ ← run_database "apply" g.apply_command env
    pure tt

  -- `_verify`
  abbrev pub verify : Environment → Action (Unit {0})
  verify env =
      verify_with_retry w numeral d.manifest.post_start_verify env
        d.manifest.post_start_verify_retry d.manifest.post_start_verify_retry.total_grace

  unfoldable pub verify_target : Action (Unit {0})
  verify_target = do
    env ← read_machine (λ m. m.environment)
    catching (verify env) (λ e.
        move verification_failed (some (message_of (verification_error e))) (some false)
          (some (verification_error e))
        >> throw (verification_error e))

  unfoldable pub handover : Action (Unit {0})
  handover = do
    move starting none none none
    modify (λ m. record m { target_start_attempted = true })
    call started
    move verifying none none none

  -- The body of the `try` of `execute`.
  unfoldable pub deploy : Action DeploymentResult
  deploy = do
    build_phase
    preflight_with d.manifest.migration
    quiesce
    move migrating none none none
    migrate_with d.manifest.migration
    handover
    verify_target
    move success none none none
    pure (record { status = "success"; recovered = false; skipped = false })
