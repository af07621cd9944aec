-- ===== src/Deployment/Kept.antt =====
-- The body of `execute` keeps every property that calm calls keep.
use haniel.Prelude.{◌≡◌, refl, String, Bool, true, false, not, ◌||◌, ◌&&◌, Option, none, some}
use haniel.Prelude.Dict
use haniel.Prelude.Json.{Json, obj, Fields}
use haniel.Errors.{Exn, message_of}
use haniel.Errors.Result.{Result, ok, raise}
use haniel.Journal.Record.{
  State, Redaction, preflight, migrating, starting, verifying, success, verification_failed,
}
use haniel.Journal.Path.{read, write_receipt}
use haniel.Deployment.Machine.{
  CommandSpec, CommandResult, Environment, Event, built, stopped, started, acknowledged, ran,
  Machine, World, ◌>>=◌, ◌>>◌, catching, pure, throw, modify, read_machine,
}
use haniel.Deployment.Retrying.{Numeral, run, run_with_retry}
use haniel.Deployment.Quiescence.{validate_quiescence_receipt}
use haniel.Deployment.Coordinator.{
  MigrationSpec, Deployment, contract_mode, expected, json_of, preflight_contract,
  verification_error,
}
use haniel.Deployment.Execute.{
  build_label, move, call, keep_result, result_kept, coded, run_database, link, build_phase,
  link_operation, lift_result, preflight_with, stop_services, acknowledge, write_down, with_receipt,
  quiesce, migrate_with, verify, verify_target, handover, deploy, is_upgrade, operation_text,
  database_path,
}
use haniel.Deployment.Calm.{
  is_calm, IsSteady, Keep, then-Keep, catch-Keep, if-Keep, lift-Keep, perform-Keep, store-Keep,
  retry-Keep, run-Keep, verify-Keep,
}

module _ (redaction : Redaction) (w : World) (numeral : Numeral) (d : Deployment)
    (K : Machine → Type 0) (steady : IsSteady d K) where
  pub move-Keep :
      (state : State) (message : Option String) (r : Option Bool) (e : Option Exn)
      → Keep K (move redaction w numeral d state message r e)
  unfolding move
  move-Keep state message r e = store-Keep K d steady _

  pub call-Keep : (event : Event) → is_calm event ≡ true → Keep K (call redaction w numeral d event)
  call-Keep event calm = perform-Keep K d steady event (λ m. w.call m event) calm

  result-Keep :
      (phase : String) (o : Option Fields) → Keep K (result_kept redaction w numeral d phase o)
  result-Keep phase none = λ m k. k
  result-Keep phase (some payload) = store-Keep K d steady _

  pub database-Keep :
      (phase : String) (command : CommandSpec) (env : Environment)
      → is_calm (ran phase command env) ≡ true
      → Keep K (run_database redaction w numeral d phase command env)
  unfolding run_database
  database-Keep phase command env calm =
      then-Keep K
        (catching (run w numeral phase command env)
          (λ e. throw (coded redaction w numeral d phase e)))
        _
        (catch-Keep K (run w numeral phase command env) _
          (run-Keep K d steady w numeral phase command env calm) (λ e m k. k))
        (λ result.
          then-Keep K (keep_result redaction w numeral d phase result) (λ _. pure result)
            (result-Keep phase (json_of result)) (λ _ m k. k))

  build-Keep : Keep K (build_phase redaction w numeral d)
  unfolding build_phase
  build-Keep =
      then-Keep K
        (run_with_retry w numeral build_label (call redaction w numeral d built)
          d.manifest.build_retry d.manifest.build_retry.total_grace)
        _
        (retry-Keep K d steady w numeral build_label _ d.manifest.build_retry
          d.manifest.build_retry.total_grace (call-Keep built refl))
        (λ _. move-Keep preflight none none none)

  link-Keep :
      (operation path : String) (receipt : Option Json)
      → Keep K (link redaction w numeral d operation path receipt)
  link-Keep operation path receipt = store-Keep K d steady _

  contract-Keep :
      (g : MigrationSpec) (result : Option CommandResult) (r : Result (String × String))
      → preflight_contract g result d.expected_operation ≡ r
      → Keep K (lift_result redaction w numeral d r >>= link_operation redaction w numeral d)
  contract-Keep g result (raise e) h = λ m k. k
  contract-Keep g result (ok (operation, path)) h = λ m k.
      link-Keep operation path none
        (record m {
          operation = some operation;
          environment = Dict.put "HANIEL_DATABASE_OPERATION" operation m.environment;
        })
        (steady.operates g result operation path
          (Dict.put "HANIEL_DATABASE_OPERATION" operation m.environment) m h k)

  preflight-Keep : (o : Option MigrationSpec) → Keep K (preflight_with redaction w numeral d o)
  unfolding preflight_with
  preflight-Keep none = λ m k. k
  preflight-Keep (some g) =
      then-Keep K (read_machine (λ m. m.environment)) _ (λ m k. k)
        (λ env.
          then-Keep K (run_database redaction w numeral d "preflight" g.preflight_command env) _
            (database-Keep "preflight" g.preflight_command env refl)
            (λ result.
              if-Keep K (contract_mode d)
                (lift_result redaction w numeral d
                    (preflight_contract g result d.expected_operation)
                  >>= link_operation redaction w numeral d)
                (pure tt) (λ _. contract-Keep g result _ refl) (λ _ m k. k)))

  write_down-Keep : (receipt : Fields) → Keep K (write_down redaction w numeral d receipt)
  write_down-Keep receipt m k =
      steady.assigns
        (Dict.put "HANIEL_QUIESCENCE_RECEIPT" (w.receipt_path d.repo_name) m.environment)
        m.migration_started m.target_start_attempted
        (record m { store = write_receipt redaction d.repo_name (obj receipt) m.store })
        (steady.stores (write_receipt redaction d.repo_name (obj receipt) m.store) m k)

  receipt-Keep : (o : Option Fields) → Keep K (with_receipt redaction w numeral d o)
  receipt-Keep none = λ m k. k
  receipt-Keep (some receipt) =
      then-Keep K (acknowledge redaction w numeral d receipt) _
        (if-Keep K d.has_acknowledge (call redaction w numeral d (acknowledged receipt)) (pure tt)
          (λ _. call-Keep (acknowledged receipt) refl) (λ _ m k. k))
        (λ _.
          then-Keep K (write_down redaction w numeral d receipt) _ (write_down-Keep receipt) (λ _.
            then-Keep K (λ m. (database_path (read m.store d.repo_name), m)) _
              (lift-Keep K (λ m. database_path (read m.store d.repo_name)))
              (λ path.
                then-Keep K (read_machine (λ m. m.operation)) _ (λ m k. k)
                  (λ operation. link-Keep (operation_text operation) path (some (obj receipt))))))

  quiesce-Keep : Keep K (quiesce redaction w numeral d)
  unfolding quiesce
  quiesce-Keep =
      then-Keep K (read_machine (λ m. m.operation)) _ (λ m k. k)
        (λ operation.
          if-Keep K (not (contract_mode d) || is_upgrade operation) _ (pure tt)
            (λ _.
              then-Keep K (stop_services redaction w numeral d) _
                (perform-Keep K d steady stopped w.stop refl)
                (λ receipt.
                  if-Keep K (contract_mode d && is_upgrade operation)
                    (lift_result redaction w numeral d
                        (validate_quiescence_receipt (expected d) receipt)
                      >> with_receipt redaction w numeral d receipt)
                    (pure tt)
                    (λ _.
                      then-Keep K
                        (lift_result redaction w numeral d
                          (validate_quiescence_receipt (expected d) receipt))
                        _ (lift-Keep K (λ m. validate_quiescence_receipt (expected d) receipt))
                        (λ _. receipt-Keep receipt))
                    (λ _ m k. k)))
            (λ _ m k. k))

  migrate-Keep : (o : Option MigrationSpec) → Keep K (migrate_with redaction w numeral d o)
  unfolding migrate_with
  migrate-Keep none = λ m k. k
  migrate-Keep (some g) =
      then-Keep K (modify (λ m. record m { migration_started = true })) _
        (λ m k. steady.assigns m.environment true m.target_start_attempted m k)
        (λ _.
          then-Keep K (read_machine (λ m. m.environment)) _ (λ m k. k)
            (λ env.
              then-Keep K (run_database redaction w numeral d "apply" g.apply_command env)
                (λ _. pure tt) (database-Keep "apply" g.apply_command env refl) (λ _ m k. k)))

  handover-Keep : Keep K (handover redaction w numeral d)
  unfolding handover
  handover-Keep =
      then-Keep K (move redaction w numeral d starting none none none) _
        (move-Keep starting none none none)
        (λ _.
          then-Keep K (modify (λ m. record m { target_start_attempted = true })) _
            (λ m k. steady.assigns m.environment m.migration_started true m k)
            (λ _.
              then-Keep K (call redaction w numeral d started) _ (call-Keep started refl)
                (λ _. move-Keep verifying none none none)))

  verified-Keep : Keep K (verify_target redaction w numeral d)
  unfolding verify_target
  verified-Keep =
      then-Keep K (read_machine (λ m. m.environment)) _ (λ m k. k)
        (λ env.
          catch-Keep K (verify redaction w numeral d env) _
            (verify-Keep K d steady w numeral d.manifest.post_start_verify env
              d.manifest.post_start_verify_retry d.manifest.post_start_verify_retry.total_grace)
            (λ e.
              then-Keep K
                (move redaction w numeral d verification_failed
                  (some (message_of (verification_error e))) (some false)
                  (some (verification_error e)))
                (λ _. throw (verification_error e)) (move-Keep verification_failed _ _ _)
                (λ _ m k. k)))

  pub deploy-Keep : Keep K (deploy redaction w numeral d)
  unfolding deploy
  deploy-Keep = then-Keep K (build_phase redaction w numeral d) _ build-Keep (λ _.
      then-Keep K (preflight_with redaction w numeral d d.manifest.migration) _
        (preflight-Keep d.manifest.migration)
        (λ _. then-Keep K (quiesce redaction w numeral d) _ quiesce-Keep (λ _.
          then-Keep K (move redaction w numeral d migrating none none none) _
            (move-Keep migrating none none none)
            (λ _.
              then-Keep K (migrate_with redaction w numeral d d.manifest.migration) _
                (migrate-Keep d.manifest.migration)
                (λ _. then-Keep K (handover redaction w numeral d) _ handover-Keep (λ _.
                  then-Keep K (verify_target redaction w numeral d) _ verified-Keep (λ _.
                    then-Keep K (move redaction w numeral d success none none none) _
                      (move-Keep success none none none) (λ _ m k. k))))))))
