-- ===== src/Deployment/Terminal.antt =====
-- The `except` clauses of `execute`, and the whole of it.
use haniel.Prelude.{◌≡◌, refl, String, Bool, true, false, Option, none, some, if◌then◌else◌}
use haniel.Errors.{Exn, deployment, verification, linked, class_of, plain_error, stable_code}
use haniel.Errors.Codes.{is_known, known_codes}
use haniel.Journal.Record.{failed, verification_failed, Redaction}
use haniel.Deployment.Machine.{
  CommandSpec, Environment, Machine, World, Action, ◌>>=◌, ◌>>◌, catching, pure, throw,
  read_machine, started, rolled_back, prepared, stopped_partial,
}
use haniel.Deployment.Retrying.{Numeral, run}
use haniel.Deployment.Coordinator.{Deployment, deployment_error}
use haniel.Deployment.Execute.{move, call, run_database}
use haniel.Deployment.Recover.{
  partial_stop, cleanup_error, cleanup_failed, give_up, recovered_error, close_recovered,
  recovery_environment, recover_database, recover_contract, plain_run, fall_back, fall_back_with,
  forward, backward, recover_plain, is_roll_forward,
}
use haniel.Deployment.Triple.{Triple, triple_bind, triple_catch, triple_if, triple_weaken}
use haniel.Deployment.Stored.{At, IsLive}
use haniel.Deployment.Outcome.{IsExternal, IsForeign, plain-IsExternal, then-Live}
use haniel.Deployment.Retried.{run-Live, verify-Live}
use haniel.Deployment.Phases.{L, E, fail-At, call-Live, run_database-Live}

-- How the recovery raises: a deployment error, with the journal at failed.
pub data Failed (repo : String) (e : Exn) (m : Machine) : Type 0 where
  fails : class_of e ≡ deployment → At repo failed m.store → Failed repo e m

-- How an attempt that was begun raises: the journal says so.
pub data Terminal (repo : String) (e : Exn) (m : Machine) : Type 0 where
  failing : Failed repo e m → Terminal repo e m
  preserves : class_of e ≡ verification → At repo verification_failed m.store → Terminal repo e m

-- How the recovery of a contract's release raises.
pub data Mid (repo : String) (e : Exn) (m : Machine) : Type 0 where
  broken : IsExternal e → IsLive repo m.store → Mid repo e m
  closed : class_of e ≡ deployment → At repo failed m.store → Mid repo e m

-- An error with a cause that was met in the recovery has a registered code.
pub recovery_known :
    (message : String) (recovery e : Exn)
    → is_known (stable_code (deployment_error message (linked recovery) (linked e))) ≡ true
unfolding stable_code is_known known_codes
recovery_known message recovery e = refl

module _ (redaction : Redaction) (w : World) (numeral : Numeral) (d : Deployment) where
  abbrev pub T : Exn → Machine → Type 0
  T = Failed d.repo_name

  -- A transition to "failed" with a known error, and an exception after it.
  fail_and_throw :
      {A : Type 0} (Q : A → Machine → Type 0) (message : Option String) (r : Option Bool)
      (e e' : Exn)
      → is_known (stable_code e) ≡ true
      → class_of e' ≡ deployment
      → Triple (L d) (move redaction w numeral d failed message r (some e) >> throw e') Q T
  fail_and_throw Q message r e e' known class =
      triple_bind (L d) (λ _ m. At d.repo_name failed m.store) Q T
        (move redaction w numeral d failed message r (some e)) (λ _. throw e')
        (fail-At redaction w numeral d T failed message r e refl known) (λ _ m at. fails class at)

  partial-Live : IsForeign w → Triple (L d) (partial_stop redaction w numeral d) (λ _. L d) (E d)
  partial-Live foreign =
      triple_if (L d) (λ _. L d) (E d) d.has_stop_partial _
        (throw (plain_error "partial target stop callback is unavailable"))
        (λ _. call-Live redaction w numeral d stopped_partial foreign)
        (λ _ m v. (plain-IsExternal _, v))

  pub give_up-Failed :
      (e : Exn)
      → IsForeign w
      → is_known (stable_code e) ≡ true
      → Triple (L d) (give_up redaction w numeral d e) (λ _ _. ⊥) T
  unfolding give_up
  give_up-Failed e foreign known =
      then-Live d.repo_name (λ _ _. ⊥) T (read_machine (λ m. m.target_start_attempted)) _ (λ m v. v)
        (λ attempted.
          then-Live d.repo_name (λ _ _. ⊥) T
            (if attempted
              then catching (partial_stop redaction w numeral d)
                  (cleanup_failed redaction w numeral d e)
              else pure tt)
            _
            (triple_if (L d) (λ _. L d) T attempted
              (catching (partial_stop redaction w numeral d)
                (cleanup_failed redaction w numeral d e))
              (pure tt)
              (λ _.
                triple_catch (L d) (λ _. L d) (E d) T (partial_stop redaction w numeral d)
                  (cleanup_failed redaction w numeral d e) (partial-Live foreign)
                  (λ cleanup m v.
                    fail_and_throw (λ _. L d) _ (some false)
                      (cleanup_error redaction w numeral d e cleanup) _ (recovery_known _ cleanup e)
                      refl m v.1))
              (λ _ m v. v))
            (λ _. fail_and_throw (λ _ _. ⊥) _ (some false) e _ known refl))

  pub close-Failed :
      {A : Type 0} (Q : A → Machine → Type 0) (text : String) (e : Exn)
      → is_known (stable_code e) ≡ true
      → Triple (L d) (close_recovered redaction w numeral d {A = A} text e) Q T
  unfolding close_recovered
  close-Failed Q text e known = fail_and_throw Q _ (some true) e _ known refl

  database-Live :
      IsForeign w → Triple (L d) (recover_database redaction w numeral d) (λ _. L d) (E d)
  database-Live foreign =
      then-Live d.repo_name (λ _. L d) (E d) (read_machine (λ m. m.migration_started)) _ (λ m v. v)
        (λ started_migration.
          then-Live d.repo_name (λ _. L d) (E d) (read_machine (λ m. m.environment)) _ (λ m v. v)
            (λ env.
              then-Live d.repo_name (λ _. L d) (E d) (read_machine (λ m. m.operation)) _ (λ m v. v)
                (λ operation.
                  triple_if (L d) (λ _. L d) (E d) started_migration
                    (run_database redaction w numeral d "recovery" d.manifest.recovery.command
                        (recovery_environment redaction w numeral d env operation)
                      >>= λ _. pure tt)
                    (pure tt)
                    (λ _.
                      then-Live d.repo_name (λ _. L d) (E d)
                        (run_database redaction w numeral d "recovery" d.manifest.recovery.command
                          (recovery_environment redaction w numeral d env operation))
                        (λ _. pure tt)
                        (run_database-Live redaction w numeral d "recovery"
                          d.manifest.recovery.command _ foreign)
                        (λ _ m v. v))
                    (λ _ m v. v))))

  external-Mid : (e : Exn) (m : Machine) → E d e m → Mid d.repo_name e m
  external-Mid e m (v, live) = broken v live

  pub contract-Mid :
      (e : Exn)
      → IsForeign w
      → is_known (stable_code e) ≡ true
      → Triple (L d) (recover_contract redaction w numeral d e) (λ _. L d) (Mid d.repo_name)
  unfolding recover_contract close_recovered
  contract-Mid e foreign known =
      then-Live d.repo_name (λ _. L d) (Mid d.repo_name) (recover_database redaction w numeral d) _
        (weaken_mid (recover_database redaction w numeral d) (database-Live foreign))
        (λ _.
          then-Live d.repo_name (λ _. L d) (Mid d.repo_name)
            (call redaction w numeral d rolled_back) _
            (weaken_mid (call redaction w numeral d rolled_back)
              (call-Live redaction w numeral d rolled_back foreign))
            (λ _.
              triple_bind (L d) (λ _ m. At d.repo_name failed m.store) (λ _. L d) (Mid d.repo_name)
                _ (λ _. throw (recovered_error redaction w numeral d e))
                (fail-At redaction w numeral d (Mid d.repo_name) failed _ (some true) e refl known)
                (λ _ m at. closed refl at)))
    where
      weaken_mid :
          (c : Action (Unit {0}))
          → Triple (L d) c (λ _. L d) (E d)
          → Triple (L d) c (λ _. L d) (Mid d.repo_name)
      weaken_mid c t =
          triple_weaken (L d) (L d) (λ _. L d) (λ _. L d) (E d) (Mid d.repo_name) c (λ m v. v)
            (λ a m v. v) external-Mid t

  run_plain-Live :
      (site : String) (command : CommandSpec) (env : Environment)
      → IsForeign w
      → Triple (L d) (plain_run redaction w numeral d site command env) (λ _. L d) (E d)
  run_plain-Live site command env foreign =
      then-Live d.repo_name (λ _. L d) (E d) (run w numeral site command env) (λ _. pure tt)
        (run-Live w numeral d.repo_name site command env foreign) (λ _ m v. v)

  forward-Live :
      (env : Environment)
      → IsForeign w
      → Triple (L d) (forward redaction w numeral d env) (λ _. L d) (E d)
  forward-Live env foreign =
      then-Live d.repo_name (λ _. L d) (E d) (call redaction w numeral d prepared) _
        (call-Live redaction w numeral d prepared foreign)
        (λ _.
          then-Live d.repo_name (λ _. L d) (E d)
            (plain_run redaction w numeral d "recovery" d.manifest.recovery.command env) _
            (run_plain-Live "recovery" d.manifest.recovery.command env foreign)
            (λ _.
              then-Live d.repo_name (λ _. L d) (E d) (call redaction w numeral d started) _
                (call-Live redaction w numeral d started foreign)
                (λ _.
                  verify-Live w numeral d.repo_name d.manifest.post_start_verify env
                    d.manifest.post_start_verify_retry
                    d.manifest.post_start_verify_retry.total_grace foreign)))

  backward-Live :
      (env : Environment)
      → IsForeign w
      → Triple (L d) (backward redaction w numeral d env) (λ _. L d) (E d)
  backward-Live env foreign =
      then-Live d.repo_name (λ _. L d) (E d)
        (plain_run redaction w numeral d "recovery" d.manifest.recovery.command env) _
        (run_plain-Live "recovery" d.manifest.recovery.command env foreign)
        (λ _. call-Live redaction w numeral d rolled_back foreign)

  fallback-Live :
      (env : Environment) (e : Exn) (o : Option CommandSpec)
      → IsForeign w
      → Triple (E d e) (fall_back_with redaction w numeral d env e o) (λ _. L d) (E d)
  fallback-Live env e none foreign = λ m v. v
  fallback-Live env e (some command) foreign = λ m v.
      then-Live d.repo_name (λ _. L d) (E d) (call redaction w numeral d prepared) _
        (call-Live redaction w numeral d prepared foreign)
        (λ _.
          then-Live d.repo_name (λ _. L d) (E d)
            (plain_run redaction w numeral d "fallback" command env) _
            (run_plain-Live "fallback" command env foreign)
            (λ _. call-Live redaction w numeral d rolled_back foreign))
        m v.1

  pub recover_plain-Live :
      IsForeign w → Triple (L d) (recover_plain redaction w numeral d) (λ _. L d) (E d)
  unfolding recover_plain
  recover_plain-Live foreign =
      then-Live d.repo_name (λ _. L d) (E d) (read_machine (λ m. m.migration_started)) _ (λ m v. v)
        (λ started_migration.
          then-Live d.repo_name (λ _. L d) (E d) (read_machine (λ m. m.environment)) _ (λ m v. v)
            (λ env.
              triple_if (L d) (λ _. L d) (E d) started_migration
                (catching
                  (if is_roll_forward d.manifest.recovery.strategy
                    then forward redaction w numeral d env
                    else backward redaction w numeral d env)
                  (fall_back redaction w numeral d env))
                _
                (λ _.
                  triple_catch (L d) (λ _. L d) (E d) (E d) _ (fall_back redaction w numeral d env)
                    (triple_if (L d) (λ _. L d) (E d) (is_roll_forward d.manifest.recovery.strategy)
                      (forward redaction w numeral d env) (backward redaction w numeral d env)
                      (λ _. forward-Live env foreign) (λ _. backward-Live env foreign))
                    (λ e. fallback-Live env e d.manifest.recovery.fallback foreign))
                (λ _. call-Live redaction w numeral d rolled_back foreign)))
