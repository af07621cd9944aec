-- ===== src/Deployment/Retried.antt =====
-- The retry loops leave the journal alone, and raise errors of known codes.
use haniel.Prelude.{◌≡◌, refl, ℕ, zero, suc, ◌-◌, eqb, String, true, some, List, [], ◌∷◌}
use haniel.Errors.{Exn, exn, stable, Link, nothing, linked, stable_code}
use haniel.Errors.Codes.{is_known, known_codes}
use haniel.Deployment.Machine.{CommandSpec, Environment, World, Action, ◌>>◌, pure, throw}
use haniel.Deployment.Triple.{Triple, triple_catch, triple_if}
use haniel.Deployment.Retrying.{
  RetrySpec, Label, Numeral, wait, delay_of, exhausted, not_begun, not_repeated, turn, retry_loop,
  run_with_retry, ignoring, run, verify_label, verify_with_retry,
}
use haniel.Deployment.Outcome.{IsForeign, Live, External, then-Live, perform-Live}

-- The codes of a label are known.
pub record IsCoded (label : Label) : Type 0 where
  pub exhausted_known :
      (message : String) (l : Link)
      → is_known (stable_code (exn stable (some label.exhausted_error_code) message nothing l))
        ≡ true
  pub interrupted_known :
      (message : String) (l : Link)
      → is_known (stable_code (exn stable (some label.interrupted_error_code) message nothing l))
        ≡ true

module _ (w : World) (numeral : Numeral) (repo : String) where
  wait-Live :
      (delay : ℕ) → Triple (Live repo) (wait w numeral delay) (λ _. Live repo) (External repo)
  wait-Live delay m v = v

  turn-Live :
      (label : Label) (operation : Action (Unit {0})) (grace : ℕ) (again : Exn → Action ℕ)
      → IsCoded label
      → Triple (Live repo) operation (λ _. Live repo) (External repo)
      → ((e : Exn) → Triple (Live repo) (again e) (λ _. Live repo) (External repo))
      → Triple
          (Live repo)
          (turn w numeral label operation grace again)
          (λ _. Live repo)
          (External repo)
  turn-Live label operation grace again coded body more =
      then-Live repo (λ _. Live repo) (External repo) (wait w numeral 0) _ (wait-Live 0)
        (λ shutdown.
          triple_if (Live repo) (λ _. Live repo) (External repo) shutdown
            (throw (not_begun w numeral label)) _
            (λ _ m v. (record { undeployed = refl; known = coded.interrupted_known _ nothing }, v))
            (λ _.
              triple_catch (Live repo) (λ _. Live repo) (External repo) (External repo)
                (operation >> pure grace) _
                (then-Live repo (λ _. Live repo) (External repo) operation _ body (λ _ m v. v))
                (λ e.
                  triple_if (External repo e) (λ _. Live repo) (External repo) (label.retry_if e)
                    (again e) (throw e) (λ _ m v. more e m v.1) (λ _ m v. v))))

  loop-Live :
      (label : Label) (operation : Action (Unit {0})) (policy : RetrySpec) (left n grace : ℕ)
      → IsCoded label
      → Triple (Live repo) operation (λ _. Live repo) (External repo)
      → Triple
          (Live repo)
          (retry_loop w numeral label operation policy left n grace)
          (λ _. Live repo)
          (External repo)
  unfolding retry_loop
  loop-Live label operation policy zero n grace coded body =
      turn-Live label operation grace _ coded body
        (λ e m v. (record { undeployed = refl; known = coded.exhausted_known _ (linked e) }, v))
  loop-Live label operation policy (suc left) n grace coded body =
      turn-Live label operation grace _ coded body (λ e.
        triple_if (Live repo) (λ _. Live repo) (External repo) (eqb grace 0)
          (throw (exhausted w numeral label n e)) _
          (λ _ m v. (record { undeployed = refl; known = coded.exhausted_known _ (linked e) }, v))
          (λ _.
            then-Live repo (λ _. Live repo) (External repo)
              (wait w numeral (delay_of policy n grace)) _ (wait-Live (delay_of policy n grace))
              (λ shutdown.
                triple_if (Live repo) (λ _. Live repo) (External repo) shutdown
                  (throw (not_repeated w numeral label n e)) _
                  (λ _ m v.
                    (record { undeployed = refl; known = coded.interrupted_known _ (linked e) }, v))
                  (λ _.
                    loop-Live label operation policy left (suc n) (grace - delay_of policy n grace)
                      coded body))))

  pub run_with_retry-Live :
      (label : Label) (operation : Action (Unit {0})) (policy : RetrySpec) (grace : ℕ)
      → IsCoded label
      → Triple (Live repo) operation (λ _. Live repo) (External repo)
      → Triple
          (Live repo)
          (run_with_retry w numeral label operation policy grace)
          (λ _. Live repo)
          (External repo)
  unfolding run_with_retry
  run_with_retry-Live label operation policy grace =
      loop-Live label operation policy (policy.max_attempts - 1) 1 grace

  verify_label-IsCoded : (command : CommandSpec) → IsCoded (verify_label w numeral command)
  unfolding stable_code is_known known_codes
  verify_label-IsCoded command = record {
    exhausted_known = λ message l. refl;
    interrupted_known = λ message l. refl;
  }

  pub run-Live :
      (site : String) (command : CommandSpec) (env : Environment)
      → IsForeign w
      → Triple (Live repo) (run w numeral site command env) (λ _. Live repo) (External repo)
  run-Live site command env foreign =
      perform-Live repo _ _ (λ m e h. foreign.commands m site command env e h)

  pub verify-Live :
      (commands : List CommandSpec) (env : Environment) (policy : RetrySpec) (grace : ℕ)
      → IsForeign w
      → Triple
          (Live repo)
          (verify_with_retry w numeral commands env policy grace)
          (λ _. Live repo)
          (External repo)
  unfolding verify_with_retry
  verify-Live [] env policy grace foreign = λ m v. v
  verify-Live (command ∷ commands) env policy grace foreign =
      then-Live repo (λ _. Live repo) (External repo)
        (run_with_retry w numeral (verify_label w numeral command)
          (ignoring w numeral (run w numeral "verify" command env)) policy grace)
        _
        (run_with_retry-Live (verify_label w numeral command) _ policy grace
          (verify_label-IsCoded command)
          (then-Live repo (λ _. Live repo) (External repo) (run w numeral "verify" command env) _
            (run-Live "verify" command env foreign) (λ _ m v. v)))
        (λ left. verify-Live commands env policy left foreign)
