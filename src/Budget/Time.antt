-- ===== src/Budget/Time.antt =====
-- What the declared budget leaves out of what a deployment does.
use haniel.Prelude.{ℕ, suc, ◌+◌, ◌*◌, ◌≡◌, refl, String, false, List, [], ◌∷◌, arith, sym, eqb}
use haniel.Errors.{Exn}
use haniel.Errors.Result.{raise}
use haniel.Deployment.Machine.{CommandSpec, Environment, Machine, World, ran, waited}
use haniel.Deployment.Coordinator.{ReleaseManifest}
use haniel.Deployment.Retrying.{
  RetrySpec, Numeral, delay_of, exhausted, retry_loop, run_with_retry, verify_with_retry,
  verify_label, ignoring, run,
}
use haniel.Deployment.Bounds.{spent, timeouts}
use mathlib.Core.Path.{subst}
use haniel.Budget.{Services, expected_deployment_budget}

nonzero : (n : ℕ) → eqb (suc n) 0 ≡ false
nonzero n = ground arith

-- The loop of a command that fails twice, with the attempts of its policy used up.
module _ (w : World) (numeral : Numeral) (command : CommandSpec) (env : Environment) (e : Exn)
    (fails : (n : Machine) → w.command n "verify" command env ≡ raise e)
    (on : (n : Machine) (delay : ℕ) → w.shutdown n delay ≡ false) where
  fails_twice :
      (policy : RetrySpec) (grace : ℕ) (m : Machine)
      → retry_loop w numeral
          (verify_label w numeral command)
          (ignoring w numeral (run w numeral "verify" command env))
          policy
          1
          1
          (suc grace)
          m
        ≡ (
          raise (exhausted w numeral (verify_label w numeral command) 2 e),
          record m {
            trace =
                ran "verify" command env
                ∷ waited 0
                ∷ waited (delay_of policy 1 (suc grace))
                ∷ ran "verify" command env
                ∷ waited 0
                ∷ m.trace;
          },
        )
  unfolding retry_loop
  fails_twice policy grace m = rw (on, fails) (rw (nonzero grace) (rw on (rw on (rw fails refl))))

  spent_twice :
      (policy : RetrySpec) (grace : ℕ) (m : Machine) (commands : List CommandSpec)
      → policy.max_attempts ≡ 2
      → commands ≡ command ∷ []
      → spent
          (λ c. c.timeout_seconds)
          (verify_with_retry w numeral commands env policy (suc grace) m).1.trace
        ≡ spent (λ c. c.timeout_seconds) m.trace + 2 * timeouts commands
  unfolding verify_with_retry run_with_retry spent
  spent_twice policy grace m commands two one =
      subst
        (λ cs.
          spent (λ c. c.timeout_seconds)
            (verify_with_retry w numeral cs env policy (suc grace) m).1.trace
          ≡ spent (λ c. c.timeout_seconds) m.trace + 2 * timeouts cs)
        (sym one)
        (subst
          (λ k.
            spent (λ c. c.timeout_seconds)
              (verify_with_retry w numeral (command ∷ []) env (record policy { max_attempts = k })
                (suc grace) m).1.trace
            ≡ spent (λ c. c.timeout_seconds) m.trace + 2 * timeouts (command ∷ []))
          (sym two) (rw (fails_twice policy grace m) (omega arith)))

-- Where the one command of a release's verification fails each time, nobody asks for a shutdown, and
-- its policy has two attempts and some grace: the verification is allowed twice the seconds that the
-- budget declares for it.
pub verify-overruns :
    (w : World) (numeral : Numeral) (repo_name : String) (affected : List String)
    (services : Services) (manifest : ReleaseManifest) (command : CommandSpec) (env : Environment)
    (grace : ℕ) (e : Exn) (m : Machine)
    → manifest.post_start_verify ≡ command ∷ []
    → manifest.post_start_verify_retry.max_attempts ≡ 2
    → ((n : Machine) → w.command n "verify" command env ≡ raise e)
    → ((n : Machine) (delay : ℕ) → w.shutdown n delay ≡ false)
    → spent
        (λ c. c.timeout_seconds)
        (verify_with_retry w numeral manifest.post_start_verify env manifest.post_start_verify_retry
          (suc grace)
          m).1.trace
      ≡ spent (λ c. c.timeout_seconds) m.trace
        + 2 * (expected_deployment_budget repo_name affected services manifest).verification_sec
unfolding expected_deployment_budget
verify-overruns w numeral repo_name affected services manifest command env grace e m one two fails
      on =
    spent_twice w numeral command env e fails on manifest.post_start_verify_retry grace m
      manifest.post_start_verify two one
