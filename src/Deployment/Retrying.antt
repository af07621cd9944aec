-- ===== src/Deployment/Retrying.antt =====
-- `run_with_retry` and `verify_with_retry` of src/haniel/core/deployment_verification.py. Seconds are
-- counted in a unit that divides every delay of a policy.
use Prim.Native.String.{◌++◌ as append}
use haniel.Prelude.{
  ℕ, zero, suc, ◌-◌, ◌*◌, ◌^◌, min, String, Bool, true, Option, List, [], ◌∷◌, some, eqb,
  if◌then◌else◌,
}
use haniel.Errors.{Exn, exn, stable, nothing, linked, message_of}
use haniel.Errors.Result.{ok}
use haniel.Deployment.Machine.{
  CommandSpec, CommandResult, Environment, waited, ran, World, Action, ◌>>=◌, ◌>>◌, catching, pure,
  throw, perform,
}

pub record RetrySpec : Type 0 where
  pub max_attempts : ℕ
  pub initial_backoff : ℕ
  pub max_backoff : ℕ
  pub total_grace : ℕ

-- What the callers of `run_with_retry` name.
pub record Label : Type 0 where
  pub operation_label : String
  pub exhausted_error_code : String
  pub interrupted_error_code : String
  pub retry_if : Exn → Bool

abbrev pub delay_of : RetrySpec → (attempt grace : ℕ) → ℕ
delay_of policy attempt grace =
    min (policy.initial_backoff * 2 ^ (attempt - 1)) (min policy.max_backoff grace)

-- The text of a number.
abbrev pub Numeral : Type 0
Numeral = ℕ → String

-- `{name!r}` of a name without quotes.
abbrev quoted : String → String
quoted name = append "'" (append name "'")

module _ (w : World) (numeral : Numeral) where
  -- `retry_waiter(delay)`
  abbrev pub wait : ℕ → Action Bool
  wait delay = perform (waited delay) (λ m. ok (w.shutdown m delay))

  abbrev pub exhausted : Label → (attempt : ℕ) → Exn → Exn
  exhausted label attempt e =
      exn stable (some label.exhausted_error_code)
        (append label.operation_label (
          append " failed after "
            (append (numeral attempt) (append " attempt(s): " (message_of e)))))
        nothing (linked e)

  abbrev pub not_begun : Label → Exn
  not_begun label =
      exn stable (some label.interrupted_error_code)
        (append "shutdown requested before " label.operation_label) nothing nothing

  abbrev pub not_repeated : Label → (attempt : ℕ) → Exn → Exn
  not_repeated label attempt e =
      exn stable (some label.interrupted_error_code)
        (append "shutdown requested while waiting to retry "
          (append label.operation_label (append " after attempt " (numeral attempt))))
        nothing (linked e)

  -- One turn of the loop, whose `except` goes on with `again`.
  abbrev pub turn : Label → Action (Unit {0}) → (grace : ℕ) → (Exn → Action ℕ) → Action ℕ
  turn label operation grace again = do
    shutdown ← wait 0
    if shutdown
        then throw (not_begun label)
        else catching (operation >> pure grace) (λ e. if label.retry_if e then again e else throw e)

  -- The loop with `left` attempts allowed after this one: `attempt >= max_attempts` is `left` being 0.
  unfoldable pub retry_loop :
      Label → Action (Unit {0}) → RetrySpec → (left attempt grace : ℕ) → Action ℕ
  retry_loop label operation policy zero n grace =
      turn label operation grace (λ e. throw (exhausted label n e))
  retry_loop label operation policy (suc left) n grace = turn label operation grace (λ e.
      if eqb grace 0 then throw (exhausted label n e) else (do
        shutdown ← wait (delay_of policy n grace)
        if shutdown
            then throw (not_repeated label n e)
            else retry_loop label operation policy left (suc n) (grace - delay_of policy n grace)))

  unfoldable pub run_with_retry : Label → Action (Unit {0}) → RetrySpec → (grace : ℕ) → Action ℕ
  unfolding retry_loop
  run_with_retry label operation policy grace =
      retry_loop label operation policy (policy.max_attempts - 1) 1 grace

  abbrev pub ignoring : {A : Type 0} → Action A → Action (Unit {0})
  ignoring c = c >>= λ _. pure tt

  -- The label of a command of `verify_with_retry`.
  abbrev pub verify_label : CommandSpec → Label
  verify_label command = record {
    operation_label = append "post-start verify command " (quoted command.name);
    exhausted_error_code = "POST_VERIFY_RETRIES_EXHAUSTED";
    interrupted_error_code = "VERIFY_RETRY_INTERRUPTED";
    retry_if = λ _. true;
  }

  -- `_run` and `self.command_runner(command, environment)`
  abbrev pub run : (site : String) → CommandSpec → Environment → Action (Option CommandResult)
  run site command env = perform (ran site command env) (λ m. w.command m site command env)

  unfoldable pub verify_with_retry :
      List CommandSpec → Environment → RetrySpec → (grace : ℕ) → Action (Unit {0})
  verify_with_retry [] env policy grace = pure tt
  verify_with_retry (command ∷ commands) env policy grace = do
    left ← run_with_retry (verify_label command) (ignoring (run "verify" command env)) policy grace
    verify_with_retry commands env policy left
