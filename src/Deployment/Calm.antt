-- ===== src/Deployment/Calm.antt =====
-- What the calls of a deployment are: which of them undo something, and how a property of all of them is
-- kept by the body of `execute`.
use haniel.Prelude.{
  ◌≡◌, refl, ℕ, zero, suc, ◌-◌, eqb, String, Bool, true, false, not, ◌||◌, ◌==◌, Option, some, List,
  [], ◌∷◌, All, if◌then◌else◌,
}
use haniel.Errors.{Exn}
use haniel.Errors.Result.{Result, ok, raise}
use haniel.Journal.Path.{Store}
use haniel.Deployment.Machine.{
  CommandSpec, CommandResult, Environment, Event, rolled_back, prepared, waited, ran, Machine,
  World, Action, ◌>>=◌, ◌>>◌, catching, pure, throw, perform, stored, on_store,
}
use haniel.Deployment.Triple.{Post, Triple, triple_bind, triple_catch, triple_if}
use haniel.Deployment.Retrying.{
  RetrySpec, Label, Numeral, wait, delay_of, exhausted, not_begun, not_repeated, turn, retry_loop,
  run_with_retry, ignoring, run, verify_label, verify_with_retry,
}
use haniel.Deployment.Coordinator.{MigrationSpec, Deployment, preflight_contract}

-- A call that undoes nothing: no roll-back, no change of the release, no command of the recovery.
abbrev pub is_calm : Event → Bool
is_calm rolled_back = false
is_calm prepared = false
is_calm (ran site c env) = not (site == "recovery" || site == "fallback")
is_calm _ = true

abbrev pub Calm : Machine → Type 0
Calm m = All (λ event. is_calm event ≡ true) m.trace

-- A property of the machine that calm calls, the store and the variables of `execute` keep.
pub record IsSteady (d : Deployment) (K : Machine → Type 0) : Type 0 where
  pub performs :
      (event : Event) (m : Machine)
      → is_calm event ≡ true
      → K m
      → K (record m { trace = event ∷ m.trace })
  pub stores : (s : Store) (m : Machine) → K m → K (record m { store = s })
  pub assigns :
      (env : Environment) (migration start : Bool) (m : Machine)
      → K m
      → K (record m {
        environment = env;
        migration_started = migration;
        target_start_attempted = start;
      })
  pub operates :
      (g : MigrationSpec) (r : Option CommandResult) (operation path : String) (env : Environment)
      (m : Machine)
      → preflight_contract g r d.expected_operation ≡ ok (operation, path)
      → K m
      → K (record m { operation = some operation; environment = env })

abbrev pub Keep : {A : Type 0} → (Machine → Type 0) → Action A → Type 0
Keep K c = Triple K c (λ _. K) (λ _. K)

module _ (K : Machine → Type 0) where
  pub then-Keep :
      {A B : Type 0} (c : Action A) (f : A → Action B)
      → Keep K c
      → ((a : A) → Keep K (f a))
      → Keep K (c >>= f)
  then-Keep c f first rest = triple_bind K (λ _. K) (λ _. K) (λ _. K) c f first rest

  pub catch-Keep :
      {A : Type 0} (c : Action A) (h : Exn → Action A)
      → Keep K c
      → ((e : Exn) → Keep K (h e))
      → Keep K (catching c h)
  catch-Keep c h first rest = triple_catch K (λ _. K) (λ _. K) (λ _. K) c h first rest

  pub if-Keep :
      {A : Type 0} (b : Bool) (x y : Action A)
      → (b ≡ true → Keep K x)
      → (b ≡ false → Keep K y)
      → Keep K (if b then x else y)
  if-Keep b x y hx hy = triple_if K (λ _. K) (λ _. K) b x y hx hy

  answer-Keep : {A : Type 0} (r : Result A) (m : Machine) → K m → Post (λ (_ : A). K) (λ _. K) r m
  answer-Keep (ok a) m k = k
  answer-Keep (raise e) m k = k

  pub lift-Keep : {A : Type 0} (r : Machine → Result A) → Keep K (λ m. (r m, m))
  lift-Keep r m k = answer-Keep (r m) m k

  module _ (d : Deployment) (steady : IsSteady d K) where
    pub perform-Keep :
        {A : Type 0} (event : Event) (answer : Machine → Result A)
        → is_calm event ≡ true
        → Keep K (perform event answer)
    perform-Keep event answer calm m k =
        answer-Keep (answer m) (record m { trace = event ∷ m.trace })
          (steady.performs event m calm k)

    stored-Keep : (r : Result Store) → Keep K (stored r)
    stored-Keep (ok s) m k = steady.stores s m k
    stored-Keep (raise e) m k = k

    pub store-Keep : (f : Machine → Result Store) → Keep K (on_store f)
    store-Keep f m k = stored-Keep (f m) m k

    module _ (w : World) (numeral : Numeral) where
      wait-Keep : (delay : ℕ) → Keep K (wait w numeral delay)
      wait-Keep delay m k = steady.performs (waited delay) m refl k

      pub run-Keep :
          (site : String) (command : CommandSpec) (env : Environment)
          → is_calm (ran site command env) ≡ true
          → Keep K (run w numeral site command env)
      run-Keep site command env calm =
          perform-Keep (ran site command env) (λ m. w.command m site command env) calm

      turn-Keep :
          (label : Label) (operation : Action (Unit {0})) (grace : ℕ) (again : Exn → Action ℕ)
          → Keep K operation
          → ((e : Exn) → Keep K (again e))
          → Keep K (turn w numeral label operation grace again)
      turn-Keep label operation grace again body more =
          then-Keep (wait w numeral 0) _ (wait-Keep 0) (λ shutdown.
            if-Keep shutdown (throw (not_begun w numeral label)) _ (λ _ m k. k)
              (λ _.
                catch-Keep (operation >> pure grace) _
                  (then-Keep operation (λ _. pure grace) body (λ _ m k. k))
                  (λ e. if-Keep (label.retry_if e) (again e) (throw e) (λ _. more e) (λ _ m k. k))))

      loop-Keep :
          (label : Label) (operation : Action (Unit {0})) (policy : RetrySpec) (left n grace : ℕ)
          → Keep K operation
          → Keep K (retry_loop w numeral label operation policy left n grace)
      unfolding retry_loop
      loop-Keep label operation policy zero n grace body =
          turn-Keep label operation grace _ body (λ e m k. k)
      loop-Keep label operation policy (suc left) n grace body =
          turn-Keep label operation grace _ body (λ e.
            if-Keep (eqb grace 0) (throw (exhausted w numeral label n e)) _ (λ _ m k. k)
              (λ _.
                then-Keep (wait w numeral (delay_of policy n grace)) _
                  (wait-Keep (delay_of policy n grace))
                  (λ shutdown.
                    if-Keep shutdown (throw (not_repeated w numeral label n e)) _ (λ _ m k. k)
                      (λ _.
                        loop-Keep label operation policy left (suc n)
                          (grace - delay_of policy n grace) body))))

      pub retry-Keep :
          (label : Label) (operation : Action (Unit {0})) (policy : RetrySpec) (grace : ℕ)
          → Keep K operation
          → Keep K (run_with_retry w numeral label operation policy grace)
      unfolding run_with_retry
      retry-Keep label operation policy grace body =
          loop-Keep label operation policy (policy.max_attempts - 1) 1 grace body

      pub verify-Keep :
          (commands : List CommandSpec) (env : Environment) (policy : RetrySpec) (grace : ℕ)
          → Keep K (verify_with_retry w numeral commands env policy grace)
      unfolding verify_with_retry
      verify-Keep [] env policy grace = λ m k. k
      verify-Keep (command ∷ commands) env policy grace =
          then-Keep
            (run_with_retry w numeral (verify_label w numeral command)
              (ignoring w numeral (run w numeral "verify" command env)) policy grace)
            _
            (retry-Keep (verify_label w numeral command) _ policy grace (
              then-Keep (run w numeral "verify" command env) _ (run-Keep "verify" command env refl)
                (λ _ m k. k)))
            (λ left. verify-Keep commands env policy left)
