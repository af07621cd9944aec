-- ===== src/Budget/Examples.antt =====
-- Tests of the budget on one release, and the witnesses.
use haniel.Prelude.{◌+◌, ◌*◌, ◌≡◌, refl, true, Bool, none, some, [], ◌∷◌}
use haniel.Prelude.Dict
use haniel.Errors.{plain_error}
use haniel.Errors.Result.{ok, raise}
use haniel.Journal.Sound.{empty}
use haniel.Deployment.Machine.{CommandSpec, Machine, World}
use haniel.Deployment.Retrying.{RetrySpec, verify_with_retry}
use haniel.Deployment.Coordinator.{ReleaseManifest, Strategy}
use haniel.Deployment.Bounds.{spent}
use haniel.Budget.{Services, repo_owned_services, sum_of, expected_deployment_budget}
use haniel.Budget.Time.{verify-overruns}

abbrev services : Services
services =
    (
      "web",
      record {
        repo = some "app";
        ready_timeout = 30;
        ready_timeout_set = true;
        hooks = some (record { timeout = 600; post_pull = some "make"; pre_start = none });
      },
    )
    ∷ (
      "proxy",
      record { repo = some "edge"; ready_timeout = 10; ready_timeout_set = true; hooks = none },
    )
    ∷ []

abbrev smoke : CommandSpec
smoke = record { name = "smoke"; command = "smoke"; timeout_seconds = 300 }

abbrev policy : RetrySpec
policy = record { max_attempts = 2; initial_backoff = 5; max_backoff = 20; total_grace = 60 }

abbrev manifest : ReleaseManifest
manifest = record {
  release_id = "r1";
  migration = none;
  build_retry = policy;
  post_start_verify = smoke ∷ [];
  post_start_verify_retry = policy;
  recovery = record { strategy = Strategy.rollback; command = smoke; fallback = none };
}

budget_test :
    (expected_deployment_budget "app" ("web" ∷ "proxy" ∷ []) services manifest).total_sec ≡ 2180
unfolding expected_deployment_budget repo_owned_services sum_of Dict.get
budget_test = refl

-- The command fails each time.
abbrev world : World
world = record {
  call = λ m event. ok tt;
  stop = λ m. ok none;
  command = λ m site c env. raise (plain_error "smoke test failed");
  shutdown = λ m delay. Bool.false;
  now = λ m. "t";
  fresh = λ m. "j1";
  journal_path = λ repo. "journal.json";
  receipt_path = λ repo. "receipt.json";
}

abbrev machine : Machine
machine = record {
  store = empty;
  trace = [];
  environment = [];
  migration_started = Bool.false;
  target_start_attempted = Bool.false;
  operation = none;
}

verify-overruns_example :
    spent
      (λ c. c.timeout_seconds)
      (verify_with_retry world (λ n. "n") (smoke ∷ []) [] policy 60 machine).1.trace
    ≡ 0 + 2 * (expected_deployment_budget "app" ("web" ∷ []) services manifest).verification_sec
unfolding spent
verify-overruns_example =
    verify-overruns world (λ n. "n") "app" ("web" ∷ []) services manifest smoke [] 59
      (plain_error "smoke test failed") machine refl refl (λ n. refl) (λ n delay. refl)
