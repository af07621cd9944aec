-- ===== src/Deployment/Examples.antt =====
-- A release with a contract, deployed by callbacks and commands that answer.
use haniel.Prelude.{
  ℕ, suc, ◌+◌, ◌-◌, ◌*◌, ◌≤◌, ◌≡◌, refl, ◌==◌, if◌then◌else◌, String, Bool, true, false, Option,
  none, some, [], ◌∷◌,
}
use haniel.Prelude.Json.{member, bool, string, arr, nil, cons, Fields, end, field}
use haniel.Errors.{Exn, plain_error, class_of, verification, error_chain, stable_code}
use haniel.Errors.Result.{ok, raise}
use haniel.Journal.Sound.{empty}
use haniel.Journal.Examples.{plain_text}
use haniel.Deployment.Machine.{CommandSpec, CommandResult, Machine, World}
use haniel.Deployment.Receipts.{IsQuiescent, validate-IsQuiescent}
use haniel.Deployment.Quiescence.{
  validate_quiescence_receipt, identity_agrees, services_agree, sets_agree,
}
use haniel.Deployment.Retrying.{
  RetrySpec, exhausted, verify_label, retry_loop, run_with_retry, verify_with_retry,
}
use haniel.Deployment.Bounds.{waiting, spent, verify_with_retry-bounded}
use haniel.Deployment.Coordinator.{
  verification_error, phase_code, preflight_contract, expected, Strategy, Deployment,
}
use haniel.Deployment.Execute.{
  move, environment, run_database, build_phase, preflight_with, quiesce, migrate_with,
  verify_target, handover, deploy,
}
use haniel.Journal.Path.{safe_name, receipt_name, is_safe, read, write, write_receipt}
use haniel.Journal.Begin.{inherit, new_attempt, begin_with, begin, renew}
use haniel.Journal.Record.{redact_attempt, redact_journal, entry, verification_failed}
use haniel.Journal.Updates.{
  moved, transition_with, transition, edit, transition_code, link_release_contract,
  record_database_result, is_success,
}
use haniel.Errors.Codes.{known_codes, is_known}
use haniel.Prelude.Dict
use haniel.Deployment.Stored.{At}
use haniel.Deployment.Preserved.{unverified-preserved}
use haniel.Deployment.Recover.{start_attempt, execute}
use haniel.Deployment.Triple.{Post}
use haniel.Deployment.Outcome.{IsForeign, plain-IsExternal}
use haniel.Deployment.Deploys.{Plainly, plainly_external}
use haniel.Deployment.Calm.{Calm}
use haniel.Deployment.Undone.{fresh_install-Calm}
use haniel.Deployment.Ending.{Succeeded, Ended, execute_ends}

abbrev command : String → CommandSpec
command name = record { name = name; command = name; timeout_seconds = 300 }

abbrev policy : RetrySpec
policy = record { max_attempts = 2; initial_backoff = 5; max_backoff = 20; total_grace = 60 }

abbrev release : Deployment
release = record {
  repo_name = "app";
  previous_head = "aaa";
  target_head = "bbb";
  manifest = record {
    release_id = "r1";
    migration = some (record {
      operation = some "discover";
      result_contract = none;
      preflight_command = command "preflight";
      apply_command = command "apply";
    });
    build_retry = policy;
    post_start_verify = command "smoke" ∷ [];
    post_start_verify_retry = policy;
    recovery = record {
      strategy = Strategy.rollback;
      command = command "recover";
      fallback = none;
    };
  };
  orchestrator_attempt_id = some "o1";
  node_id = some "n1";
  branch = some "main";
  manifest_identity = some "release.json";
  manifest_digest = some "d1";
  journal_attempt_id = none;
  expected_operation = none;
  request_id = some "q1";
  config_digest = none;
  has_stop_partial = true;
  has_acknowledge = true;
  writer_services = "bot" ∷ [];
  owner_instance = some "i1";
  quiescence_nonce = some "z1";
  callback_config_digest = none;
}

abbrev receipt : Fields
receipt = field "request_id" (string "q1") (
    field "repo" (string "app") (
      field "target_head" (string "bbb") (
        field "owner_instance" (string "i1") (
          field "quiescence_nonce" (string "z1") (
            field "stopped_services" (arr (cons (string "bot") nil)) (
              field "already_stopped_services" (arr nil)
                (field "quiesced_services" (arr (cons (string "bot") nil)) end)))))))

abbrev preflight_answer : Fields
preflight_answer =
    field "ok" (bool true)
      (field "operation" (string "upgrade") (field "journal_path" (string "db.json") end))

-- The command at "verify" fails, all else succeeds.
abbrev world : World
world = record {
  call = λ m event. ok tt;
  stop = λ m. ok (some receipt);
  command = λ m site c env.
      (if site == "verify"
        then raise (plain_error "smoke test failed")
        else ok (some (record { stdout = ""; json_data = some preflight_answer; stderr = "" })));
  shutdown = λ m delay. false;
  now = λ m. "t";
  fresh = λ m. "j1";
  journal_path = λ repo. "journal.json";
  receipt_path = λ repo. "receipt.json";
}

abbrev machine : Machine
machine = record {
  store = empty;
  trace = [];
  environment = [];
  migration_started = false;
  target_start_attempted = false;
  operation = none;
}

smoke-Plainly :
    (b : Bool) (r : Option CommandResult)
    → Plainly (if b then raise (plain_error "smoke test failed") else ok r)
smoke-Plainly true r = plain-IsExternal "smoke test failed"
smoke-Plainly false r = tt

world-IsForeign : IsForeign world
world-IsForeign = record {
  calls = λ m event e h. cc;
  stops = λ m e h. cc;
  commands = λ m site c env e h. plainly_external _ e (smoke-Plainly (site == "verify") _) h;
}

execute_ends_example :
    Post
      (Succeeded plain_text world (λ n. "2") release)
      (Ended plain_text world (λ n. "2") release machine)
      (execute plain_text world (λ n. "2") release machine).0
      (execute plain_text world (λ n. "2") release machine).1
execute_ends_example = execute_ends plain_text world (λ n. "2") release world-IsForeign machine

-- The error of the smoke test, after two attempts.
abbrev failure : Exn
failure = verification_error (
    exhausted world (λ n. "2") (verify_label world (λ n. "2") (command "smoke")) 2
      (plain_error "smoke test failed"))

-- The release has not succeeded, its attempt begins, and its body ends with the failed smoke test.
failed_body :
    (is_success plain_text "app" "bbb" "r1" machine.store ≡ false)
    × ((start_attempt plain_text world (λ n. "2") release machine).0 ≡ ok tt)
    × ((deploy plain_text world
          (λ n. "2")
          release
          (start_attempt plain_text world (λ n. "2") release machine).1).0
        ≡ raise failure)
    × (class_of failure ≡ verification)
unfolding safe_name is_safe read write write_receipt inherit new_attempt begin_with begin
    redact_attempt redact_journal entry moved transition_with transition edit transition_code
    link_release_contract record_database_result move environment run_database build_phase
    preflight_with quiesce migrate_with verify_target handover deploy start_attempt retry_loop
    run_with_retry verify_with_retry identity_agrees sets_agree services_agree
    validate_quiescence_receipt verification_error phase_code preflight_contract error_chain
    stable_code known_codes is_known Dict.get Dict.put Dict.remove receipt_name member is_success
    empty renew
failed_body = (refl, refl, refl, refl)

unverified-preserved_example :
    (execute plain_text world (λ n. "2") release machine ≡ (
      raise failure,
      (deploy plain_text world
          (λ n. "2")
          release
          (start_attempt plain_text world (λ n. "2") release machine).1).1,
    ))
    × Calm (execute plain_text world (λ n. "2") release machine).1
    × At "app" verification_failed (execute plain_text world (λ n. "2") release machine).1.store
unverified-preserved_example =
    unverified-preserved plain_text world (λ n. "2") release machine failure world-IsForeign tt
      failed_body.0 failed_body.1 failed_body.2 failed_body.3

abbrev install : Deployment
install = record release { expected_operation = some "fresh_install" }

fresh_install-Calm_example : Calm (execute plain_text world (λ n. "2") install machine).1
fresh_install-Calm_example = fresh_install-Calm plain_text world (λ n. "2") install machine refl tt

accepted : validate_quiescence_receipt (expected release) (some receipt) ≡ ok tt
unfolding validate_quiescence_receipt identity_agrees services_agree sets_agree member
accepted = refl

validate-IsQuiescent_example : IsQuiescent (expected release).writer_services receipt
validate-IsQuiescent_example = validate-IsQuiescent (expected release) receipt accepted

-- The smoke test's runs, and the seconds of the verification.
abbrev is_smoke : CommandSpec → ℕ
is_smoke c = if c.name == "smoke" then 1 else 0

verify_with_retry-bounded_example :
    (waiting
        (verify_with_retry world
          (λ n. "n")
          (command "smoke" ∷ command "probe" ∷ [])
          []
          policy
          60
          machine).1.trace
      ≤ 0 + 60)
    × (spent is_smoke
          (verify_with_retry world
            (λ n. "n")
            (command "smoke" ∷ command "probe" ∷ [])
            []
            policy
            60
            machine).1.trace
        ≤ 0 + suc (2 - 1) * 1)
unfolding waiting spent
verify_with_retry-bounded_example =
    verify_with_retry-bounded world (λ n. "n") (command "smoke" ∷ command "probe" ∷ []) [] policy 60
      machine is_smoke
