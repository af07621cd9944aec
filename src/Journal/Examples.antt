-- ===== src/Journal/Examples.antt =====
-- Runs of src/haniel/core/deployment_state.py at concrete inputs.
use haniel.Prelude.{
  String, eq_iff, sym, ◌∙◌, ◌==◌, ◌≡◌, ◌≢◌, refl, none, some, List, [], ◌∷◌, true, false, All,
}
use haniel.Prelude.Dict
use haniel.Prelude.Json.{string}
use haniel.Errors.Result.{ok}
use haniel.Journal.Record.{
  target_resolving, preflight, Journal, Redaction, redact_attempt, redact_journal,
}
use haniel.Journal.Path.{Store, read, write, safe_name, is_safe, receipt_name}
use haniel.Journal.Sound.{empty}
use haniel.Journal.Begin.{Intent, new_attempt, begin}
use haniel.Journal.Handover.{Handover, bind_handover_target, bind_with}
use haniel.Journal.Invariant.{
  Call, updates, acknowledges, begins, hands_over, binds, transitions, interrupts, file_of, step,
  run,
}
use haniel.Journal.Retention.{Retains, run-Retains, run-frame, begin_shared}
use haniel.Journal.Identity.{bind_once}

abbrev pub plain_text : Redaction
plain_text = record { text = λ s. s; value = λ v. v; bounded = λ s. s }

abbrev pub intent : Intent
intent = record {
  previous_head = "aaa";
  target_head = "bbb";
  release_id = "r1";
  orchestrator_attempt_id = some "o1";
  node_id = some "n1";
  branch = some "main";
  manifest_identity = some "release.json";
  manifest_digest = some "d1";
  journal_attempt_id = none;
  request_id = some "q1";
  expected_operation = some "upgrade";
  config_digest = none;
}

abbrev handover : Handover
handover = record {
  previous_head = "aaa";
  target_ref = "origin/main";
  manifest_identity = "release.json";
  request_id = "q1";
  expected_operation = "upgrade";
  branch = "main";
  node_id = none;
  config_digest = none;
}

abbrev calls : List Call
calls =
    updates (begins "t1" "j1" "app" intent)
    ∷ updates (transitions "t2" "app" preflight none none none)
    ∷ acknowledges "app" (string "receipt")
    ∷ updates (interrupts "t3" "app" "shutdown")
    ∷ updates (begins "t4" "j2" "app" intent)
    ∷ updates (hands_over "t5" "t6" "j3" "web" handover)
    ∷ []

abbrev begun : Store
begun = run plain_text (updates (begins "t0" "j0" "app" intent) ∷ []) empty

false-true : false ≢ true
false-true h = cc

differ : (a b : String) → (a == b) ≡ false → a ≢ b
differ a b h e = false-true (sym h ∙ (eq_iff a b).1 e)

app_receipt : receipt_name "app" ≢ safe_name "app"
unfolding receipt_name safe_name is_safe
app_receipt = differ "app.quiescence" "app" refl

run-Retains_example : Retains (read begun "app") (read (run plain_text calls begun) "app")
run-Retains_example =
    run-Retains plain_text calls begun "app" (tt, (tt, (app_receipt, (tt, (tt, (tt, tt))))))

abbrev web_calls : List Call
web_calls =
    updates (hands_over "t5" "t6" "j3" "web" handover)
    ∷ acknowledges "app" (string "receipt")
    ∷ updates (interrupts "t7" "web" "shutdown")
    ∷ []

web_app : safe_name "web" ≢ safe_name "app"
unfolding safe_name is_safe
web_app = differ "web" "app" refl

web_calls_apart : All (λ call. file_of call ≢ safe_name "app") web_calls
web_calls_apart = (web_app, (app_receipt, (web_app, tt)))

run-frame_example : read (run plain_text web_calls begun) "app" ≡ read begun "app"
run-frame_example = run-frame plain_text web_calls begun "app" web_calls_apart

shared_names : safe_name "my app" ≡ safe_name "my/app"
unfolding safe_name is_safe
shared_names = refl

begin_shared_example :
    (r : String × Store) × (begin plain_text "t1" "j1" "my app" intent begun ≡ ok r)
    × ((j : Journal) × (read r.1 "my/app" ≡ some j) × (j.repo ≡ plain_text.text "my app"))
begin_shared_example =
    begin_shared plain_text "t1" "j1" "my app" "my/app" intent begun shared_names refl

-- A journal that waits for its target.
abbrev waiting : Store
waiting = record {
  journals =
      (
        "app",
        record {
          current = record (new_attempt plain_text "t1" "j1" "app" intent) {
            state = target_resolving;
          };
          previous_attempts = [];
        },
      )
      ∷ [];
  receipts = [];
}

abbrev bound : Store
bound = step plain_text (binds "t2" "app" "q1" "bbb" "r2" "d2") waiting

first_binding : bind_handover_target plain_text "t2" "app" "q1" "bbb" "r2" "d2" waiting ≡ ok bound
unfolding bind_handover_target bind_with step read safe_name is_safe new_attempt Dict.get
first_binding = refl

abbrev later : Store
later = run plain_text web_calls bound

bound_again :
    bind_with plain_text "t8" "app" "q1" "bbb" "r2" "d2" (read bound "app") later ≡ ok later
unfolding bind_handover_target bind_with step read write safe_name is_safe new_attempt
    redact_journal redact_attempt Dict.get Dict.put
bound_again = refl

second_binding : bind_handover_target plain_text "t8" "app" "q1" "bbb" "r2" "d2" later ≡ ok later
unfolding bind_handover_target bind_with
second_binding = rw (run-frame plain_text web_calls bound "app" web_calls_apart) bound_again

abbrev head : String
head = "bbb"

abbrev release : String
release = "r2"

abbrev digest : String
digest = "d2"

bind_once_example : (later ≡ later) × (head ≡ head) × (release ≡ release) × (digest ≡ digest)
bind_once_example =
    bind_once plain_text "t2" "t8" "app" "q1" "q1" head release digest head release digest web_calls
      waiting bound later refl refl refl web_calls_apart first_binding second_binding
