-- ===== src/Journal/Updates.antt =====
-- `transition`, `link_release_contract`, `record_database_result`, `is_success` and
-- `mark_interrupted` of src/haniel/core/deployment_state.py.
use haniel.Prelude.{
  String, Bool, true, false, not, ◌&&◌, Option, none, some, [], ◌∷◌, ◌++◌, truthy, is_some, ◌==◌,
  if◌then◌else◌,
}
use haniel.Prelude.Json.{Json}
use haniel.Errors.{Exn, plain_error, stable_code}
use haniel.Errors.Codes.{is_known}
use haniel.Errors.Result.{Result, ok, raise}
use haniel.Journal.Record.{
  State, success, failed, verification_failed, interrupted, is_terminal, Attempt, Journal,
  Redaction, entry,
}
use haniel.Journal.Path.{Store, read, write}

abbrev pub is_error_state : State → Bool
is_error_state failed = true
is_error_state verification_failed = true
is_error_state _ = false

abbrev pub is_success_state : State → Bool
is_success_state success = true
is_success_state _ = false

abbrev pub is_verification_failed : State → Bool
is_verification_failed verification_failed = true
is_verification_failed _ = false

-- The code of a typed error, or the default of a message that has none.
unfoldable pub transition_code : Option Exn → String
transition_code none = "HANDOVER_FAILED"
transition_code (some e) = stable_code e

abbrev or_keep {ℓ} : {A : Type ℓ} → Option A → A → A
or_keep none a = a
or_keep (some b) a = b

module _ (redaction : Redaction) where
  unfoldable pub moved :
      (now : String)
      → State
      → Option String
      → Option Bool
      → (code : Option String) → Journal
      → Journal
  moved now state message recovered code j = record j {
    current = record j.current {
      state = state;
      completed_at = (if is_terminal state then some now else j.completed_at);
      error_code = (if is_some code then code else j.error_code);
      target_preserved = (if is_verification_failed state then some true else j.target_preserved);
      recovered = or_keep recovered j.recovered;
      history = j.history ++ entry redaction now state message ∷ [];
    };
  }

  unfoldable pub transition_with :
      (now repo : String)
      → State
      → Option String
      → Option Bool
      → Option Exn
      → Option Journal
      → Store
      → Result Store
  transition_with now repo state message recovered error none s =
      raise (plain_error "deployment journal does not exist")
  transition_with now repo state message recovered error (some j) s =
      let code = transition_code error in
      if is_some error && not (is_error_state state)
      then raise (plain_error "typed transition errors are only valid for failure states")
      else if is_error_state state && truthy message
      then (if is_known code
          then ok (write redaction repo (moved now state message recovered (some code) j) s)
          else raise (plain_error "unregistered deployment error code"))
      else ok (write redaction repo (moved now state message recovered none j) s)

  unfoldable pub transition :
      (now repo : String) → State → Option String → Option Bool → Option Exn → Store → Result Store
  transition now repo state message recovered error s =
      transition_with now repo state message recovered error (read s repo) s

  -- A method that only edits the current attempt, and raises where there is no journal.
  unfoldable pub edit : String → (Attempt → Attempt) → Option Journal → Store → Result Store
  edit repo f none s = raise (plain_error "deployment journal does not exist")
  edit repo f (some j) s = ok (write redaction repo (record j { current = f j.current }) s)

  unfoldable pub link_release_contract :
      (repo : String)
      → Option String
      → (operation database_journal_path : String) → Option Json
      → Store
      → Result Store
  link_release_contract repo request operation path receipt s =
      edit repo
        (λ a. record a {
          request_id = request;
          operation = some operation;
          database_journal_path = some path;
          quiescence_receipt = (if is_some receipt then receipt else a.quiescence_receipt);
        })
        (read s repo) s

  unfoldable pub record_database_result : (repo phase : String) → Json → Store → Result Store
  record_database_result repo phase result s =
      edit repo
        (λ a. record a {
          database_last_result_phase = some phase;
          database_last_result = some (redaction.value result);
        })
        (read s repo) s

  abbrev pub succeeded : (target_head release_id : String) → Option Journal → Bool
  succeeded head release none = false
  succeeded head release (some j) =
      is_success_state j.state && (j.target_head == head && j.release_id == release)

  unfoldable pub is_success : (repo target_head release_id : String) → Store → Bool
  is_success repo head release s = succeeded head release (read s repo)

  unfoldable pub interrupt_with : (now repo reason : String) → Option Journal → Store → Bool × Store
  interrupt_with now repo reason none s = (false, s)
  interrupt_with now repo reason (some j) s = if is_terminal j.state then (false, s) else (
    true,
    write redaction repo
        (record j {
          current = record j.current {
            state = interrupted;
            interrupted_from = some j.state;
            interruption_reason = some reason;
            history = j.history ++ entry redaction now interrupted (some reason) ∷ [];
          };
        })
        s,
  )

  unfoldable pub mark_interrupted : (now repo reason : String) → Store → Bool × Store
  mark_interrupted now repo reason s = interrupt_with now repo reason (read s repo) s
