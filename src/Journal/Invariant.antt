-- ===== src/Journal/Invariant.antt =====
-- Sequences of calls on the store, and what holds after any of them.
use haniel.Journal.Steps.{Steps, still, begin-Steps, begin_handover-Steps}
use haniel.Journal.Steps.Updates.{
  bind-Steps, fail-Steps, transition-Steps, link-Steps, record-Steps, interrupt-Steps,
}
use haniel.Prelude.{String, Bool, Option, List, [], ◌∷◌}
use haniel.Prelude.Json.{Json}
use haniel.Errors.{Exn}
use haniel.Errors.Result.{Result, ok, raise, OnOk}
use haniel.Journal.Record.{State, Journal, Redaction}
use haniel.Journal.Path.{Store, safe_name, receipt_name, write_receipt}
use haniel.Journal.Begin.{Intent, begin}
use haniel.Journal.Handover.{
  Handover, begin_handover, bind_handover_target, fail_handover_if_current,
}
use haniel.Journal.Updates.{
  transition, link_release_contract, record_database_result, mark_interrupted,
}

-- The calls that read or write journals. A call that raises has written nothing.
pub data Op : Type 0 where
  begins : (now fresh repo : String) → Intent → Op
  hands_over : (now later fresh repo : String) → Handover → Op
  binds : (now repo request target_head release_id manifest_digest : String) → Op
  fails : (now repo request error_code message : String) → Op
  transitions : (now repo : String) → State → Option String → Option Bool → Option Exn → Op
  links : (repo : String) → Option String → (operation path : String) → Option Json → Op
  records : (repo phase : String) → Json → Op
  interrupts : (now repo reason : String) → Op

-- All calls on the store: those, and `write_quiescence_receipt`.
pub data Call : Type 0 where
  updates : Op → Call
  acknowledges : (repo : String) → Json → Call

abbrev pub after {ℓ} : {A : Type ℓ} → (A → Store) → Store → Result A → Store
after f s (ok a) = f a
after f s (raise e) = s

-- The repository whose journal a call names.
abbrev pub repo_of : Op → String
repo_of (begins now fresh repo i) = repo
repo_of (hands_over now later fresh repo h) = repo
repo_of (binds now repo request head release digest) = repo
repo_of (fails now repo request code message) = repo
repo_of (transitions now repo state m r x) = repo
repo_of (links repo request operation path receipt) = repo
repo_of (records repo phase result) = repo
repo_of (interrupts now repo reason) = repo

-- The name of the file that a call writes.
abbrev pub file_of : Call → String
file_of (updates op) = safe_name (repo_of op)
file_of (acknowledges repo receipt) = receipt_name repo

module _ (redaction : Redaction) where
  unfoldable pub step : Op → Store → Store
  step (begins now fresh repo i) s = after (λ r. r.1) s (begin redaction now fresh repo i s)
  step (hands_over now later fresh repo h) s =
      after (λ r. r.1) s (begin_handover redaction now later fresh repo h s)
  step (binds now repo request head release digest) s =
      after (λ s'. s') s (bind_handover_target redaction now repo request head release digest s)
  step (fails now repo request code message) s =
      after (λ r. r.1) s (fail_handover_if_current redaction now repo request code message s)
  step (transitions now repo state m r x) s =
      after (λ s'. s') s (transition redaction now repo state m r x s)
  step (links repo request operation path receipt) s =
      after (λ s'. s') s (link_release_contract redaction repo request operation path receipt s)
  step (records repo phase result) s =
      after (λ s'. s') s (record_database_result redaction repo phase result s)
  step (interrupts now repo reason) s = (mark_interrupted redaction now repo reason s).1

  after-Steps {ℓ} :
      {A : Type ℓ} (repo : String) (f : A → Store) (s : Store) (r : Result A)
      → OnOk (λ a. Steps redaction repo s (f a)) r
      → Steps redaction repo s (after f s r)
  after-Steps repo f s (ok a) steps = steps
  after-Steps repo f s (raise e) steps = still

  -- A call only writes the file of its repository, by the changes of `Change`.
  pub step-Steps : (op : Op) (s : Store) → Steps redaction (repo_of op) s (step op s)
  unfolding step
  step-Steps (begins now fresh repo i) s =
      after-Steps repo _ s _ (begin-Steps redaction repo now fresh i s)
  step-Steps (hands_over now later fresh repo h) s =
      after-Steps repo _ s _ (begin_handover-Steps redaction repo now later fresh h s)
  step-Steps (binds now repo request head release digest) s =
      after-Steps repo _ s _ (bind-Steps redaction repo now request head release digest s)
  step-Steps (fails now repo request code message) s =
      after-Steps repo _ s _ (fail-Steps redaction repo now request code message s)
  step-Steps (transitions now repo state m r x) s =
      after-Steps repo _ s _ (transition-Steps redaction repo now state m r x s)
  step-Steps (links repo request operation path receipt) s =
      after-Steps repo _ s _ (link-Steps redaction repo request operation path receipt s)
  step-Steps (records repo phase result) s =
      after-Steps repo _ s _ (record-Steps redaction repo phase result s)
  step-Steps (interrupts now repo reason) s = interrupt-Steps redaction repo now reason s

  unfoldable pub perform : Call → Store → Store
  unfolding step
  perform (updates op) s = step op s
  perform (acknowledges repo receipt) s = write_receipt redaction repo receipt s

  unfoldable pub run : List Call → Store → Store
  unfolding perform
  run [] s = s
  run (call ∷ calls) s = run calls (perform call s)
