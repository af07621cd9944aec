-- ===== src/Deployment/Phases.antt =====
-- The body of the `try` of `execute`: it ends with the journal at success, or raises.
use haniel.Prelude.{
  ◌≡◌, refl, inl, inr, String, Bool, true, false, Option, none, some, Bool-cases, ◌==◌,
  if◌then◌else◌,
}
use haniel.Prelude.Json.{Json, obj, Fields}
use haniel.Errors.{Exn, exn, stable, Link, nothing, linked, message_of, stable_code, unclassified}
use haniel.Errors.Codes.{is_known, known_codes}
use haniel.Journal.Record.{State, Redaction}
use haniel.Journal.Updates.{is_error_state}
use haniel.Deployment.Machine.{CommandSpec, Environment, Event, Machine, World}
use haniel.Deployment.Retrying.{Numeral, run}
use haniel.Deployment.Coordinator.{Deployment, phase_code, json_of}
use haniel.Deployment.Execute.{
  build_label, move, call, keep_result, result_kept, coded, run_database, link,
}
use haniel.Deployment.Triple.{Triple, triple_catch, triple_weaken}
use haniel.Deployment.Stored.{
  At, IsLive, At-IsLive, transition-At, failure-At, link-IsLive, record-IsLive,
}
use haniel.Deployment.Outcome.{
  IsExternal, IsForeign, Live, External, then-Live, store-Live, perform-Live,
}
use haniel.Deployment.Retried.{IsCoded, run-Live}

pub build_label-IsCoded : IsCoded build_label
unfolding stable_code is_known known_codes
build_label-IsCoded = record {
  exhausted_known = λ message l. refl;
  interrupted_known = λ message l. refl;
}

abbrev IsKnownAs : (message : String) → Link → String → Type 0
IsKnownAs message l code = is_known (stable_code (exn stable (some code) message nothing l)) ≡ true

either_known :
    (message : String) (l : Link) (b : Bool) (x y : String)
    → IsKnownAs message l x
    → IsKnownAs message l y
    → IsKnownAs message l (if b then x else y)
either_known message l true x y hx hy = hx
either_known message l false x y hx hy = hy

literal_known :
    (message : String) (l : Link)
    → IsKnownAs message l "PREFLIGHT_FAILED"
      × IsKnownAs message l "BACKUP_CREATE_FAILED"
      × IsKnownAs message l "BACKUP_VERIFY_FAILED"
      × IsKnownAs message l "APPLY_FAILED"
      × IsKnownAs message l "RECOVERY_FAILED"
      × IsKnownAs message l "DATABASE_COMMAND_FAILED"
unfolding stable_code is_known known_codes
literal_known message l = (refl, refl, refl, refl, refl, refl)

-- Every phase has a registered code.
phase_code-known : (phase message : String) (l : Link) → IsKnownAs message l (phase_code phase)
unfolding phase_code
phase_code-known phase message l =
    let (a, b, c, e, f, g) = literal_known message l in
    either_known message l (phase == "preflight") _ _ a (
      either_known message l (phase == "backup") _ _ b (
        either_known message l (phase == "verify_backup") _ _ c (
          either_known message l (phase == "apply") _ _ e
            (either_known message l (phase == "recovery") _ _ f g))))

abbrev pub L : Deployment → Machine → Type 0
L d = Live d.repo_name

abbrev pub E : Deployment → Exn → Machine → Type 0
E d = External d.repo_name

module _ (redaction : Redaction) (w : World) (numeral : Numeral) (d : Deployment) where
  pub move-At :
      (R : Exn → Machine → Type 0) (state : State) (message : Option String) (r : Option Bool)
      → is_error_state state ≡ false
      → Triple
          (L d)
          (move redaction w numeral d state message r none)
          (λ _ m. At d.repo_name state m.store)
          R
  unfolding move
  move-At R state message r h =
      store-Live d.repo_name (At d.repo_name state) R _
        (λ m v. transition-At redaction d.repo_name (w.now m) state message r m.store h v)

  pub move-Live :
      (R : Exn → Machine → Type 0) (state : State) (message : Option String) (r : Option Bool)
      → is_error_state state ≡ false
      → Triple (L d) (move redaction w numeral d state message r none) (λ _. L d) R
  move-Live R state message r h =
      triple_weaken (L d) (L d) (λ _ m. At d.repo_name state m.store) (λ _. L d) R R
        (move redaction w numeral d state message r none) (λ m v. v) (λ a m v. At-IsLive v)
        (λ e m v. v) (move-At R state message r h)

  pub fail-At :
      (R : Exn → Machine → Type 0) (state : State) (message : Option String) (r : Option Bool)
      (e : Exn)
      → is_error_state state ≡ true
      → is_known (stable_code e) ≡ true
      → Triple
          (L d)
          (move redaction w numeral d state message r (some e))
          (λ _ m. At d.repo_name state m.store)
          R
  unfolding move
  fail-At R state message r e h k =
      store-Live d.repo_name (At d.repo_name state) R _
        (λ m v. failure-At redaction d.repo_name (w.now m) state message r e m.store h k v)

  pub call-Live :
      (event : Event)
      → IsForeign w
      → Triple (L d) (call redaction w numeral d event) (λ _. L d) (E d)
  call-Live event foreign = perform-Live d.repo_name event _ (λ m e h. foreign.calls m event e h)

  pub link-Live :
      (operation path : String) (receipt : Option Json)
      → Triple (L d) (link redaction w numeral d operation path receipt) (λ _. L d) (E d)
  link-Live operation path receipt =
      store-Live d.repo_name (IsLive d.repo_name) (E d) _
        (λ m v. link-IsLive redaction d.repo_name d.request_id operation path receipt m.store v)

  keep_result-Live :
      (phase : String) (o : Option Fields)
      → Triple (L d) (result_kept redaction w numeral d phase o) (λ _. L d) (E d)
  keep_result-Live phase none = λ m v. v
  keep_result-Live phase (some payload) =
      store-Live d.repo_name (IsLive d.repo_name) (E d) _
        (λ m v. record-IsLive redaction d.repo_name phase (obj payload) m.store v)

  coded-IsExternal :
      (phase : String) (e : Exn) → IsExternal e → IsExternal (coded redaction w numeral d phase e)
  coded-IsExternal phase e v = elim (Bool-cases (stable_code e == unclassified)) [
    | inl h ↦
        rw h
          (record { undeployed = refl; known = phase_code-known phase (message_of e) (linked e) })
    | inr h ↦ rw h v
  ]

  pub run_database-Live :
      (phase : String) (command : CommandSpec) (env : Environment)
      → IsForeign w
      → Triple (L d) (run_database redaction w numeral d phase command env) (λ _. L d) (E d)
  unfolding run_database
  run_database-Live phase command env foreign =
      then-Live d.repo_name (λ _. L d) (E d) _ _
        (triple_catch (L d) (λ _. L d) (E d) (E d) (run w numeral phase command env) _
          (run-Live w numeral d.repo_name phase command env foreign)
          (λ e m v. (coded-IsExternal phase e v.0, v.1)))
        (λ result.
          then-Live d.repo_name (λ _. L d) (E d) (keep_result redaction w numeral d phase result) _
            (keep_result-Live phase (json_of result)) (λ _ m v. v))
