-- ===== src/Deployment/Ends.antt =====
-- The ends of `execute` of src/haniel/core/deployment.py: what is raised, and where the journal is.
use haniel.Prelude.{
  ◌≡◌, refl, inl, inr, String, true, false, not, ◌&&◌, ◌||◌, Option, none, some, Bool-cases, truthy,
  ◌==◌, eq_iff,
}
use haniel.Errors.{
  Exn, exn, Class, Link, verification, nothing, linked, class_of, message_of, stable_code,
}
use haniel.Errors.Codes.{is_known, known_codes}
use haniel.Journal.Record.{migrating, starting, verifying, success, verification_failed, Redaction}
use haniel.Deployment.Machine.{
  Machine, World, Action, ◌>>=◌, ◌>>◌, pure, throw, modify, read_machine, started, stopped,
}
use haniel.Deployment.Retrying.{Numeral}
use haniel.Deployment.Quiescence.{validate_quiescence_receipt}
use haniel.Deployment.Coordinator.{
  MigrationSpec, Deployment, DeploymentResult, contract_mode, expected, verification_error,
}
use haniel.Deployment.Execute.{
  move, call, run_database, build_phase, preflight_with, lift_result, stop_services, quiesce,
  migrate_with, verify, verify_target, handover, deploy, is_upgrade,
}
use haniel.Deployment.Triple.{Triple, triple_bind, triple_catch, triple_if, triple_weaken}
use haniel.Deployment.Stored.{At, IsLive}
use haniel.Deployment.Outcome.{IsExternal, IsForeign, then-Live, perform-Live, lift-Live}
use haniel.Deployment.Retried.{verify-Live}
use haniel.Deployment.Phases.{L, E, move-At, move-Live, fail-At, call-Live, run_database-Live}
use haniel.Deployment.Deploys.{
  build_phase-Live, preflight-Live, with_receipt-Live, receipt-Plainly, plainly_external,
}

-- How the body of the `try` raises: from the outside, or after a failed verification.
pub data Ends (repo : String) (e : Exn) (m : Machine) : Type 0 where
  outside : IsExternal e → IsLive repo m.store → Ends repo e m
  unverified : class_of e ≡ verification → At repo verification_failed m.store → Ends repo e m

-- The code of a verification error is that of its cause, hence known.
known_truthy : (code : String) → is_known code ≡ true → truthy (some code) ≡ true
unfolding is_known known_codes
known_truthy code h = elim (Bool-cases (code == "")) [
  | inl e ↦ cc (rw ((eq_iff code "").0 e) at h)
  | inr e ↦ rw e
]

code_kept :
    (c : Class) (code message : String) (cause : Link)
    → truthy (some code) ≡ true
    → stable_code (exn c (some code) message nothing cause) ≡ code
unfolding stable_code
code_kept c code message cause h = rw h

verification-known :
    (e : Exn)
    → is_known (stable_code e) ≡ true
    → is_known (stable_code (verification_error e)) ≡ true
unfolding verification_error
verification-known e h =
    rw (code_kept verification (stable_code e) _ (linked e) (known_truthy (stable_code e) h), h)

module _ (redaction : Redaction) (w : World) (numeral : Numeral) (d : Deployment) where
  quiesce-Live : IsForeign w → Triple (L d) (quiesce redaction w numeral d) (λ _. L d) (E d)
  unfolding quiesce
  quiesce-Live foreign =
      then-Live d.repo_name (λ _. L d) (E d) (read_machine (λ m. m.operation)) _ (λ m v. v)
        (λ operation.
          triple_if (L d) (λ _. L d) (E d) (not (contract_mode d) || is_upgrade operation) _
            (pure tt)
            (λ _.
              then-Live d.repo_name (λ _. L d) (E d) (stop_services redaction w numeral d) _
                (perform-Live d.repo_name stopped _ (λ m e h. foreign.stops m e h))
                (λ receipt.
                  triple_if (L d) (λ _. L d) (E d) (contract_mode d && is_upgrade operation) _
                    (pure tt)
                    (λ _.
                      then-Live d.repo_name (λ _. L d) (E d)
                        (lift_result redaction w numeral d
                          (validate_quiescence_receipt (expected d) receipt))
                        _
                        (lift-Live d.repo_name
                          (λ m. validate_quiescence_receipt (expected d) receipt)
                          (λ m e h. plainly_external _ e (receipt-Plainly (expected d) receipt) h))
                        (λ _. with_receipt-Live redaction w numeral d receipt foreign))
                    (λ _ m v. v)))
            (λ _ m v. v))

  migrate-Live :
      (o : Option MigrationSpec)
      → IsForeign w
      → Triple (L d) (migrate_with redaction w numeral d o) (λ _. L d) (E d)
  unfolding migrate_with
  migrate-Live none foreign = λ m v. v
  migrate-Live (some g) foreign =
      then-Live d.repo_name (λ _. L d) (E d) (modify (λ m. record m { migration_started = true })) _
        (λ m v. record { journal = v.journal; found = v.found })
        (λ _.
          then-Live d.repo_name (λ _. L d) (E d) (read_machine (λ m. m.environment)) _ (λ m v. v)
            (λ env.
              then-Live d.repo_name (λ _. L d) (E d)
                (run_database redaction w numeral d "apply" g.apply_command env) (λ _. pure tt)
                (run_database-Live redaction w numeral d "apply" g.apply_command env foreign)
                (λ _ m v. v)))

  handover-Live : IsForeign w → Triple (L d) (handover redaction w numeral d) (λ _. L d) (E d)
  unfolding handover
  handover-Live foreign =
      then-Live d.repo_name (λ _. L d) (E d) (move redaction w numeral d starting none none none) _
        (move-Live redaction w numeral d (E d) starting none none refl)
        (λ _.
          then-Live d.repo_name (λ _. L d) (E d)
            (modify (λ m. record m { target_start_attempted = true })) _
            (λ m v. record { journal = v.journal; found = v.found })
            (λ _.
              then-Live d.repo_name (λ _. L d) (E d) (call redaction w numeral d started) _
                (call-Live redaction w numeral d started foreign)
                (λ _. move-Live redaction w numeral d (E d) verifying none none refl)))

  pub external-Ends : (e : Exn) (m : Machine) → E d e m → Ends d.repo_name e m
  external-Ends e m (v, live) = outside v live

  -- A phase that raises only from the outside, and the rest.
  then-Ends :
      {A B : Type 0} (S : B → Machine → Type 0) (c : Action A) (f : A → Action B)
      → Triple (L d) c (λ _. L d) (E d)
      → ((a : A) → Triple (L d) (f a) S (Ends d.repo_name))
      → Triple (L d) (c >>= f) S (Ends d.repo_name)
  then-Ends S c f first rest =
      then-Live d.repo_name S (Ends d.repo_name) c f
        (triple_weaken (L d) (L d) (λ _. L d) (λ _. L d) (E d) (Ends d.repo_name) c (λ m v. v)
          (λ a m v. v) external-Ends first)
        rest

  unverified_end :
      (e : Exn)
      → Triple
          (E d e)
          (move redaction w numeral d verification_failed
              (some (message_of (verification_error e)))
              (some false)
              (some (verification_error e))
            >> throw (verification_error e))
          (λ (_ : Unit {0}). L d)
          (Ends d.repo_name)
  unverified_end e m (v, live) =
      triple_bind (L d) (λ _ m. At d.repo_name verification_failed m.store) (λ _. L d)
        (Ends d.repo_name)
        (move redaction w numeral d verification_failed (some (message_of (verification_error e)))
          (some false) (some (verification_error e)))
        (λ _. throw (verification_error e))
        (fail-At redaction w numeral d (Ends d.repo_name) verification_failed
          (some (message_of (verification_error e))) (some false) (verification_error e) refl
          (verification-known e v.known))
        (λ _ m at. unverified (unfold verification_error in refl) at) m live

  verify_target-Live :
      IsForeign w → Triple (L d) (verify_target redaction w numeral d) (λ _. L d) (Ends d.repo_name)
  unfolding verify_target
  verify_target-Live foreign =
      then-Ends (λ _. L d) (read_machine (λ m. m.environment)) _ (λ m v. v)
        (λ env.
          triple_catch (L d) (λ _. L d) (E d) (Ends d.repo_name) (verify redaction w numeral d env)
            _
            (verify-Live w numeral d.repo_name d.manifest.post_start_verify env
              d.manifest.post_start_verify_retry d.manifest.post_start_verify_retry.total_grace
              foreign)
            unverified_end)

  abbrev Succeeded : DeploymentResult → Machine → Type 0
  Succeeded r m = At d.repo_name success m.store

  pub deploy-Ends :
      IsForeign w → Triple (L d) (deploy redaction w numeral d) Succeeded (Ends d.repo_name)
  unfolding deploy
  deploy-Ends foreign =
      then-Ends Succeeded (build_phase redaction w numeral d) _
        (build_phase-Live redaction w numeral d foreign)
        (λ _.
          then-Ends Succeeded (preflight_with redaction w numeral d d.manifest.migration) _
            (preflight-Live redaction w numeral d d.manifest.migration foreign)
            (λ _. then-Ends Succeeded (quiesce redaction w numeral d) _ (quiesce-Live foreign) (λ _.
              then-Ends Succeeded (move redaction w numeral d migrating none none none) _
                (move-Live redaction w numeral d (E d) migrating none none refl)
                (λ _.
                  then-Ends Succeeded (migrate_with redaction w numeral d d.manifest.migration) _
                    (migrate-Live d.manifest.migration foreign)
                    (λ _.
                      then-Ends Succeeded (handover redaction w numeral d) _ (handover-Live foreign)
                        (λ _.
                          then-Live d.repo_name Succeeded (Ends d.repo_name)
                            (verify_target redaction w numeral d) _ (verify_target-Live foreign)
                            (λ _.
                              triple_bind (L d) (λ _ m. At d.repo_name success m.store) Succeeded
                                (Ends d.repo_name)
                                (move redaction w numeral d success none none none) _
                                (move-At redaction w numeral d (Ends d.repo_name) success none none
                                  refl)
                                (λ _ m v. v))))))))
