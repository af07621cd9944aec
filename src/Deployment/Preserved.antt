-- ===== src/Deployment/Preserved.antt =====
-- A failed verification keeps the target.
use mathlib.Core.Path.{subst}
use haniel.Prelude.{◌≡◌, refl, ap, sym, ◌∙◌, false}
use haniel.Errors.{Exn, class_of, verification}
use haniel.Errors.Result.{Result, ok, raise}
use haniel.Journal.Record.{Redaction, verification_failed}
use haniel.Journal.Updates.{is_success}
use haniel.Deployment.Machine.{Machine, World, catching}
use haniel.Deployment.Triple.{Post}
use haniel.Deployment.Retrying.{Numeral}
use haniel.Deployment.Coordinator.{Deployment, is_verification}
use haniel.Deployment.Execute.{deploy}
use haniel.Deployment.Recover.{on_error, start_attempt, execute}
use haniel.Deployment.Stored.{At}
use haniel.Deployment.Outcome.{IsForeign}
use haniel.Deployment.Phases.{L}
use haniel.Deployment.Ends.{Ends, outside, unverified, deploy-Ends}
use haniel.Deployment.Ending.{undeployed_unverified, start-Live, Succeeded}
use haniel.Deployment.Calm.{Calm}
use haniel.Deployment.Kept.{deploy-Keep}
use haniel.Deployment.Undone.{Calm-IsSteady, start-Calm, either-Calm}

module _ (redaction : Redaction) (w : World) (numeral : Numeral) (d : Deployment) where
  -- The journal after a verification error of the body.
  verification-At :
      (e : Exn) (m : Machine)
      → Ends d.repo_name e m
      → class_of e ≡ verification
      → At d.repo_name verification_failed m.store
  verification-At e m (unverified class at) h = at
  verification-At e m (outside v live) h =
      cc (undeployed_unverified e v.undeployed, ap is_verification h)

  raised_Post :
      {A : Type 0} (Q : A → Machine → Type 0) (R : Exn → Machine → Type 0) (r : Result A)
      (m : Machine) (e : Exn)
      → r ≡ raise e
      → Post Q R r m
      → R e m
  raised_Post Q R r m e h v = subst (λ x. Post Q R x m) h v

  started_Live :
      (m n : Machine) (r : Result (Unit {0}))
      → r ≡ ok tt
      → Post (λ (_ : Unit {0}). L d) (λ e n. n ≡ m) r n
      → L d n
  started_Live m n r h v = subst (λ x. Post (λ (_ : Unit {0}). L d) (λ e n. n ≡ m) x n) h v

  caught :
      (n : Machine) (e : Exn)
      → (deploy redaction w numeral d n).0 ≡ raise e
      → class_of e ≡ verification
      → catching (deploy redaction w numeral d) (on_error redaction w numeral d) n
        ≡ (raise e, (deploy redaction w numeral d n).1)
  unfolding on_error
  caught n e raised class = rw raised (rw class refl)

  begun_body :
      (m : Machine)
      → is_success redaction d.repo_name d.target_head d.manifest.release_id m.store ≡ false
      → (start_attempt redaction w numeral d m).0 ≡ ok tt
      → execute redaction w numeral d m
        ≡ catching
            (deploy redaction w numeral d)
            (on_error redaction w numeral d)
            (start_attempt redaction w numeral d m).1
  unfolding execute
  begun_body m new begun = rw new (rw begun refl)

  -- Where the exceptions of the callbacks and commands are no deployment errors and have registered
  -- codes, and the release has not succeeded before: a deployment that has begun and whose body raises a
  -- verification error ends there. `execute` raises that error, in the machine that the body left: nothing
  -- is called or written after it, no roll-back, no preparation of another release and no command of
  -- the recovery is among its calls, where none was before, and the journal stands at
  -- verification_failed.
  pub unverified-preserved :
      (m : Machine) (e : Exn)
      → IsForeign w
      → Calm m
      → is_success redaction d.repo_name d.target_head d.manifest.release_id m.store ≡ false
      → (start_attempt redaction w numeral d m).0 ≡ ok tt
      → (deploy redaction w numeral d (start_attempt redaction w numeral d m).1).0 ≡ raise e
      → class_of e ≡ verification
      → (execute redaction w numeral d m
          ≡ (raise e, (deploy redaction w numeral d (start_attempt redaction w numeral d m).1).1))
        × Calm (execute redaction w numeral d m).1
        × At d.repo_name verification_failed (execute redaction w numeral d m).1.store
  unverified-preserved m e foreign calm new begun raised class =
      let n = (start_attempt redaction w numeral d m).1 in
      let k = (deploy redaction w numeral d n).1 in
      let ends = begun_body m new begun ∙ caught n e raised class in
      let live = started_Live m n _ begun (start-Live redaction w numeral d m) in
      (
        ends,
        subst (λ x. Calm x.1) (sym ends)
            (either-Calm redaction w numeral d _ k (
              deploy-Keep redaction w numeral d Calm (Calm-IsSteady d) n
                (start-Calm redaction w numeral d m calm))),
        subst (λ x. At d.repo_name verification_failed x.1.store) (sym ends)
            (verification-At e k
              (raised_Post (Succeeded redaction w numeral d) (Ends d.repo_name) _ k e raised
                (deploy-Ends redaction w numeral d foreign n live))
              class),
      )
