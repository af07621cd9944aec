-- ===== src/Deployment/Ending.antt =====
-- How `execute` of src/haniel/core/deployment.py ends, whatever the callbacks and the commands do.
use mathlib.Core.Path.{subst}
use haniel.Prelude.{
  ◌∙◌, ◌≡◌, refl, ◌⊎◌, inl, inr, String, Bool, true, false, ◌&&◌, Option, none, some, Bool-cases,
  Option-cases, if◌then◌else◌,
}
use haniel.Errors.{Exn, Class, verification, class_of, stable_code, message_of}
use haniel.Errors.Codes.{is_known}
use haniel.Errors.Result.{Result, ok, raise, Result-cases}
use haniel.Journal.Record.{State, recovering, success, failed, Redaction, Journal}
use haniel.Journal.Path.{Store, read}
use haniel.Journal.Begin.{Intent, resume, begin_with, renew, begin, inherit}
use haniel.Journal.Updates.{is_success, is_success_state}
use haniel.Deployment.Machine.{Machine, World, catching, throw, read_machine}
use haniel.Deployment.Retrying.{Numeral}
use haniel.Deployment.Coordinator.{
  Deployment, DeploymentResult, contract_mode, is_deployment, is_verification, intent_of,
}
use haniel.Deployment.Execute.{move, deploy, is_fresh}
use haniel.Deployment.Recover.{
  give_up, recovery_error, recovery_failed, recover_contract, recover_plain, undo,
  recover_and_raise, on_error, start_attempt, execute,
}
use haniel.Deployment.Triple.{
  Post, Triple, triple_bind, triple_catch, triple_if, triple_weaken, Post-weaken,
}
use haniel.Deployment.Stored.{At, IsLive, written-IsLive}
use haniel.Deployment.Outcome.{IsForeign, then-Live}
use haniel.Deployment.Phases.{L, E, move-Live, fail-At}
use haniel.Deployment.Ends.{Ends, outside, unverified, deploy-Ends}
use haniel.Deployment.Terminal.{
  Terminal, failing, Failed, fails, preserves, Mid, broken, closed, recovery_known, give_up-Failed,
  close-Failed, contract-Mid, recover_plain-Live,
}

and_left : (a b : Bool) → (a && b) ≡ true → a ≡ true
and_left true b h = refl
and_left false b h = cc

pub undeployed_unverified :
    (e : Exn) → is_deployment (class_of e) ≡ false → is_verification (class_of e) ≡ false
undeployed_unverified e h = by_class (class_of e) h
  where
    by_class : (c : Class) → is_deployment c ≡ false → is_verification c ≡ false
    by_class verification h = cc
    by_class c h = refl

module _ (redaction : Redaction) (w : World) (numeral : Numeral) (d : Deployment) where
  recovery-Failed :
      (e recovery : Exn)
      → Triple
          (Mid d.repo_name recovery)
          (recovery_failed redaction w numeral d e recovery)
          (λ _. L d)
          (Failed d.repo_name)
  unfolding recovery_failed
  recovery-Failed e recovery m (closed class at) = rw class (fails class at)
  recovery-Failed e recovery m (broken v live) = rw v.undeployed (
      triple_bind (L d) (λ _ m. At d.repo_name failed m.store) (λ (_ : Unit {0}). L d)
        (Failed d.repo_name) _ (λ _. throw (recovery_error redaction w numeral d e recovery))
        (fail-At redaction w numeral d (Failed d.repo_name) failed _ (some false)
          (recovery_error redaction w numeral d e recovery) refl (recovery_known _ recovery e))
        (λ _ m at. fails refl at) m live)

  undo-Failed :
      (e : Exn)
      → IsForeign w
      → is_known (stable_code e) ≡ true
      → Triple (L d) (undo redaction w numeral d e) (λ _ _. ⊥) (Failed d.repo_name)
  unfolding undo
  undo-Failed e foreign known =
      then-Live d.repo_name (λ _ _. ⊥) (Failed d.repo_name)
        (catching
          (if contract_mode d
            then recover_contract redaction w numeral d e
            else recover_plain redaction w numeral d)
          (recovery_failed redaction w numeral d e))
        _
        (triple_catch (L d) (λ _. L d) (Mid d.repo_name) (Failed d.repo_name) _
          (recovery_failed redaction w numeral d e)
          (triple_if (L d) (λ _. L d) (Mid d.repo_name) (contract_mode d)
            (recover_contract redaction w numeral d e) (recover_plain redaction w numeral d)
            (λ _. contract-Mid redaction w numeral d e foreign known)
            (λ _.
              triple_weaken (L d) (L d) (λ _. L d) (λ _. L d) (E d) (Mid d.repo_name)
                (recover_plain redaction w numeral d) (λ m v. v) (λ a m v. v)
                (λ x m v. broken v.0 v.1) (recover_plain-Live redaction w numeral d foreign)))
          (recovery-Failed e))
        (λ _. close-Failed redaction w numeral d (λ _ _. ⊥) _ e known)

  pub recover-Failed :
      (e : Exn)
      → IsForeign w
      → Triple (E d e) (recover_and_raise redaction w numeral d e) (λ _ _. ⊥) (Failed d.repo_name)
  unfolding recover_and_raise
  recover-Failed e foreign m (v, live) =
      then-Live d.repo_name (λ _ _. ⊥) (Failed d.repo_name)
        (move redaction w numeral d recovering (some (message_of e)) none none) _
        (move-Live redaction w numeral d (Failed d.repo_name) recovering _ none refl)
        (λ _.
          then-Live d.repo_name (λ _ _. ⊥) (Failed d.repo_name) (read_machine (λ m. m.operation)) _
            (λ m v. v)
            (λ operation.
              triple_if (L d) (λ _ _. ⊥) (Failed d.repo_name) (is_fresh operation)
                (give_up redaction w numeral d e) (undo redaction w numeral d e)
                (λ _. give_up-Failed redaction w numeral d e foreign v.known)
                (λ _. undo-Failed e foreign v.known)))
        m live

  abbrev pub Succeeded : DeploymentResult → Machine → Type 0
  Succeeded r m = At d.repo_name success m.store

  on_error-Terminal :
      (e : Exn)
      → IsForeign w
      → Triple
          (Ends d.repo_name e)
          (on_error redaction w numeral d e)
          Succeeded
          (Terminal d.repo_name)
  unfolding on_error
  on_error-Terminal e foreign m (unverified class at) = rw class (preserves class at)
  on_error-Terminal e foreign m (outside v live) = rw (undeployed_unverified e v.undeployed) (
      triple_weaken (E d e) (E d e) (λ _ _. ⊥) Succeeded (Failed d.repo_name) (Terminal d.repo_name)
        (recover_and_raise redaction w numeral d e) (λ m v. v) (λ a m v. elim v [ ])
        (λ e m v. failing v) (recover-Failed e foreign) m (v, live))

  -- What `begin` leaves where it does not raise.
  abbrev pub Begun : Result (String × Store) → Type 0
  Begun (ok r) = IsLive d.repo_name r.1
  Begun (raise e) = Unit

  begin_with-Begun :
      (now fresh : String) (o : Option Journal) (i : Intent) (id : Option String) (s : Store)
      → Begun (begin_with redaction now fresh d.repo_name o i id s)
  unfolding begin_with renew
  begin_with-Begun now fresh (some j) i (some id) s =
      elim (Result-cases (resume redaction now id j i)) [
        | inl (j', h) ↦ rw h (written-IsLive redaction d.repo_name j' s)
        | inr (e, h) ↦ rw h tt
      ]
  begin_with-Begun now fresh none i id s = written-IsLive redaction d.repo_name _ s
  begin_with-Begun now fresh (some j) i none s = written-IsLive redaction d.repo_name _ s

  pub begin-Begun :
      (now fresh : String) (i : Intent) (s : Store)
      → Begun (begin redaction now fresh d.repo_name i s)
  unfolding begin
  begin-Begun now fresh i s =
      begin_with-Begun now fresh (read s d.repo_name) (inherit (read s d.repo_name) i)
        i.journal_attempt_id s

  pub start-Live :
      (m : Machine)
      → Post
          (λ (_ : Unit {0}) n. L d n)
          (λ e n. n ≡ m)
          (start_attempt redaction w numeral d m).0
          (start_attempt redaction w numeral d m).1
  unfolding start_attempt
  start-Live m =
      elim (Result-cases
        (begin redaction (w.now m) (w.fresh m) d.repo_name (intent_of d) m.store)) [
          | inl (r, h) ↦
              rw h (subst Begun h (begin-Begun (w.now m) (w.fresh m) (intent_of d) m.store))
          | inr (e, h) ↦ rw h refl
        ]

  abbrev pub Ended : Machine → Exn → Machine → Type 0
  Ended m e n = (n ≡ m) ⊎ Terminal d.repo_name e n

  success_of_test : (s : State) → is_success_state s ≡ true → s ≡ success
  success_of_test success h = refl
  success_of_test s h = cc

  pub succeeded-At :
      (s : Store)
      → is_success redaction d.repo_name d.target_head d.manifest.release_id s ≡ true
      → At d.repo_name success s
  unfolding is_success
  succeeded-At s h = elim (Option-cases (read s d.repo_name)) [
    | inl e ↦ cc (rw e at h)
    | inr (j, e) ↦ record {
      journal = j;
      found = e;
      reached = success_of_test j.state (and_left (is_success_state j.state) _ (rw e at h));
    }
  ]

  -- Where the exceptions of the callbacks and commands are no deployment errors and have registered
  -- codes: an `execute` that returns leaves the journal at success. One that raises either has changed
  -- nothing, or raises a deployment error with the journal at failed, or a verification error with the
  -- journal at verification_failed.
  pub execute_ends :
      IsForeign w
      → (m : Machine)
      → Post Succeeded
          (Ended m)
          (execute redaction w numeral d m).0
          (execute redaction w numeral d m).1
  unfolding execute
  execute_ends foreign m =
      elim (Bool-cases
        (is_success redaction d.repo_name d.target_head d.manifest.release_id m.store)) [
          | inl h ↦ rw h (succeeded-At m.store h)
          | inr h ↦ rw h (
              triple_bind (λ n. n ≡ m) (λ _. L d) Succeeded (Ended m)
                (start_attempt redaction w numeral d)
                (λ _. catching (deploy redaction w numeral d) (on_error redaction w numeral d))
                (λ n same_machine.
                  Post-weaken (λ _. L d) (λ _. L d) (λ e k. k ≡ n) (Ended m) _ _ (λ _ k v. v)
                    (λ e k same. inl (same ∙ same_machine)) (start-Live n))
                (λ _ n live.
                  Post-weaken Succeeded Succeeded (Terminal d.repo_name) (Ended m) _ _ (λ _ k v. v)
                    (λ e k v. inr v)
                    (triple_catch (L d) Succeeded (Ends d.repo_name) (Terminal d.repo_name)
                      (deploy redaction w numeral d) (on_error redaction w numeral d)
                      (deploy-Ends redaction w numeral d foreign) (λ e. on_error-Terminal e foreign)
                      n live))
                m refl)
        ]
