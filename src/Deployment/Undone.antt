-- ===== src/Deployment/Undone.antt =====
-- When nothing is undone: after the failure of a fresh install.
use haniel.Prelude.{
  inl, inr, ◌≡◌, refl, ap, ◌∙◌, String, false, ◌==◌, eq_iff, same_iff, arith, Option, none, some,
  Bool-cases, if◌then◌else◌,
}
use haniel.Prelude.Json.{Fields, member}
use haniel.Errors.{Exn, class_of, message_of}
use haniel.Errors.Result.{Result, ok, raise, Result-cases}
use haniel.Journal.Record.{Redaction, recovering, failed}
use haniel.Journal.Begin.{begin}
use haniel.Journal.Updates.{is_success}
use haniel.Deployment.Machine.{
  Machine, World, ◌>>=◌, catching, pure, throw, read_machine, stopped_partial,
}
use haniel.Deployment.Triple.{Post, Post-weaken, Triple, triple_bind}
use haniel.Deployment.Retrying.{Numeral}
use haniel.Deployment.Coordinator.{
  MigrationSpec, Deployment, json_of, preflight_contract, contract_with, with_operation, with_path,
  operation_in, path_in, is_verification, intent_of,
}
use haniel.Deployment.Execute.{move, call, deploy, is_fresh}
use haniel.Deployment.Recover.{
  partial_stop, cleanup_error, cleanup_failed, give_up, recover_and_raise, on_error, start_attempt,
  execute, undo,
}
use haniel.Deployment.Calm.{Calm, IsSteady, Keep, then-Keep, catch-Keep, if-Keep}
use haniel.Deployment.Kept.{move-Keep, call-Keep, deploy-Keep}

pub Calm-IsSteady : (d : Deployment) → IsSteady d Calm
Calm-IsSteady d = record {
  performs = λ event m calm k. (calm, k);
  stores = λ s m k. k;
  assigns = λ env migration start m k. k;
  operates = λ g r operation path env m h k. k;
}

record IsFresh (m : Machine) : Type 0 where
  calm : Calm m
  fresh : m.operation ≡ some "fresh_install"

path_operation :
    (operation : String) (o : Option String) (found path : String)
    → with_path operation o ≡ ok (found, path)
    → found ≡ operation
path_operation operation none found path h = cc
path_operation operation (some p) found path h = cc

wanted_operation :
    (o path : Option String) (wanted found p : String)
    → with_operation o (some wanted) path ≡ ok (found, p)
    → found ≡ wanted
wanted_operation none path wanted found p h = cc
wanted_operation (some operation) path wanted found p h = elim (Bool-cases (operation == wanted)) [
  | inl e ↦ path_operation operation path found p (rw e at h) ∙ (eq_iff operation wanted).0 e
  | inr e ↦ cc (rw e at h)
]

-- A preflight's operation is the one that was expected.
payload_operation :
    (g : MigrationSpec) (o : Option Fields) (wanted found p : String)
    → contract_with g (some wanted) o ≡ ok (found, p)
    → found ≡ wanted
payload_operation g none wanted found p h = cc
payload_operation g (some payload) wanted found p h = ground (
  arith,
  wanted_operation (operation_in (member "operation" payload))
      (path_in (member "journal_path" payload)) wanted found p,
)

IsFresh-IsSteady :
    (d : Deployment) → d.expected_operation ≡ some "fresh_install" → IsSteady d IsFresh
unfolding preflight_contract
IsFresh-IsSteady d wanted = record {
  performs = λ event m calm k. record { calm = (calm, k.calm); fresh = k.fresh };
  stores = λ s m k. record { calm = k.calm; fresh = k.fresh };
  assigns = λ env migration start m k. record { calm = k.calm; fresh = k.fresh };
  operates = λ g r operation path env m h k. record {
    calm = k.calm;
    fresh =
        ap some (payload_operation g (json_of r) "fresh_install" operation path (rw wanted at h));
  };
}

module _ (redaction : Redaction) (w : World) (numeral : Numeral) (d : Deployment) where
  -- `start_attempt` calls nothing outside.
  pub start-Calm : (m : Machine) → Calm m → Calm (start_attempt redaction w numeral d m).1
  unfolding start_attempt
  start-Calm m k =
      elim (Result-cases
        (begin redaction (w.now m) (w.fresh m) d.repo_name (intent_of d) m.store)) [
          | inl (r, h) ↦ rw h k
          | inr (e, h) ↦ rw h k
        ]

  start-IsFresh :
      d.expected_operation ≡ some "fresh_install"
      → Triple Calm (start_attempt redaction w numeral d) (λ (_ : Unit {0}). IsFresh) (λ _. Calm)
  unfolding start_attempt
  start-IsFresh wanted m k =
      elim (Result-cases
        (begin redaction (w.now m) (w.fresh m) d.repo_name (intent_of d) m.store)) [
          | inl (r, h) ↦ rw h (record { calm = k; fresh = wanted })
          | inr (e, h) ↦ rw h k
        ]

  module _ (wanted : d.expected_operation ≡ some "fresh_install") where
    steady : IsSteady d IsFresh
    steady = IsFresh-IsSteady d wanted

    give_up-Keep : (e : Exn) → Keep IsFresh (give_up redaction w numeral d e)
    unfolding give_up
    give_up-Keep e =
        then-Keep IsFresh (read_machine (λ m. m.target_start_attempted)) _ (λ m k. k)
          (λ attempted.
            then-Keep IsFresh
              (if attempted
                then catching (partial_stop redaction w numeral d)
                    (cleanup_failed redaction w numeral d e)
                else pure tt)
              _
              (if-Keep IsFresh attempted
                (catching (partial_stop redaction w numeral d)
                  (cleanup_failed redaction w numeral d e))
                (pure tt)
                (λ _.
                  catch-Keep IsFresh (partial_stop redaction w numeral d) _
                    (if-Keep IsFresh d.has_stop_partial (call redaction w numeral d stopped_partial)
                      _ (λ _. call-Keep redaction w numeral d IsFresh steady stopped_partial refl)
                      (λ _ m k. k))
                    (λ cleanup.
                      then-Keep IsFresh
                        (move redaction w numeral d failed _ (some false)
                          (some (cleanup_error redaction w numeral d e cleanup)))
                        (λ _. throw (cleanup_error redaction w numeral d e cleanup))
                        (move-Keep redaction w numeral d IsFresh steady failed _ _ _) (λ _ m k. k)))
                (λ _ m k. k))
              (λ _.
                then-Keep IsFresh (move redaction w numeral d failed _ (some false) (some e)) _
                  (move-Keep redaction w numeral d IsFresh steady failed _ _ _) (λ _ m k. k)))

    after_recovering :
        (e : Exn)
        → Keep IsFresh (
            read_machine (λ m. m.operation) >>= λ operation.
            if is_fresh operation
            then give_up redaction w numeral d e
            else undo redaction w numeral d e)
    after_recovering e m k =
        rw ((same_iff m.operation (some "fresh_install")).1 k.fresh) (give_up-Keep e m k)

    recover-Keep : (e : Exn) → Keep IsFresh (recover_and_raise redaction w numeral d e)
    unfolding recover_and_raise
    recover-Keep e =
        then-Keep IsFresh (move redaction w numeral d recovering (some (message_of e)) none none) _
          (move-Keep redaction w numeral d IsFresh steady recovering _ _ _)
          (λ _. after_recovering e)

    on_error-Keep : (e : Exn) → Keep IsFresh (on_error redaction w numeral d e)
    unfolding on_error
    on_error-Keep e =
        if-Keep IsFresh (is_verification (class_of e)) (throw e)
          (recover_and_raise redaction w numeral d e) (λ _ m k. k) (λ _. recover-Keep e)

    executed : Triple Calm (execute redaction w numeral d) (λ _. Calm) (λ _. Calm)
    unfolding execute
    executed m k =
        elim (Bool-cases
          (is_success redaction d.repo_name d.target_head d.manifest.release_id m.store)) [
            | inl h ↦ rw h k
            | inr h ↦ rw h (
                triple_bind Calm (λ _. IsFresh) (λ _. Calm) (λ _. Calm)
                  (start_attempt redaction w numeral d)
                  (λ _. catching (deploy redaction w numeral d) (on_error redaction w numeral d))
                  (start-IsFresh wanted)
                  (λ _ n v.
                    Post-weaken (λ _. IsFresh) (λ _. Calm) (λ _. IsFresh) (λ _. Calm) _ _
                      (λ _ m v. v.calm) (λ _ m v. v.calm)
                      (catch-Keep IsFresh (deploy redaction w numeral d)
                        (on_error redaction w numeral d)
                        (deploy-Keep redaction w numeral d IsFresh steady) on_error-Keep n v))
                  m k)
          ]

  pub either-Calm :
      {A : Type 0} (r : Result A) (m : Machine) → Post (λ (_ : A). Calm) (λ _. Calm) r m → Calm m
  either-Calm (ok a) m k = k
  either-Calm (raise e) m k = k

  -- A fresh install that is expected as such undoes nothing, however it ends and whatever the callbacks
  -- and commands do: no roll-back, no preparation of another release and no command of the recovery is
  -- among the calls, where none was before.
  pub fresh_install-Calm :
      (m : Machine)
      → d.expected_operation ≡ some "fresh_install"
      → Calm m
      → Calm (execute redaction w numeral d m).1
  fresh_install-Calm m wanted k =
      either-Calm (execute redaction w numeral d m).0 (execute redaction w numeral d m).1
        (executed wanted m k)
