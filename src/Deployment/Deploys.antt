-- ===== src/Deployment/Deploys.antt =====
-- The phases of `execute` in their order: each keeps the journal, or raises.
use mathlib.Core.Path.{subst}
use haniel.Prelude.{
  ap, ◌∙◌, if◌then◌else◌, ◌≡◌, refl, inl, inr, String, not, ◌&&◌, Option, none, some, Bool-cases,
  is_some, truthy, same,
}
use haniel.Prelude.Dict
use haniel.Prelude.Json.{obj, Fields, member}
use haniel.Errors.{Exn}
use haniel.Errors.Result.{Result, ok, raise}
use haniel.Journal.Record.{preflight, Redaction, Journal}
use haniel.Journal.Path.{read, read-write_receipt, own_receipt}
use haniel.Deployment.Machine.{CommandResult, World, pure, read_machine, built, acknowledged}
use haniel.Deployment.Retrying.{Numeral}
use haniel.Deployment.Quiescence.{
  Expected, identity_agrees, services_agree, texts_of, validate_quiescence_receipt,
}
use haniel.Deployment.Coordinator.{
  MigrationSpec, Deployment, contract_mode, preflight_contract, json_of, with_operation, with_path,
  operation_in, path_in, contract_with, equals_text, is_true,
}
use haniel.Deployment.Execute.{
  build_label, run_database, build_phase, link_operation, preflight_with, acknowledge, write_down,
  with_receipt, operation_text, database_path, recorded_path,
}
use haniel.Deployment.Triple.{Triple, triple_if}
use haniel.Deployment.Outcome.{
  IsExternal, IsForeign, plain-IsExternal, Live, External, then-Live, lift-Live,
}
use haniel.Deployment.Retried.{run_with_retry-Live}
use haniel.Deployment.Phases.{
  L, E, build_label-IsCoded, move-Live, call-Live, link-Live, run_database-Live,
}

-- What a check of this program raises is plain.
abbrev pub Plainly : {A : Type 0} → Result A → Type 0
Plainly (ok a) = Unit
Plainly (raise e) = IsExternal e

pub plainly_external :
    {A : Type 0} (r : Result A) (e : Exn) → Plainly r → r ≡ raise e → IsExternal e
plainly_external r e p h = subst Plainly h p

with_path-Plainly : (operation : String) (path : Option String) → Plainly (with_path operation path)
with_path-Plainly operation none = plain-IsExternal _
with_path-Plainly operation (some path) = tt

with_operation-Plainly :
    (operation wanted path : Option String) → Plainly (with_operation operation wanted path)
with_operation-Plainly none wanted path = plain-IsExternal _
with_operation-Plainly (some operation) wanted path =
    elim (Bool-cases (is_some wanted && not (same (some operation) wanted))) [
      | inl h ↦ rw h (plain-IsExternal _)
      | inr h ↦ rw h (with_path-Plainly operation path)
    ]

payload-Plainly :
    (g : MigrationSpec) (wanted : Option String) (o : Option Fields)
    → Plainly (contract_with g wanted o)
payload-Plainly g wanted none = plain-IsExternal _
payload-Plainly g wanted (some payload) =
    elim (Bool-cases (
      truthy g.result_contract
      && not (equals_text (member "schema_version" payload) g.result_contract))) [
        | inl h ↦ rw h (plain-IsExternal _)
        | inr h ↦ elim (Bool-cases (is_true (member "ok" payload))) [
          | inl k ↦
              rw (h, k)
                (with_operation-Plainly (operation_in (member "operation" payload)) wanted
                  (path_in (member "journal_path" payload)))
          | inr k ↦ rw (h, k) (plain-IsExternal _)
        ]
      ]

preflight-Plainly :
    (g : MigrationSpec) (result : Option CommandResult) (wanted : Option String)
    → Plainly (preflight_contract g result wanted)
unfolding preflight_contract
preflight-Plainly g result wanted = payload-Plainly g wanted (json_of result)

pub receipt-Plainly : (x : Expected) (o : Option Fields) → Plainly (validate_quiescence_receipt x o)
unfolding validate_quiescence_receipt
receipt-Plainly x none = plain-IsExternal _
receipt-Plainly x (some receipt) =
    elim (Bool-cases (
      identity_agrees x receipt
      && services_agree x.writer_services (texts_of (member "stopped_services" receipt))
          (texts_of (member "already_stopped_services" receipt))
          (texts_of (member "quiesced_services" receipt)))) [
            | inl h ↦ rw h tt
            | inr h ↦ rw h (plain-IsExternal _)
          ]

recorded-Plainly : (o : Option String) → Plainly (recorded_path o)
recorded-Plainly none = plain-IsExternal _
recorded-Plainly (some path) = tt

path-Plainly : (o : Option Journal) → Plainly (database_path o)
path-Plainly none = plain-IsExternal _
path-Plainly (some j) = recorded-Plainly j.database_journal_path

module _ (redaction : Redaction) (w : World) (numeral : Numeral) (d : Deployment) where
  pub build_phase-Live :
      IsForeign w → Triple (L d) (build_phase redaction w numeral d) (λ _. L d) (E d)
  unfolding build_phase
  build_phase-Live foreign =
      then-Live d.repo_name (λ _. Live d.repo_name) (External d.repo_name) _ _
        (run_with_retry-Live w numeral d.repo_name build_label _ d.manifest.build_retry
          d.manifest.build_retry.total_grace build_label-IsCoded
          (call-Live redaction w numeral d built foreign))
        (λ _. move-Live redaction w numeral d (External d.repo_name) preflight none none refl)

  link_operation-Live :
      (r : String × String) → Triple (L d) (link_operation redaction w numeral d r) (λ _. L d) (E d)
  link_operation-Live (operation, path) = λ m v.
      link-Live redaction w numeral d operation path none
        (record m {
          operation = some operation;
          environment = Dict.put "HANIEL_DATABASE_OPERATION" operation m.environment;
        })
        v

  pub preflight-Live :
      (o : Option MigrationSpec)
      → IsForeign w
      → Triple (L d) (preflight_with redaction w numeral d o) (λ _. L d) (E d)
  unfolding preflight_with
  preflight-Live none foreign = λ m v. v
  preflight-Live (some g) foreign =
      then-Live d.repo_name (λ _. L d) (E d) (read_machine (λ m. m.environment)) _ (λ m v. v)
        (λ env.
          then-Live d.repo_name (λ _. L d) (E d)
            (run_database redaction w numeral d "preflight" g.preflight_command env) _
            (run_database-Live redaction w numeral d "preflight" g.preflight_command env foreign)
            (λ result.
              triple_if (L d) (λ _. L d) (E d) (contract_mode d) _ (pure tt)
                (λ _.
                  then-Live d.repo_name (λ _. L d) (E d) _ _
                    (lift-Live d.repo_name (λ m. preflight_contract g result d.expected_operation)
                      (λ m e h.
                        plainly_external _ e (preflight-Plainly g result d.expected_operation) h))
                    link_operation-Live)
                (λ _ m v. v)))

  acknowledge-Live :
      (receipt : Fields)
      → IsForeign w
      → Triple (L d) (acknowledge redaction w numeral d receipt) (λ _. L d) (E d)
  acknowledge-Live receipt foreign =
      triple_if (L d) (λ _. L d) (E d) d.has_acknowledge _ _
        (λ _. call-Live redaction w numeral d (acknowledged receipt) foreign) (λ _ m v. v)

  write_down-Live :
      (receipt : Fields) → Triple (L d) (write_down redaction w numeral d receipt) (λ _. L d) (E d)
  write_down-Live receipt m v = record {
    journal = v.journal;
    found =
        read-write_receipt redaction d.repo_name d.repo_name (obj receipt) m.store
        ∙ ap (λ b. if b then none else read m.store d.repo_name) (own_receipt d.repo_name)
        ∙ v.found;
  }

  pub with_receipt-Live :
      (o : Option Fields)
      → IsForeign w
      → Triple (L d) (with_receipt redaction w numeral d o) (λ _. L d) (E d)
  with_receipt-Live none foreign = λ m v. (plain-IsExternal _, v)
  with_receipt-Live (some receipt) foreign =
      then-Live d.repo_name (λ _. L d) (E d) (acknowledge redaction w numeral d receipt) _
        (acknowledge-Live receipt foreign)
        (λ _.
          then-Live d.repo_name (λ _. L d) (E d) (write_down redaction w numeral d receipt) _
            (write_down-Live receipt)
            (λ _.
              then-Live d.repo_name (λ _. L d) (E d) _ _
                (lift-Live d.repo_name (λ m. database_path (read m.store d.repo_name))
                  (λ m e h. plainly_external _ e (path-Plainly (read m.store d.repo_name)) h))
                (λ path.
                  then-Live d.repo_name (λ _. L d) (E d) (read_machine (λ m. m.operation)) _
                    (λ m v. v)
                    (λ operation.
                      link-Live redaction w numeral d (operation_text operation) path
                        (some (obj receipt))))))
