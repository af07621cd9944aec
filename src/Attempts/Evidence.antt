-- ===== src/Attempts/Evidence.antt =====
-- What an attempt that succeeded has to show, in the rows of `deploy_attempts`.
pub mod Sound
pub mod Closed
use haniel.Prelude.{
  ◌≡◌, refl, sym, ap, ◌∙◌, String, Bool, true, Option, none, some, List, [], ◌∷◌, ◌++◌, arith,
  Bool-cases, Option-cases, inl, inr, ◌==◌,
}
use haniel.Attempts.Table.{
  find, update, updated, find-none, find-update, find-append, find-absent, find-before,
}
use haniel.Attempts.Rows.{Outcome, Attempt, Db}
use haniel.Attempts.Support.{is_attempt, attempt_of}
use haniel.Attempts.Transitions.{set_attempts, is_ready}
use haniel.Attempts.Reports.{is_evidence_recovery}

-- What an outcome needs: the three conditions of `_finalize_normal_if_ready`, or a recovery's mode.
abbrev pub shown : Outcome → (ready recovery : Bool) → Bool
shown Outcome.success ready recovery = ready
shown Outcome.evidence_recovered_success ready recovery = recovery
shown _ ready recovery = true

unfoldable pub is_justified : Attempt → Bool
is_justified a = shown a.outcome (is_ready a) (is_evidence_recovery a.execution_mode)

abbrev pub holds_of {ℓ} : {A : Type ℓ} → (A → Bool) → Option A → Bool
holds_of q none = true
holds_of q (some a) = q a

-- Every row that can be found is justified.
pub record IsSound (db : Db) : Type 0 where
  pub justified : (k : String) → holds_of is_justified (attempt_of db k) ≡ true

-- An update whose results are justified.
pub update-IsSound :
    (p : Attempt → Bool) (g : Attempt → Attempt) (db : Db)
    → ((a : Attempt) → (g a).orchestrator_attempt_id ≡ a.orchestrator_attempt_id)
    → ((k : String) (a : Attempt)
        → attempt_of db k ≡ some a
        → p a ≡ true
        → is_justified a ≡ true
        → is_justified (g a) ≡ true)
    → IsSound db
    → IsSound (set_attempts p g db)
unfolding set_attempts attempt_of updated
update-IsSound p g db ids keep h = record {
  justified = λ k.
      let after =
        find-update p (is_attempt k) g db.deploy_attempts (λ x. ap (λ i. i == k) (ids x)) in
      let old = h.justified k in
      elim (Option-cases (find (is_attempt k) db.deploy_attempts)) [
        | inl e ↦ ap (holds_of is_justified) (after ∙ ap (updated p g) e)
        | inr (x, e) ↦
            ap (holds_of is_justified) (after ∙ ap (updated p g) e) ∙ elim (Bool-cases (p x)) [
              | inl t ↦ rw t (keep k x e t (sym (ap (holds_of is_justified) e) ∙ old))
              | inr t ↦ rw t (sym (ap (holds_of is_justified) e) ∙ old)
            ]
      ];
}

pub append-IsSound :
    (db : Db) (y : Attempt)
    → is_justified y ≡ true
    → IsSound db
    → IsSound (record db { deploy_attempts = db.deploy_attempts ++ y ∷ [] })
unfolding attempt_of
append-IsSound db y new h = record {
  justified = λ k. elim (Option-cases (find (is_attempt k) db.deploy_attempts)) [
    | inr (x, e) ↦
        ap (holds_of is_justified) (find-before (is_attempt k) db.deploy_attempts y x e ∙ sym e)
        ∙ h.justified k
    | inl e ↦ elim (Bool-cases (is_attempt k y)) [
      | inl t ↦
          ap (holds_of is_justified) (
            find-append (is_attempt k) db.deploy_attempts y
              (find-none (is_attempt k) db.deploy_attempts e) t)
          ∙ new
      | inr t ↦ ap (holds_of is_justified) (find-absent (is_attempt k) db.deploy_attempts y e t)
    ]
  ];
}
