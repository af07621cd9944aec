-- ===== src/Journal/Steps/Updates.antt =====
-- The operations of deployment_state.py that update a live journal, as steps.
use haniel.Journal.Steps.{Steps, still, writes, edits, add_entry}
use haniel.Prelude.{
  String, ◌≡◌, refl, inl, inr, Bool, not, ◌&&◌, Option, none, some, Bool-cases, Option-cases,
  truthy, same, is_some,
}
use haniel.Prelude.Json.{Json}
use haniel.Errors.{Exn}
use haniel.Errors.Codes.{is_known}
use haniel.Errors.Result.{OnOk}
use haniel.Journal.Record.{State, is_terminal, Attempt, Journal, Redaction}
use haniel.Journal.Path.{Store, read, write}
use haniel.Journal.Handover.{
  owns_request, bind_with, bind_handover_target, fail_with, fail_handover_if_current, is_resolving,
  bound_to,
}
use haniel.Journal.Updates.{
  moved, transition_with, transition, transition_code, edit, link_release_contract,
  record_database_result, interrupt_with, mark_interrupted, is_error_state,
}

module _ (redaction : Redaction) (repo : String) where
  abbrev S : Store → Store → Type 0
  S = Steps redaction repo

  pub bind-Steps :
      (now request head release digest : String) (s : Store)
      → OnOk (S s) (bind_handover_target redaction now repo request head release digest s)
  unfolding bind_handover_target bind_with
  bind-Steps now request head release digest s = elim (Option-cases (read s repo)) [
    | inl e ↦ rw (e, bind_with) tt
    | inr (j, e) ↦
        rw (e, bind_with)
          (elim (Bool-cases (same j.request_id (some request))) [
            | inr f ↦ rw f tt
            | inl f ↦ rw f (elim (Bool-cases (is_resolving j.state)) [
              | inl g ↦ rw g (add_entry redaction repo s j _ now none e refl refl)
              | inr g ↦ rw g (elim (Bool-cases (bound_to head release digest j)) [
                | inl b ↦ rw b still
                | inr b ↦ rw b tt
              ])
            ])
          ])
  ]

  pub fail-Steps :
      (now request code message : String) (s : Store)
      → OnOk (λ r. S s r.1) (fail_handover_if_current redaction now repo request code message s)
  unfolding fail_handover_if_current fail_with
  fail-Steps now request code message s = elim (Bool-cases (is_known code)) [
    | inr k ↦ rw k tt
    | inl k ↦ rw k (elim (Option-cases (read s repo)) [
      | inl e ↦ rw (e, fail_with) still
      | inr (j, e) ↦
          rw (e, fail_with)
            (elim (Bool-cases (owns_request request j)) [
              | inr f ↦ rw f still
              | inl f ↦ rw f (add_entry redaction repo s j _ now _ e refl refl)
            ])
    ])
  ]

  moved-Steps :
      (now : String) (state : State) (m : Option String) (r : Option Bool) (c : Option String)
      (j : Journal) (s : Store)
      → read s repo ≡ some j
      → S s (write redaction repo (moved redaction now state m r c j) s)
  unfolding moved
  moved-Steps now state m r c j s e = add_entry redaction repo s j _ now m e refl refl

  pub transition-Steps :
      (now : String) (state : State) (m : Option String) (r : Option Bool) (x : Option Exn)
      (s : Store)
      → OnOk (S s) (transition redaction now repo state m r x s)
  unfolding transition transition_with
  transition-Steps now state m r x s = elim (Option-cases (read s repo)) [
    | inl e ↦ rw (e, transition_with) tt
    | inr (j, e) ↦
        rw (e, transition_with)
          (elim (Bool-cases (is_some x && not (is_error_state state))) [
            | inl f ↦ rw f tt
            | inr f ↦ rw f (elim (Bool-cases (is_error_state state && truthy m)) [
              | inr g ↦ rw g (moved-Steps now state m r none j s e)
              | inl g ↦ rw g (elim (Bool-cases (is_known (transition_code x))) [
                | inl k ↦ rw k (moved-Steps now state m r (some (transition_code x)) j s e)
                | inr k ↦ rw k tt
              ])
            ])
          ])
  ]

  edit-Steps :
      (f : Attempt → Attempt) (s : Store)
      → ((a : Attempt) → ((f a).history ≡ a.history) × ((f a).state ≡ a.state))
      → OnOk (S s) (edit redaction repo f (read s repo) s)
  unfolding edit
  edit-Steps f s same_log = elim (Option-cases (read s repo)) [
    | inl e ↦ rw (e, edit) tt
    | inr (j, e) ↦
        rw (e, edit)
          (writes _ still (rw e (edits refl (same_log j.current).0 (same_log j.current).1)))
  ]

  pub link-Steps :
      (request : Option String) (operation path : String) (receipt : Option Json) (s : Store)
      → OnOk (S s) (link_release_contract redaction repo request operation path receipt s)
  unfolding link_release_contract
  link-Steps request operation path receipt s = edit-Steps _ s (λ a. (refl, refl))

  pub record-Steps :
      (phase : String) (result : Json) (s : Store)
      → OnOk (S s) (record_database_result redaction repo phase result s)
  unfolding record_database_result
  record-Steps phase result s = edit-Steps _ s (λ a. (refl, refl))

  pub interrupt-Steps :
      (now reason : String) (s : Store) → S s (mark_interrupted redaction now repo reason s).1
  unfolding mark_interrupted interrupt_with
  interrupt-Steps now reason s = elim (Option-cases (read s repo)) [
    | inl e ↦ rw (e, interrupt_with) still
    | inr (j, e) ↦
        rw (e, interrupt_with)
          (elim (Bool-cases (is_terminal j.state)) [
            | inl f ↦ rw f still
            | inr f ↦ rw f (add_entry redaction repo s j _ now _ e refl refl)
          ])
  ]
