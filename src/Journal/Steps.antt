-- ===== src/Journal/Steps.antt =====
-- Every operation on the journals as writes of its own repository's file, each a change of one of four
-- kinds. The invariants of the store are proved of these steps.
pub mod Updates
use mathlib.Core.Path.{subst}
use mathlib.Core.Option
use mathlib.Core.Option.{some-injective}
use haniel.Journal.Sound.{IsLogged, last_state, last_state-append}
use mathlib.Core.List.{append-nil}
use haniel.Prelude.{
  sym, String, ◌≡◌, ◌≢◌, refl, ◌⊎◌, inl, inr, Bool, true, false, not, ◌&&◌, Option, none, some,
  List, [], ◌∷◌, ◌++◌, map, arith, All, All-append, if◌then◌else◌, ◌==◌, eq_iff, eq_refl,
  Bool-cases, Option-cases, truthy, same, is_some,
}
use haniel.Prelude.Dict
use haniel.Prelude.Dict.{get-put}
use haniel.Prelude.Json.{Json}
use haniel.Errors.{Exn}
use haniel.Errors.Codes.{is_known}
use haniel.Errors.Result.{Result, ok, raise, ◌>>=◌, OnOk, OnOk-bind}
use haniel.Journal.Record.{
  State, build, aborted, target_resolving, is_terminal, Entry, Attempt, Journal, Redaction, entry,
  redact_entry, redact_attempt, redact_journal,
}
use haniel.Journal.Path.{Store, safe_name, read, write}
use haniel.Journal.Begin.{
  Intent, inherit, intent_conflicts, is_nil, superseded, retire, resume, archive, new_attempt,
  renew, begin_with, begin,
}
use haniel.Journal.Handover.{
  Handover, intent_of, owns_request, handover_conflicts, rejoin, mark_resolving, open_handover,
  handover_with, begin_handover, bind_with, bind_handover_target, fail_with,
  fail_handover_if_current, update, is_resolving, bound_to,
}
use haniel.Journal.Updates.{
  moved, transition_with, transition, transition_code, edit, link_release_contract,
  record_database_result, interrupt_with, mark_interrupted, is_error_state,
}

-- How a write changes the journal that is there.
pub data Change : Option Journal → Journal → Type 0 where
  opens : {j' : Journal} → j'.previous_attempts ≡ [] → IsLogged j'.current → Change none j'
  renews :
      {j j' : Journal} (a : Attempt) (more : List Entry)
      → j'.previous_attempts ≡ j.previous_attempts ++ a ∷ []
      → a.history ≡ j.history ++ more
      → is_terminal a.state ≡ true
      → (IsLogged j.current → IsLogged a)
      → IsLogged j'.current
      → Change (some j) j'
  logs :
      {j j' : Journal} (e : Entry)
      → j'.previous_attempts ≡ j.previous_attempts
      → j'.history ≡ j.history ++ e ∷ []
      → e.state ≡ j'.state
      → Change (some j) j'
  edits :
      {j j' : Journal}
      → j'.previous_attempts ≡ j.previous_attempts
      → j'.history ≡ j.history
      → j'.state ≡ j.state
      → Change (some j) j'

-- The writes of one call, all to the file of `repo`.
pub data Steps (redaction : Redaction) (repo : String) (s : Store) : Store → Type 0 where
  still : Steps redaction repo s s
  writes :
      {t : Store} (j' : Journal)
      → Steps redaction repo s t
      → Change (read t repo) j'
      → Steps redaction repo s (write redaction repo j' t)

module _ (redaction : Redaction) (repo : String) where
  abbrev S : Store → Store → Type 0
  S = Steps redaction repo

  entry-state :
      (now : String) (state : State) (m : Option String)
      → (entry redaction now state m).state ≡ state
  unfolding entry
  entry-state now state m = refl

  first-IsLogged :
      (now : String) (state : State) (m : Option String)
      → last_state (entry redaction now state m ∷ []) ≡ some state
  unfolding entry
  first-IsLogged now state m = refl

  -- The journal that `read` gave takes one more entry.
  pub add_entry :
      (s : Store) (j j' : Journal) (now : String) (m : Option String)
      → read s repo ≡ some j
      → j'.previous_attempts ≡ j.previous_attempts
      → j'.history ≡ j.history ++ entry redaction now j'.state m ∷ []
      → S s (write redaction repo j' s)
  add_entry s j j' now m e same_previous more =
      writes j' still (
        rw e
          (logs (entry redaction now j'.state m) same_previous more (entry-state now j'.state m)))

  resume-Steps :
      (now id : String) (j : Journal) (i : Intent) (s : Store)
      → read s repo ≡ some j
      → OnOk (λ j'. S s (write redaction repo j' s)) (resume redaction now id j i)
  unfolding resume
  resume-Steps now id j i s r = elim (Bool-cases (j.journal_attempt_id == id)) [
    | inl e ↦ rw e (elim (Bool-cases (is_nil (intent_conflicts j.current i))) [
      | inl f ↦ rw f (add_entry s j _ now _ r refl refl)
      | inr f ↦ rw f tt
    ])
    | inr e ↦ rw e tt
  ]

  record IsRetired (j : Journal) (a : Attempt) : Type 0 where
    more : List Entry
    extended : a.history ≡ j.history ++ more
    ended : is_terminal a.state ≡ true
    kept : IsLogged j.current → IsLogged a

  retire-IsRetired : (now : String) (j : Journal) → IsRetired j (retire redaction now j)
  unfolding retire entry
  retire-IsRetired now j = elim (Bool-cases (is_terminal j.state)) [
    | inl e ↦
        rw e (record { more = []; extended = sym (append-nil j.history); ended = e; kept = λ h. h })
    | inr e ↦ rw e (record {
      more = entry redaction now aborted (some (superseded j.state)) ∷ [];
      extended = refl;
      ended = refl;
      kept = λ _. last_state-append j.history _;
    })
  ]

  renew-Steps :
      (now fresh : String) (o : Option Journal) (i : Intent) (s : Store)
      → read s repo ≡ o
      → S s (renew redaction now fresh repo o i s).1
  unfolding renew new_attempt archive
  renew-Steps now fresh none i s r =
      writes _ still (rw r (opens refl (first-IsLogged now build none)))
  renew-Steps now fresh (some j) i s r =
      let v = retire-IsRetired now j in
      writes _ still (
        rw r (
          renews (retire redaction now j) v.more refl v.extended v.ended v.kept
            (first-IsLogged now build none)))

  begin_with-Steps :
      (now fresh : String) (o : Option Journal) (i : Intent) (id : Option String) (s : Store)
      → read s repo ≡ o
      → OnOk (λ r. S s r.1) (begin_with redaction now fresh repo o i id s)
  unfolding begin_with
  begin_with-Steps now fresh (some j) i (some id) s r =
      OnOk-bind (λ j'. S s (write redaction repo j' s)) (λ (r : String × Store). S s r.1) _ _
        (resume-Steps now id j i s r) (λ j' steps. steps)
  begin_with-Steps now fresh (some j) i none s r = renew-Steps now fresh (some j) i s r
  begin_with-Steps now fresh none i id s r = renew-Steps now fresh none i s r

  pub begin-Steps :
      (now fresh : String) (i : Intent) (s : Store)
      → OnOk (λ r. S s r.1) (begin redaction now fresh repo i s)
  unfolding begin
  begin-Steps now fresh i s =
      begin_with-Steps now fresh (read s repo) (inherit (read s repo) i) i.journal_attempt_id s refl

  update-Steps :
      (f : Journal → Journal) (s t : Store)
      → ((j : Journal) → Change (some j) (f j))
      → S s t
      → S s (update redaction repo f (read t repo) t)
  update-Steps f s t changes steps = elim (Option-cases (read t repo)) [
    | inl e ↦ rw e steps
    | inr (j, e) ↦ rw e (writes (f j) steps (rw e (changes j)))
  ]

  mark_resolving-Change :
      (later : String) (h : Handover) (j : Journal)
      → Change (some j) (mark_resolving redaction later h j)
  unfolding mark_resolving
  mark_resolving-Change later h j =
      logs (entry redaction later target_resolving none) refl refl
        (entry-state later target_resolving none)

  open_handover-Steps :
      (now later fresh : String) (h : Handover) (s : Store)
      → OnOk (λ r. S s r.1) (open_handover redaction now later fresh repo h s)
  unfolding open_handover
  open_handover-Steps now later fresh h s =
      OnOk-bind (λ (r : String × Store). S s r.1) (λ (r : String × Store). S s r.1) _ _
        (begin-Steps now fresh (intent_of h) s)
        (λ r steps. update-Steps _ s r.1 (mark_resolving-Change later h) steps)

  rejoin-Steps :
      (j : Journal) (h : Handover) (s : Store)
      → read s repo ≡ some j
      → OnOk (λ r. S s r.1) (rejoin redaction repo j h s)
  unfolding rejoin
  rejoin-Steps j h s r = elim (Bool-cases (is_nil (handover_conflicts j.current h))) [
    | inl e ↦ rw e (elim (Bool-cases (not (is_some j.node_id) && is_some h.node_id)) [
      | inl f ↦ rw f (writes _ still (rw r (edits refl refl refl)))
      | inr f ↦ rw f still
    ])
    | inr e ↦ rw e tt
  ]

  pub begin_handover-Steps :
      (now later fresh : String) (h : Handover) (s : Store)
      → OnOk (λ r. S s r.1) (begin_handover redaction now later fresh repo h s)
  unfolding begin_handover handover_with
  begin_handover-Steps now later fresh h s = elim (Option-cases (read s repo)) [
    | inl e ↦ rw (e, handover_with) (open_handover-Steps now later fresh h s)
    | inr (j, e) ↦
        rw (e, handover_with)
          (elim (Bool-cases (owns_request h.request_id j)) [
            | inl f ↦ rw f (rejoin-Steps j h s e)
            | inr f ↦ rw f (open_handover-Steps now later fresh h s)
          ])
  ]
