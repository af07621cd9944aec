-- ===== src/Attempts/Ownership/Ended.antt =====
-- Attempts that end, and events that are opened again, in `deploy_attempts` and `deploy_events`.
use mathlib.Core.Path.{subst}
use haniel.Prelude.{
  eq_refl, ◌≤◌, ◌≡◌, refl, sym, ap, ◌∙◌, String, Bool, true, false, Option, none, some, List, arith,
  eq_iff, count, ◌==◌, Bool-cases, inl, inr,
}
use haniel.Attempts.Table.{
  find, update, both, bit, updated, find-holds, find-both, count-both, count-update,
  count-untouched, count-cleared, count-emptied, count-apart,
}
use haniel.Attempts.Rows.{Status, is_deploying, Event, Attempt}
use haniel.Attempts.Support.{has_id, is_attempt, is_running, owns, holds_branch}
use haniel.Attempts.Ownership.{is_carried, runs, Owned, runs-update, event_ids-update, other_runs}

ended_event :
    (st : Status → Bool) (f : Event → Event) (d : String) (o : Option Event)
    → ((x : Event) → o ≡ some x → has_id d x ≡ true)
    → ((e : Event) → is_deploying e.status ≡ true → st e.status ≡ true)
    → ((e : Event) → is_deploying (f e).status ≡ false)
    → is_carried (updated (both (has_id d) (λ e. st e.status)) f o) ≡ false
unfolding is_carried updated
ended_event st f d none has covers moves = refl
ended_event st f d (some x) has covers moves = ground (arith, has x refl, covers x, moves x)

ended_runs :
    (st : Status → Bool) (f : Event → Event) (es : List Event) (d : String)
    → ((e : Event) → (f e).deploy_id ≡ e.deploy_id)
    → ((e : Event) → is_deploying e.status ≡ true → st e.status ≡ true)
    → ((e : Event) → is_deploying (f e).status ≡ false)
    → runs (update (both (has_id d) (λ e. st e.status)) f es) d ≡ false
ended_runs st f es d keeps covers moves =
    runs-update (both (has_id d) (λ e. st e.status)) f es d keeps
    ∙ ended_event st f d (find (has_id d) es) (find-holds (has_id d) es) covers moves

-- An attempt ends, and its event leaves `deploying`.
pub end-Owned :
    (es : List Event) (attempts : List Attempt) (k d0 : String) (s : Attempt) (st : Status → Bool)
    (f : Event → Event) (g : Attempt → Attempt)
    → find (is_attempt k) attempts ≡ some s
    → s.deploy_id ≡ d0
    → is_running s ≡ true
    → ((a : Attempt) → (g a).orchestrator_attempt_id ≡ a.orchestrator_attempt_id)
    → ((a : Attempt) → is_running (g a) ≡ false)
    → ((e : Event) → (f e).deploy_id ≡ e.deploy_id)
    → ((e : Event) → is_deploying e.status ≡ true → st e.status ≡ true)
    → ((e : Event) → is_deploying (f e).status ≡ false)
    → Owned es attempts
    → Owned
        (update (both (has_id d0) (λ e. st e.status)) f es)
        (update (both (is_attempt k) is_running) g attempts)
end-Owned es attempts k d0 s st f g found of live same_id closes keeps covers moves o =
    let mine = both (is_attempt k) is_running in
    let one : count mine attempts ≤ 1 =
      omega (arith, count-both (is_attempt k) is_running attempts, o.attempt_ids k) in
    let it = find-both (is_attempt k) is_running attempts s found live in
    record {
      attempt_ids = λ j. ground (
        arith,
        o.attempt_ids j,
        count-untouched mine (is_attempt j) g attempts (λ a. ap (λ i. i == j) (same_id a)),
      );
      event_ids = λ d. ground (
        arith,
        o.event_ids d,
        event_ids-update (both (has_id d0) (λ e. st e.status)) f es d keeps,
      );
      owners = λ d. elim (Bool-cases (d0 == d)) [
        | inl t ↦
            subst
              (λ i.
                count (owns i) (update mine g attempts)
                ≡ bit (runs (update (both (has_id d0) (λ e. st e.status)) f es) i))
              ((eq_iff d0 d).0 t)
              (ground (
                arith,
                count-update mine (owns d0) g attempts s one it,
                closes s,
                live,
                ap (λ i. i == d0) of,
                eq_refl d0,
                o.owners d0,
                ended_runs st f es d0 keeps covers moves,
              ))
        | inr t ↦ ground (
          arith,
          count-update mine (owns d) g attempts s one it,
          closes s,
          o.owners d,
          t,
          ap (λ i. i == d) of,
          other_runs st f es d0 d t keeps,
        )
      ];
      branches = λ n r b. ground (
        arith,
        count-update mine (holds_branch n r b) g attempts s one it,
        closes s,
        o.branches n r b,
      );
    }

apart : (d0 d : String) (a : Attempt) → (d0 == d) ≡ false → owns d0 a ≡ true → owns d a ≡ false
apart d0 d a ne h = ground (arith, eq_iff a.deploy_id d0, eq_iff a.deploy_id d, eq_iff d0 d)

-- The active attempts of a deploy end at once, and its event leaves `deploying`.
pub clear-Owned :
    (es : List Event) (attempts : List Attempt) (d0 : String) (st : Status → Bool)
    (f : Event → Event) (g : Attempt → Attempt)
    → ((a : Attempt) → (g a).orchestrator_attempt_id ≡ a.orchestrator_attempt_id)
    → ((a : Attempt) → is_running (g a) ≡ false)
    → ((e : Event) → (f e).deploy_id ≡ e.deploy_id)
    → ((e : Event) → is_deploying e.status ≡ true → st e.status ≡ true)
    → ((e : Event) → is_deploying (f e).status ≡ false)
    → Owned es attempts
    → Owned (update (both (has_id d0) (λ e. st e.status)) f es) (update (owns d0) g attempts)
clear-Owned es attempts d0 st f g same_id closes keeps covers moves o = record {
  attempt_ids = λ j. ground (
    arith,
    o.attempt_ids j,
    count-untouched (owns d0) (is_attempt j) g attempts (λ a. ap (λ i. i == j) (same_id a)),
  );
  event_ids = λ d.
      ground
        (arith, o.event_ids d, event_ids-update (both (has_id d0) (λ e. st e.status)) f es d keeps);
  owners = λ d. elim (Bool-cases (d0 == d)) [
    | inl t ↦
        subst
          (λ i.
            count (owns i) (update (owns d0) g attempts)
            ≡ bit (runs (update (both (has_id d0) (λ e. st e.status)) f es) i))
          ((eq_iff d0 d).0 t)
          (count-emptied (owns d0) g attempts (λ a. ground (arith, closes a))
            ∙ sym (ap bit (ended_runs st f es d0 keeps covers moves)))
    | inr t ↦
        count-apart (owns d0) (owns d) g attempts (λ a. ground (arith, closes a))
          (λ a h. apart d0 d a t h)
        ∙ (o.owners d ∙ sym (ap bit (other_runs st f es d0 d t keeps)))
  ];
  branches = λ n r b. ground (
    arith,
    o.branches n r b,
    count-cleared (owns d0) (holds_branch n r b) g attempts (λ a. ground (arith, closes a)),
  );
}

-- A reopening that finds no deploying event.
pub reopen-Owned :
    (es : List Event) (attempts : List Attempt) (d0 : String) (st : Status → Bool)
    (f : Event → Event)
    → count (owns d0) attempts ≡ 0
    → ((e : Event) → (f e).deploy_id ≡ e.deploy_id)
    → ((e : Event) → is_deploying e.status ≡ true → st e.status ≡ true)
    → ((e : Event) → is_deploying (f e).status ≡ false)
    → Owned es attempts
    → Owned (update (both (has_id d0) (λ e. st e.status)) f es) attempts
reopen-Owned es attempts d0 st f none_here keeps covers moves o = record {
  attempt_ids = o.attempt_ids;
  event_ids = λ d.
      ground
        (arith, o.event_ids d, event_ids-update (both (has_id d0) (λ e. st e.status)) f es d keeps);
  owners = λ d. elim (Bool-cases (d0 == d)) [
    | inl t ↦
        subst
          (λ i.
            count (owns i) attempts
            ≡ bit (runs (update (both (has_id d0) (λ e. st e.status)) f es) i))
          ((eq_iff d0 d).0 t) (none_here ∙ sym (ap bit (ended_runs st f es d0 keeps covers moves)))
    | inr t ↦ o.owners d ∙ sym (ap bit (other_runs st f es d0 d t keeps))
  ];
  branches = o.branches;
}
