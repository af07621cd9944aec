-- ===== src/Attempts/Ownership/Begun.antt =====
-- An attempt that begins: its row, its event and its branch.
use mathlib.Core.Path.{subst}
use haniel.Prelude.{
  eq_refl, ◌≤◌, ◌≡◌, sym, ap, ◌∙◌, String, true, List, [], ◌∷◌, ◌++◌, arith, eq_iff, count, ◌==◌,
  Bool-cases, Option-cases, inl, inr,
}
use haniel.Attempts.Table.{
  find, update, both, bit, updated, find-none, find-holds, find-only, count-both,
}
use haniel.Attempts.Rows.{is_pending, is_deploying, Event, Attempt}
use haniel.Attempts.Support.{has_id, is_attempt, is_running, owns, holds_branch}
use haniel.Attempts.Ownership.{
  is_carried, runs, Owned, runs-update, event_ids-update, count-added, added_keys, other_runs,
}

begun_event :
    (f : Event → Event) (es : List Event) (d : String)
    → count (both (has_id d) (λ e. is_pending e.status)) es ≡ 1
    → count (has_id d) es ≤ 1
    → ((e : Event) → is_deploying (f e).status ≡ true)
    → is_carried (updated (both (has_id d) (λ e. is_pending e.status)) f (find (has_id d) es))
      ≡ true
unfolding is_carried updated
begun_event f es d ready one moves = elim (Option-cases (find (has_id d) es)) [
  | inl e ↦
      ground (
        arith,
        find-none (has_id d) es e,
        ready,
        count-both (has_id d) (λ e. is_pending e.status) es,
      )
  | inr (x, e) ↦ rw e (
      ground (
        arith,
        find-holds (has_id d) es x e,
        moves x,
        find-only (has_id d) (λ e. is_pending e.status) es x one e (omega (arith, ready)),
      ))
]

begun_runs :
    (f : Event → Event) (es : List Event) (d : String)
    → count (both (has_id d) (λ e. is_pending e.status)) es ≡ 1
    → count (has_id d) es ≤ 1
    → ((e : Event) → (f e).deploy_id ≡ e.deploy_id)
    → ((e : Event) → is_deploying (f e).status ≡ true)
    → runs (update (both (has_id d) (λ e. is_pending e.status)) f es) d ≡ true
begun_runs f es d ready one keeps moves =
    runs-update (both (has_id d) (λ e. is_pending e.status)) f es d keeps
    ∙ begun_event f es d ready one moves

fresh_branch :
    (attempts : List Attempt) (a : Attempt) (node repo branch : String)
    → count (holds_branch a.node_id a.repo a.branch) attempts ≡ 0
    → holds_branch node repo branch a ≡ true
    → count (holds_branch node repo branch) attempts ≡ 0
fresh_branch attempts a node repo branch free t =
    sym (
      ap (λ i. count (holds_branch i repo branch) attempts)
        ((eq_iff a.node_id node).0 (ground (arith, t))))
    ∙ (sym (
          ap (λ i. count (holds_branch a.node_id i branch) attempts)
            ((eq_iff a.repo repo).0 (ground (arith, t))))
        ∙ (sym (
              ap (λ i. count (holds_branch a.node_id a.repo i) attempts)
                ((eq_iff a.branch branch).0 (ground (arith, t))))
            ∙ free))

-- An attempt begins.
pub begin-Owned :
    (es : List Event) (attempts : List Attempt) (a : Attempt) (f : Event → Event)
    → is_running a ≡ true
    → count (is_attempt a.orchestrator_attempt_id) attempts ≡ 0
    → count (owns a.deploy_id) attempts ≡ 0
    → count (holds_branch a.node_id a.repo a.branch) attempts ≡ 0
    → count (both (has_id a.deploy_id) (λ e. is_pending e.status)) es ≡ 1
    → ((e : Event) → (f e).deploy_id ≡ e.deploy_id)
    → ((e : Event) → is_deploying (f e).status ≡ true)
    → Owned es attempts
    → Owned
        (update (both (has_id a.deploy_id) (λ e. is_pending e.status)) f es)
        (attempts ++ a ∷ [])
begin-Owned es attempts a f live new_id unowned free ready keeps moves o = record {
  attempt_ids = added_keys (λ x. x.orchestrator_attempt_id) attempts a new_id o.attempt_ids;
  event_ids = λ d. ground (
    arith,
    event_ids-update (both (has_id a.deploy_id) (λ e. is_pending e.status)) f es d keeps,
    o.event_ids d,
  );
  owners = λ d. elim (Bool-cases (a.deploy_id == d)) [
    | inl t ↦
        subst
          (λ i.
            count (owns i) (attempts ++ a ∷ [])
            ≡ bit (runs (update (both (has_id a.deploy_id) (λ e. is_pending e.status)) f es) i))
          ((eq_iff a.deploy_id d).0 t)
          (ground (
            arith,
            count-added (owns a.deploy_id) attempts a,
            unowned,
            live,
            eq_refl a.deploy_id,
            begun_runs f es a.deploy_id ready (o.event_ids a.deploy_id) keeps moves,
          ))
    | inr t ↦ ground (
      arith,
      count-added (owns d) attempts a,
      o.owners d,
      t,
      other_runs is_pending f es a.deploy_id d t keeps,
    )
  ];
  branches = λ n r b. elim (Bool-cases (holds_branch n r b a)) [
    | inl t ↦
        ground
          (arith, count-added (holds_branch n r b) attempts a, fresh_branch attempts a n r b free t)
    | inr t ↦ ground (arith, count-added (holds_branch n r b) attempts a, o.branches n r b, t)
  ];
}
