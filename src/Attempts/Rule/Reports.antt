-- ===== src/Attempts/Rule/Reports.antt =====
-- The transactions on a running attempt, by the proof rule.
use haniel.Prelude.{
  ℕ, ◌≡◌, refl, String, not, ◌||◌, Option, none, some, ◌==◌, is_some, Bool-cases, Option-cases,
  List-cases, inl, inr,
}
use haniel.Retry.Messages.{Mode}
use haniel.Attempts.Rows.{is_pending, Terminal, Attempt, Db, Clock}
use haniel.Attempts.Support.{
  is_running, event, attempt_of, current_attempt, retry_of, is_latest, has_active_branch,
}
use haniel.Attempts.Transitions.{Begin, insert_attempt, is_ready, finalize_normal_if_ready}
use haniel.Attempts.Reports.{
  RecoveryEvidence, is_execute, is_evidence_recovery, evidence_mismatches, write_result,
  write_settled, begin_normal_attempt, record_result, record_settled, record_recovery_evidence,
  fail_active_attempt, record_node_terminal, fail_attempt_if_deadline_due, renew_active_attempt,
}
use haniel.Attempts.Rule.{
  OnReturn, OnReturn-then, IsSnapshot, IsKept, attempt_of-IsSnapshot, attempt_of_self,
  set_attempts-IsSnapshot, reported-IsSnapshot, current_attempt-IsCurrent, event_self,
}

write_result-IsSnapshot :
    (k status : String) (error : Option String) (n m : Option ℕ) (db : Db) (a : Attempt)
    → IsSnapshot db a
    → IsSnapshot (write_result k status error n db) (record a { duration_ms = m })
unfolding write_result
write_result-IsSnapshot k status error n m db a h =
    set_attempts-IsSnapshot _ _ db (record a { duration_ms = m }) (λ x. refl) (λ x. refl)
      (record { row = h.row; found = h.found; of = h.of })

module _ {ℓ} (P : Db → Type ℓ) (kept : IsKept P) where
  finalize_keeps :
      (clock : Clock) (b : Attempt) (k : String) (db : Db)
      → attempt_of db k ≡ some b
      → P db
      → P (finalize_normal_if_ready clock b db).1
  unfolding finalize_normal_if_ready
  finalize_keeps clock b k db x o = elim (Bool-cases (is_ready b)) [
    | inl t ↦ rw t (kept.completes clock b db (attempt_of_self db k b x) t o)
    | inr t ↦ rw t o
  ]

  pub begin_normal_attempt_keeps :
      (clock : Clock) (d : String) (b : Begin) (g : String) (db : Db)
      → P db
      → OnReturn P (begin_normal_attempt clock d b g db)
  unfolding begin_normal_attempt
  begin_normal_attempt_keeps clock d b g db o = elim (Bool-cases (b.connection_generation == g)) [
    | inr t ↦ rw t tt
    | inl t ↦ rw t (elim (Option-cases (event db d)) [
      | inl e ↦ rw e tt
      | inr (x, e) ↦ rw e (elim (Bool-cases (is_pending x.status)) [
        | inr u ↦ rw u tt
        | inl u ↦ rw u (elim (Bool-cases (is_latest clock db (some x))) [
          | inr l ↦ rw l tt
          | inl l ↦ rw l (elim (Bool-cases (is_some (retry_of db d))) [
            | inl r ↦ rw r tt
            | inr r ↦ rw r (elim (Bool-cases (has_active_branch db x)) [
              | inl c ↦ rw c tt
              | inr c ↦ rw c (
                  OnReturn-then P _ (λ x. x)
                    (insert_attempt clock x (record b { mode = Mode.execute }) none db) (λ x h. h)
                    (kept.begins clock x (record b { mode = Mode.execute }) none db
                      (event_self db d x e) o))
            ])
          ])
        ])
      ])
    ])
  ]

  pub record_result_keeps :
      (clock : Clock) (d k g status : String) (error : Option String) (n : Option ℕ) (db : Db)
      → P db
      → OnReturn P (record_result clock d k g status error n db)
  unfolding record_result
  record_result_keeps clock d k g status error n db o =
      elim (Option-cases (current_attempt db d k g)) [
        | inl e ↦ rw (e, OnReturn) o
        | inr (a, e) ↦
            let c = current_attempt-IsCurrent db d k g a e in
            rw (e, OnReturn)
              (elim (Bool-cases (is_execute a.execution_mode)) [
                | inr m ↦ rw m (kept.fails clock a _ db (reported-IsSnapshot db d k g a e) o)
                | inl m ↦ rw m (elim (Bool-cases (status == "failed")) [
                  | inl f ↦ rw f (
                      kept.fails clock _ _ _
                        (write_result-IsSnapshot k status error n n db a
                          (reported-IsSnapshot db d k g a e))
                        (kept.reports k status error n a db c.stored c.running o))
                  | inr f ↦
                      rw f
                        (elim (Option-cases (attempt_of (write_result k "success" none n db) k)) [
                          | inl x ↦ rw (x, OnReturn) o
                          | inr (b, x) ↦
                              rw (x, OnReturn)
                                (finalize_keeps clock b k _ x
                                  (kept.reports k "success" none n a db c.stored c.running o))
                        ])
                ])
              ])
      ]

  pub record_settled_keeps :
      (clock : Clock) (d k g local remote : String) (db : Db)
      → P db
      → OnReturn P (record_settled clock d k g local remote db)
  unfolding record_settled
  record_settled_keeps clock d k g local remote db o =
      elim (Option-cases (current_attempt db d k g)) [
        | inl e ↦ rw (e, OnReturn) o
        | inr (a, e) ↦
            let c = current_attempt-IsCurrent db d k g a e in
            let w = kept.settles clock k local remote a db c.stored c.running o in
            rw (e, OnReturn)
              (elim (Option-cases (attempt_of (write_settled clock k local remote db) k)) [
                | inl x ↦ rw (x, OnReturn) o
                | inr (b, x) ↦
                    rw (x, OnReturn)
                      (elim (Bool-cases (is_execute b.execution_mode)) [
                        | inr m ↦ rw m w
                        | inl m ↦
                            rw m
                              (elim (Bool-cases
                                (not (local == remote) || not (local == b.target_head))) [
                                  | inl f ↦
                                      rw f
                                        (kept.fails clock b _ _ (attempt_of-IsSnapshot _ k b x) w)
                                  | inr f ↦ rw f (finalize_keeps clock b k _ x w)
                                ])
                      ])
              ])
      ]

  pub record_recovery_evidence_keeps :
      (clock : Clock) (v : RecoveryEvidence) (db : Db)
      → P db
      → OnReturn P (record_recovery_evidence clock v db)
  unfolding record_recovery_evidence
  record_recovery_evidence_keeps clock v db o =
      elim (Option-cases
        (current_attempt db v.deploy_id v.orchestrator_attempt_id v.connection_generation)) [
          | inl e ↦ rw (e, OnReturn) o
          | inr (a, e) ↦
              let h =
                reported-IsSnapshot db v.deploy_id v.orchestrator_attempt_id v.connection_generation
                  a e in
              rw (e, OnReturn)
                (elim (Bool-cases (is_evidence_recovery a.execution_mode)) [
                  | inr m ↦ rw m (kept.fails clock a _ db h o)
                  | inl m ↦ rw m (elim (List-cases (evidence_mismatches clock db a v)) [
                    | inl x ↦
                        rw (x, OnReturn)
                          (kept.recovers clock a v db
                            (attempt_of_self db v.orchestrator_attempt_id a
                              (current_attempt-IsCurrent db _ _ _ a e).stored)
                            m x o)
                    | inr (n, ns, x) ↦ rw (x, OnReturn) (kept.fails clock a _ db h o)
                  ])
                ])
        ]

  pub fail_active_attempt_keeps :
      (clock : Clock) (k : String) (t : Terminal) (db : Db)
      → P db
      → OnReturn P (fail_active_attempt clock k t db)
  unfolding fail_active_attempt
  fail_active_attempt_keeps clock k t db o = elim (Option-cases (attempt_of db k)) [
    | inl e ↦ rw (e, OnReturn) o
    | inr (a, e) ↦
        rw (e, OnReturn)
          (elim (Bool-cases (is_running a)) [
            | inr m ↦ rw m o
            | inl m ↦ rw m (kept.fails clock a t db (attempt_of-IsSnapshot db k a e) o)
          ])
  ]

  pub record_node_terminal_keeps :
      (clock : Clock) (d k g : String) (t : Terminal) (db : Db)
      → P db
      → OnReturn P (record_node_terminal clock d k g t db)
  unfolding record_node_terminal
  record_node_terminal_keeps clock d k g t db o = elim (Option-cases (current_attempt db d k g)) [
    | inl e ↦ rw (e, OnReturn) o
    | inr (a, e) ↦ rw (e, OnReturn) (kept.fails clock a t db (reported-IsSnapshot db d k g a e) o)
  ]

  pub fail_attempt_if_deadline_due_keeps :
      (clock : Clock) (k expected : String) (t : Terminal) (db : Db)
      → P db
      → OnReturn P (fail_attempt_if_deadline_due clock k expected t db)
  unfolding fail_attempt_if_deadline_due
  fail_attempt_if_deadline_due_keeps clock k expected t db o =
      elim (Option-cases (attempt_of db k)) [
        | inl e ↦ rw (e, OnReturn) o
        | inr (a, e) ↦
            rw (e, OnReturn)
              (elim (Bool-cases (is_running a)) [
                | inr m ↦ rw m o
                | inl m ↦
                    rw m
                      (elim (Bool-cases
                        (not (a.deadline_at == expected) || not (clock.expired a.deadline_at))) [
                          | inl f ↦ rw f o
                          | inr f ↦
                              rw f (kept.fails clock a t db (attempt_of-IsSnapshot db k a e) o)
                        ])
              ])
      ]

  pub renew_active_attempt_keeps :
      (d k g : String) (n : Option ℕ) (at : String) (db : Db)
      → P db
      → OnReturn P (renew_active_attempt d k g n at db)
  unfolding renew_active_attempt
  renew_active_attempt_keeps d k g n at db o = elim (Option-cases (current_attempt db d k g)) [
    | inl e ↦ rw (e, OnReturn) o
    | inr (a, e) ↦ rw (e, OnReturn) (kept.renews k at _ db o)
  ]
