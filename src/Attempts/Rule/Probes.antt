-- ===== src/Attempts/Rule/Probes.antt =====
-- The transactions on probes, by the proof rule.
use haniel.Prelude.{
  String, not, ◌&&◌, ◌||◌, some, List, [], ◌∷◌, ◌==◌, is_some, ltb, count, same, Bool-cases,
  Option-cases, inl, inr,
}
use haniel.Retry.Messages.{Proposal}
use haniel.Attempts.Rows.{is_pending, ProbeRow, ProbeStatus, Terminal, Db, Clock}
use haniel.Attempts.Support.{
  is_probe, event, probe_of, retry_of, is_latest, has_active_branch, close_probes,
  terminalize_probe,
}
use haniel.Attempts.Transitions.{Begin, insert_attempt}
use haniel.Attempts.Proposals.{
  NewProbe, create_probe, end_preflight, set_probe, refusal, proposal_stale_reason,
}
use haniel.Attempts.Begins.{
  is_begun, is_first, begin_proposed, record_proposal_and_begin, terminalize_preflight, end_each,
}
use haniel.Attempts.Rule.{OnReturn, OnReturn-then, IsKept, event_self}

module _ {ℓ} (P : Db → Type ℓ) (kept : IsKept P) where
  set_probe_keeps : (k : String) (f : ProbeRow → ProbeRow) (db : Db) → P db → P (set_probe k f db)
  unfolding set_probe
  set_probe_keeps k f db o = kept.probes _ db o

  terminalize_probe_keeps :
      (clock : Clock) (k : String) (t : Terminal) (db : Db)
      → P db
      → P (terminalize_probe clock k t db).1
  unfolding terminalize_probe close_probes
  terminalize_probe_keeps clock k t db o = kept.probes _ db o

  end_preflight_keeps :
      (clock : Clock) (k : String) (t : Terminal) (db : Db)
      → P db
      → OnReturn P (end_preflight clock k t db)
  unfolding end_preflight
  end_preflight_keeps clock k t db o = terminalize_probe_keeps clock k t db o

  pub create_probe_keeps :
      (clock : Clock) (n : NewProbe) (db : Db) → P db → OnReturn P (create_probe clock n db)
  unfolding create_probe
  create_probe_keeps clock n db o = elim (Option-cases (event db n.deploy_id)) [
    | inl e ↦ rw (e, OnReturn) tt
    | inr (x, e) ↦
        rw (e, OnReturn)
          (elim (Bool-cases (is_pending x.status)) [
            | inr u ↦ rw u tt
            | inl u ↦ rw u (elim (Bool-cases (is_latest clock db (some x))) [
              | inr l ↦ rw l tt
              | inl l ↦
                  rw l
                    (elim (Bool-cases (n.manual_retry && not (is_some (retry_of db n.deploy_id)))) [
                      | inl r ↦ rw r tt
                      | inr r ↦
                          rw r
                            (elim (Bool-cases
                              (not n.manual_retry && is_some (retry_of db n.deploy_id))) [
                                | inl c ↦ rw c tt
                                | inr c ↦
                                    rw c
                                      (elim (Bool-cases (
                                        ltb 0
                                          (count (is_probe n.probe_id) db.deploy_plan_probes))) [
                                            | inl q ↦ rw q tt
                                            | inr q ↦ rw q (kept.probes _ db o)
                                          ])
                              ])
                    ])
            ])
          ])
  ]

  begin_proposed_keeps :
      (clock : Clock) (row : ProbeRow) (p : Proposal) (b : Begin) (db : Db)
      → P db
      → OnReturn P (begin_proposed clock row p b db)
  unfolding begin_proposed
  begin_proposed_keeps clock row p b db o = elim (Option-cases (event db row.probe.deploy_id)) [
    | inl e ↦ rw (e, OnReturn) tt
    | inr (x, e) ↦
        rw (e, OnReturn)
          (elim (Bool-cases (has_active_branch db x)) [
            | inl c ↦ rw c (end_preflight_keeps clock p.probe_id _ db o)
            | inr c ↦ rw c (
                OnReturn-then P _
                  (set_probe p.probe_id (λ r. record r { status = ProbeStatus.begun }))
                  (insert_attempt clock x _ (some (row, p)) db)
                  (set_probe_keeps p.probe_id (λ r. record r { status = ProbeStatus.begun }))
                  (kept.begins clock x _ (some (row, p)) db (event_self db row.probe.deploy_id x e)
                    o))
          ])
  ]

  pub record_proposal_and_begin_keeps :
      (clock : Clock) (p : Proposal) (b : Begin) (g : String) (db : Db)
      → P db
      → OnReturn P (record_proposal_and_begin clock p b g db)
  unfolding record_proposal_and_begin
  record_proposal_and_begin_keeps clock p b g db o = elim (Option-cases (probe_of db p.probe_id)) [
    | inl e ↦ rw (e, OnReturn) o
    | inr (row, e) ↦
        rw (e, OnReturn)
          (elim (Bool-cases
            (is_begun row.status && same row.proposal_fingerprint (some p.plan.fingerprint))) [
              | inl u ↦ rw u o
              | inr u ↦ rw u (elim (Bool-cases (is_first row.status)) [
                | inr l ↦ rw l o
                | inl l ↦
                    rw l
                      (elim (Bool-cases (
                        not (p.connection_generation == row.probe.connection_generation)
                        || not (row.probe.connection_generation == g))) [
                          | inl r ↦ rw r (end_preflight_keeps clock p.probe_id _ db o)
                          | inr r ↦
                              rw r (elim (Option-cases (proposal_stale_reason clock db row p)) [
                                | inr (why, s) ↦
                                    rw (s, OnReturn) (end_preflight_keeps clock p.probe_id _ db o)
                                | inl s ↦
                                    rw (s, OnReturn)
                                      (elim (Option-cases (refusal row.probe p)) [
                                        | inr (why, s) ↦
                                            rw (s, OnReturn)
                                              (end_preflight_keeps clock p.probe_id _ _
                                                (set_probe_keeps p.probe_id _ db o))
                                        | inl s ↦
                                            rw (s, OnReturn)
                                              (begin_proposed_keeps clock row p b _
                                                (set_probe_keeps p.probe_id _ db o))
                                      ])
                              ])
                        ])
              ])
            ])
  ]

  pub terminalize_preflight_keeps :
      (clock : Clock) (k : String) (t : Terminal) (db : Db)
      → P db
      → OnReturn P (terminalize_preflight clock k t db)
  unfolding terminalize_preflight
  terminalize_preflight_keeps clock k t db o = elim (Option-cases (probe_of db k)) [
    | inl e ↦ rw (e, OnReturn) o
    | inr (row, e) ↦ rw (e, OnReturn) (terminalize_probe_keeps clock k t db o)
  ]

  pub end_each_keeps :
      (clock : Clock) (t : Terminal) (ks : List String) (db : Db)
      → P db
      → P (end_each clock t ks db).1
  unfolding end_each
  end_each_keeps clock t [] db o = o
  end_each_keeps clock t (k ∷ ks) db o =
      end_each_keeps clock t ks (terminalize_probe clock k t db).1
        (terminalize_probe_keeps clock k t db o)
