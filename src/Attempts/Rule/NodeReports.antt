-- ===== src/Attempts/Rule/NodeReports.antt =====
-- The reports of a node's own deploys, by the proof rule.
use haniel.Prelude.{Bool-cases, Option-cases, inl, inr}
use haniel.Attempts.Table.{find, find-none}
use haniel.Attempts.Rows.{is_active, Db, Clock}
use haniel.Attempts.Support.{owns}
use haniel.Attempts.Rule.{OnReturn, IsKept}
use haniel.Attempts.NodeReports.{
  Phase, started, succeeds, fails, NodeDeployReport, is_node_attempt, canonical, identity_changed,
  is_unsettled, insert_started, close_node_attempt, record_phase, record_node_deploy_report,
}

module _ {ℓ} (P : Db → Type ℓ) (kept : IsKept P) where
  record_phase_keeps :
      (clock : Clock) (phase : Phase) (r : NodeDeployReport) (db : Db)
      → P db
      → OnReturn P (record_phase clock phase r db)
  unfolding record_phase close_node_attempt
  record_phase_keeps clock started r db o = o
  record_phase_keeps clock succeeds r db o =
      kept.node_succeeds clock r.deploy_id r.duration_ms _ (kept.node_rows _ db o)
  record_phase_keeps clock fails r db o =
      elim (Option-cases (find (owns r.deploy_id) db.deploy_attempts)) [
        | inl e ↦ rw e (
            kept.node_reopens clock r.deploy_id _
              (find-none (owns r.deploy_id) db.deploy_attempts e) (kept.node_rows _ db o))
        | inr (a, e) ↦ rw e (kept.node_rows _ db o)
      ]

  pub record_node_deploy_report_keeps :
      (clock : Clock) (r : NodeDeployReport) (db : Db)
      → P db
      → OnReturn P (record_node_deploy_report clock r db)
  unfolding record_node_deploy_report insert_started
  record_node_deploy_report_keeps clock r db o = elim (Option-cases (canonical db r)) [
    | inl e ↦ rw (e, OnReturn) o
    | inr (x, e) ↦
        rw (e, OnReturn)
          (elim (Bool-cases (is_unsettled x.status)) [
            | inr u ↦ rw u o
            | inl u ↦
                rw u
                  (elim (Option-cases
                    (find (is_node_attempt r.node_attempt_id) db.node_deploy_attempts)) [
                      | inl n ↦
                          rw (n, OnReturn)
                            (record_phase_keeps clock r.phase r _ (kept.node_rows _ db o))
                      | inr (a, n) ↦
                          rw (n, OnReturn)
                            (elim (Bool-cases (identity_changed a r)) [
                              | inl c ↦ rw c tt
                              | inr c ↦ rw c (elim (Bool-cases (is_active a.outcome)) [
                                | inr l ↦ rw l o
                                | inl l ↦ rw l (record_phase_keeps clock r.phase r db o)
                              ])
                            ])
                    ])
          ])
  ]
