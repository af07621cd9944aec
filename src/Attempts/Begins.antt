-- ===== src/Attempts/Begins.antt =====
-- `record_proposal_and_begin` and `terminalize_preflight` of
-- orch-server/src/haniel_orch/deploy_attempt_store.py, and deploy_attempt_generation_store.py.
use haniel.Prelude.{
  String, Bool, true, false, not, ◌||◌, ◌&&◌, none, some, List, [], ◌∷◌, map, same, ◌==◌,
  if◌then◌else◌,
}
use haniel.Retry.Messages.{Proposal}
use haniel.Attempts.Table.{select, both}
use haniel.Attempts.Rows.{
  is_open, ProbeStatus, ProbeRow, Terminal, Db, Clock, runtime_error, Reply, Body, returns, raises,
  ◌>>=◌,
}
use haniel.Attempts.Support.{event, probe_of, has_active_branch, terminalize_probe}
use haniel.Attempts.Transitions.{Begin, insert_attempt}
use haniel.Attempts.Reports.{terminal}
use haniel.Attempts.Proposals.{proposal_stale_reason, end_preflight, refusal, set_probe}

abbrev pub is_begun : ProbeStatus → Bool
is_begun ProbeStatus.begun = true
is_begun _ = false

abbrev pub is_first : ProbeStatus → Bool
is_first ProbeStatus.active = true
is_first _ = false

module _ (clock : Clock) where
  -- From the read of the event on, when the plan is accepted.
  unfoldable pub begin_proposed : ProbeRow → Proposal → Begin → Db → Body Reply
  begin_proposed row p b db = elim (event db row.probe.deploy_id) [
    | none ↦ raises (runtime_error "canonical disappeared")
    | some e ↦
        if has_active_branch db e
        then end_preflight clock p.probe_id
            (terminal "preflight_stale" "begin" "active_attempt_conflict"
              "another attempt owns this node, repo, and branch")
            db
        else insert_attempt clock e
            (record b {
              connection_generation = row.probe.connection_generation;
              mode = p.plan.mode;
            })
            (some (row, p)) db
          >>= λ u after.
              returns (Reply.has_begun b.orchestrator_attempt_id)
                (set_probe p.probe_id (λ r. record r { status = ProbeStatus.begun }) after)
  ]

  unfoldable pub record_proposal_and_begin :
      Proposal → Begin → (current_generation : String) → Db → Body Reply
  record_proposal_and_begin p b g db = elim (probe_of db p.probe_id) [
    | none ↦ returns (Reply.ignored_because "unknown_probe") db
    | some row ↦
        if is_begun row.status && same row.proposal_fingerprint (some p.plan.fingerprint)
        then returns Reply.duplicate_begun db
        else if not (is_first row.status)
        then returns (Reply.ignored_because "terminal_probe") db
        else if not (p.connection_generation == row.probe.connection_generation)
            || not (row.probe.connection_generation == g)
        then end_preflight clock p.probe_id
            (terminal "preflight_stale" "proposal" "connection_generation_changed"
              "proposal, stored probe, and current connection generation differ")
            db
        else elim (proposal_stale_reason clock db row p) [
          | some (reason, error) ↦
              end_preflight clock p.probe_id (terminal "preflight_stale" "proposal" reason error) db
          | none ↦
              let proposed =
                set_probe p.probe_id
                  (λ r. record r {
                    status = ProbeStatus.proposed;
                    mode = some p.plan.mode;
                    proposal_fingerprint = some p.plan.fingerprint;
                  })
                  db in
              elim (refusal row.probe p) [
                | some (reason, error) ↦
                    end_preflight clock p.probe_id
                      (terminal "preflight_fail_closed" "proposal" reason error) proposed
                | none ↦ begin_proposed row p b proposed
              ]
        ]
  ]

  unfoldable pub terminalize_preflight : String → Terminal → Db → Body Reply
  terminalize_preflight k t db = elim (probe_of db k) [
    | none ↦ returns (Reply.changed false) db
    | some row ↦ let r = terminalize_probe clock k t db in returns (Reply.changed r.0) r.1
  ]

  -- The loop over the ids that were read, and the ids of the probes it ended.
  unfoldable pub end_each : Terminal → List String → Db → List String × Db
  end_each t [] db = ([], db)
  end_each t (k ∷ ks) db =
      let r = terminalize_probe clock k t db in
      let rest = end_each t ks r.1 in (if r.0 then k ∷ rest.0 else rest.0, rest.1)

  abbrev pub ids_of : (ProbeRow → Bool) → Db → List String
  ids_of which db =
      map (λ r. r.probe.probe_id)
        (select (both which (λ r. is_open r.status)) db.deploy_plan_probes)

  unfoldable pub terminalize_generation : String → Db → Body Reply
  terminalize_generation g db =
      let r =
        end_each
          (terminal "preflight_disconnected" "connection" "node_disconnected"
            "node disconnected before begin")
          (ids_of (λ r. r.probe.connection_generation == g) db) db in
      returns (Reply.closed r.0) r.1

  unfoldable pub terminalize_prior_generations :
      (node_id current_generation : String) → Db → Body Reply
  terminalize_prior_generations node g db =
      let which =
        λ (r : ProbeRow). (r.probe.node_id == node) && not (r.probe.connection_generation == g) in
      let r =
        end_each
          (terminal "preflight_stale" "connection_registration" "connection_generation_changed"
            "a newer node connection generation replaced this probe")
          (ids_of which db) db in
      returns (Reply.closed r.0) r.1
