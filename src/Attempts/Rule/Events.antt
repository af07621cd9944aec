-- ===== src/Attempts/Rule/Events.antt =====
-- The transactions on deploys, by the proof rule.
use haniel.Prelude.{
  refl, String, List, [], ◌∷◌, ◌++◌, arith, ltb, count, Bool-cases, Option-cases, inl, inr,
}
use haniel.Attempts.Rows.{is_pending, Db, Clock}
use haniel.Attempts.Support.{has_id, latest_id, close_probes}
use haniel.Attempts.Transitions.{move_event}
use haniel.Attempts.Events.{
  Change, new_event, each, supersede, reject_event, cleanup_retry_rows, create_deploy_event,
  resolve_observed_pending, supersede_pending_for_branch, reject_pending_deploys_for_nodes,
}
use haniel.Attempts.Rule.{OnReturn, IsKept}

module _ {ℓ} (P : Db → Type ℓ) (kept : IsKept P) where
  each_keeps :
      (f : String → Db → Db) (ds : List String) (db : Db)
      → ((d : String) (x : Db) → P x → P (f d x))
      → P db
      → P (each f ds db)
  unfolding each
  each_keeps f [] db keep o = o
  each_keeps f (d ∷ ds) db keep o = each_keeps f ds (f d db) keep (keep d db o)

  reject_event_keeps :
      (clock : Clock) (reason d : String) (db : Db)
      → P db
      → P (reject_event clock is_pending reason d db)
  unfolding reject_event move_event
  reject_event_keeps clock reason d db o =
      kept.closes _ _ db (λ e. refl) (λ e h. ground (arith, h)) (λ e. refl) o

  supersede_keeps :
      (clock : Clock) (latest d : String) (db : Db) → P db → P (supersede clock latest d db)
  unfolding supersede close_probes
  supersede_keeps clock latest d db o =
      kept.probes _ _ (kept.cleans d _ (reject_event_keeps clock _ d db o))

  cleanup_retry_rows_keeps :
      (clock : Clock) (ds : List String) (db : Db) → P db → P (cleanup_retry_rows clock ds db)
  unfolding cleanup_retry_rows close_probes
  cleanup_retry_rows_keeps clock ds db o =
      each_keeps _ ds db (λ d x h. kept.probes _ _ (kept.cleans d x h)) o

  pub create_deploy_event_keeps :
      (clock : Clock) (c : Change) (db : Db) → P db → OnReturn P (create_deploy_event clock c db)
  unfolding create_deploy_event
  create_deploy_event_keeps clock c db o =
      let inserted : Db = record db {
        deploy_events = db.deploy_events ++ new_event clock.now_iso c ∷ [];
      } in
      elim (Bool-cases (ltb 0 (count (has_id c.deploy_id) db.deploy_events))) [
        | inl t ↦ rw t o
        | inr t ↦ rw t (elim (Option-cases (latest_id clock inserted c.node_id c.repo c.branch)) [
          | inl e ↦ rw (e, OnReturn) tt
          | inr (latest, e) ↦
              rw (e, OnReturn)
                (each_keeps (supersede clock latest) _ inserted (supersede_keeps clock latest)
                  (kept.creates clock c db (ground (arith, t)) o))
        ])
      ]

  pub resolve_observed_pending_keeps :
      (clock : Clock) (d n r b local remote : String) (db : Db)
      → P db
      → OnReturn P (resolve_observed_pending clock d n r b local remote db)
  unfolding resolve_observed_pending
  resolve_observed_pending_keeps clock d n r b local remote db o =
      kept.closes _ _ db (λ e. refl) (λ e h. ground (arith, h)) (λ e. refl) o

  pub supersede_pending_for_branch_keeps :
      (clock : Clock) (n r b : String) (db : Db)
      → P db
      → OnReturn P (supersede_pending_for_branch clock n r b db)
  unfolding supersede_pending_for_branch
  supersede_pending_for_branch_keeps clock n r b db o =
      elim (Option-cases (latest_id clock db n r b)) [
        | inl e ↦ rw (e, OnReturn) o
        | inr (latest, e) ↦
            rw (e, OnReturn)
              (cleanup_retry_rows_keeps clock _ _
                (each_keeps _ _ db (reject_event_keeps clock _) o))
      ]

  pub reject_pending_deploys_for_nodes_keeps :
      (clock : Clock) (nodes : List String) (reason : String) (db : Db)
      → P db
      → OnReturn P (reject_pending_deploys_for_nodes clock nodes reason db)
  unfolding reject_pending_deploys_for_nodes
  reject_pending_deploys_for_nodes_keeps clock nodes reason db o =
      cleanup_retry_rows_keeps clock _ _
        (kept.closes _ _ db (λ e. refl) (λ e h. ground (arith, h)) (λ e. refl) o)
