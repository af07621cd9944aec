-- ===== src/Attempts/Support.antt =====
-- orch-server/src/haniel_orch/deploy_attempt_store_support.py: the reads and the writes that the
-- transactions share. The reads of one row are first, then `_is_latest` and the probes.
use Prim.Native.Char.{code}
use haniel.Prelude.{
  String, Bool, true, false, not, ◌&&◌, Option, none, some, List, [], ◌∷◌, map, eqb, same, truthy,
  is_some, count, ◌==◌, if◌then◌else◌,
}
use haniel.Attempts.Table.{find, update, delete, select, both}
use haniel.Attempts.Rows.{
  Event, ProbeRow, Attempt, Requirement, SourceAttempt, Db, Clock, Terminal, ProbeStatus, is_open,
  is_active,
}

abbrev pub has_id : String → Event → Bool
has_id d e = e.deploy_id == d

abbrev pub is_attempt : String → Attempt → Bool
is_attempt k a = a.orchestrator_attempt_id == k

abbrev pub is_running : Attempt → Bool
is_running a = is_active a.outcome

-- `deploy_id = ? AND outcome = 'active'`
abbrev pub owns : String → Attempt → Bool
owns d a = is_running a && a.deploy_id == d

-- `node_id = ? AND repo = ? AND branch = ? AND outcome = 'active'`
abbrev pub holds_branch : (node repo branch : String) → Attempt → Bool
holds_branch node repo branch a =
    is_running a && (a.node_id == node && (a.repo == repo && a.branch == branch))

abbrev pub is_probe : String → ProbeRow → Bool
is_probe k p = p.probe.probe_id == k

unfoldable pub event : Db → String → Option Event
event db d = find (has_id d) db.deploy_events

unfoldable pub attempt_of : Db → String → Option Attempt
attempt_of db k = find (is_attempt k) db.deploy_attempts

unfoldable pub probe_of : Db → String → Option ProbeRow
probe_of db k = find (is_probe k) db.deploy_plan_probes

-- The condition of `_current_attempt`.
unfoldable pub if_current : (deploy_id generation : String) → Option Attempt → Option Attempt
if_current d g none = none
if_current d g (some a) =
    if not (a.deploy_id == d)
    then none
    else if not (a.connection_generation == g)
    then none
    else if is_running a
    then some a
    else none

unfoldable pub current_attempt : Db → (deploy_id id generation : String) → Option Attempt
unfolding attempt_of if_current
current_attempt db d k g = if_current d g (attempt_of db k)

unfoldable pub has_active_branch : Db → Event → Bool
has_active_branch db e = is_some (find (holds_branch e.node_id e.repo e.branch) db.deploy_attempts)

-- `ORDER BY added_at`: a row before the first that was added later; of rows of one time, the one
-- that was inserted first comes first.
unfoldable pub insert_by_time : Clock → SourceAttempt → List SourceAttempt → List SourceAttempt
insert_by_time clock x [] = x ∷ []
insert_by_time clock x (y ∷ ys) =
    let later = insert_by_time clock x ys in
    if clock.above x.added_at y.added_at then y ∷ later else x ∷ y ∷ ys

unfoldable pub by_time : Clock → List SourceAttempt → List SourceAttempt
unfolding insert_by_time
by_time clock [] = []
by_time clock (x ∷ xs) = insert_by_time clock x (by_time clock xs)

-- `retry["lineage"]`
unfoldable pub lineage_of : Clock → Db → String → List String
unfolding by_time
lineage_of clock db d =
    map (λ s. s.lineage_orchestrator_attempt_id)
      (by_time clock (select (λ s. s.deploy_id == d) db.deploy_retry_source_attempts))

abbrev pub requires : String → Requirement → Bool
requires d r = r.deploy_id == d

unfoldable pub retry_of : Db → String → Option Requirement
retry_of db d = find (requires d) db.deploy_retry_requirements

module _ (clock : Clock) where
  -- `ORDER BY detected_at DESC, created_at DESC, deploy_id DESC`: `a` comes before `b`.
  unfoldable pub precedes : Event → Event → Bool
  precedes a b =
      if clock.above a.detected_at b.detected_at
      then true
      else if clock.above b.detected_at a.detected_at
      then false
      else if clock.above a.created_at b.created_at
      then true
      else if clock.above b.created_at a.created_at
      then false
      else clock.above a.deploy_id b.deploy_id

  -- The first row of that order.
  unfoldable pub first_of : Event → List Event → Event
  first_of best [] = best
  first_of best (e ∷ es) = first_of (if precedes e best then e else best) es

  abbrev pub is_canonical_of : (node repo branch : String) → Event → Bool
  is_canonical_of node repo branch e =
      (e.node_id == node && (e.repo == repo && e.branch == branch))
      && not (clock.is_attempt_id e.deploy_id)

  abbrev first_id : List Event → Option String
  first_id [] = none
  first_id (e ∷ es) = some (first_of e es).deploy_id

  unfoldable pub latest_id : Db → (node repo branch : String) → Option String
  latest_id db node repo branch =
      first_id (select (is_canonical_of node repo branch) db.deploy_events)

  unfoldable pub is_latest : Db → Option Event → Bool
  unfolding latest_id
  is_latest db none = false
  is_latest db (some e) = same (latest_id db e.node_id e.repo e.branch) (some e.deploy_id)

  -- `UPDATE deploy_plan_probes SET status = 'terminal', … WHERE … AND status IN ('active','proposed')`
  unfoldable pub close_probes : (ProbeRow → Bool) → Terminal → Db → Db
  close_probes which t db = record db {
    deploy_plan_probes =
        update (both which (λ p. is_open p.status))
          (λ p. record p {
            status = ProbeStatus.terminal;
            ended = some t;
            completed_at = some clock.now_iso;
          })
          db.deploy_plan_probes;
  }

  unfoldable pub terminalize_sibling_probes : String → (error : String) → Db → Db
  unfolding close_probes
  terminalize_sibling_probes d error db =
      close_probes (λ p. p.probe.deploy_id == d)
        (record {
          kind = "preflight_stale";
          stage = "attempt_terminal";
          reason = "attempt_lineage_changed";
          message = error;
        })
        db

  -- With the truth of `rowcount == 1`.
  unfoldable pub terminalize_probe : String → Terminal → Db → Bool × Db
  unfolding close_probes
  terminalize_probe k t db = (
    eqb (count (both (is_probe k) (λ p. is_open p.status)) db.deploy_plan_probes) 1,
    close_probes (is_probe k) t db,
  )

unfoldable pub cleanup_retry : String → Db → Db
cleanup_retry d db = record db {
  deploy_retry_requirements = delete (requires d) db.deploy_retry_requirements;
  deploy_retry_source_attempts = delete (λ s. s.deploy_id == d) db.deploy_retry_source_attempts;
}

-- `text.rsplit(":", 1)[-1]`: the text after the last colon.
unfoldable pub after_colon : String → String → String
after_colon best String.[] = best
after_colon best (String.◌∷◌ c s) = after_colon (if eqb (code c) 58 then s else best) s

unfoldable pub last_part : String → String
unfolding after_colon
last_part s = after_colon s s

-- `target_head or deploy_id.rsplit(":", 1)[-1]`
unfoldable pub head_or_last_part : Option String → String → String
unfolding last_part
head_or_last_part none id = last_part id
head_or_last_part (some h) id = if truthy (some h) then h else last_part id
