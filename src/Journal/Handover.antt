-- ===== src/Journal/Handover.antt =====
-- `begin_handover`, `bind_handover_target` and `fail_handover_if_current` of
-- src/haniel/core/deployment_state.py.
use Prim.Native.String.{◌++◌ as append}
use haniel.Prelude.{
  String, Bool, true, false, not, ◌&&◌, Option, none, some, List, [], ◌∷◌, ◌++◌, same, is_some,
  ◌==◌, if◌then◌else◌,
}
use haniel.Errors.{plain_error}
use haniel.Errors.Codes.{is_known}
use haniel.Errors.Result.{Result, ok, raise, ◌>>=◌}
use haniel.Journal.Record.{
  State, target_resolving, staging_probed, failed, is_terminal, Attempt, Journal, Redaction, entry,
}
use haniel.Journal.Path.{Store, read, write}
use haniel.Journal.Begin.{Intent, unless, is_nil, link_agrees, begin}

-- The arguments of `begin_handover` behind the repository's name.
pub record Handover : Type 0 where
  pub previous_head : String
  pub target_ref : String
  pub manifest_identity : String
  pub request_id : String
  pub expected_operation : String
  pub branch : String
  pub node_id : Option String
  pub config_digest : Option String

abbrev pub intent_of : Handover → Intent
intent_of h = record {
  previous_head = h.previous_head;
  target_head = h.target_ref;
  release_id = "handover-target-pending";
  orchestrator_attempt_id = none;
  node_id = h.node_id;
  branch = some h.branch;
  manifest_identity = some h.manifest_identity;
  manifest_digest = none;
  journal_attempt_id = none;
  request_id = some h.request_id;
  expected_operation = some h.expected_operation;
  config_digest = h.config_digest;
}

-- Whether the journal is the live one of this request.
abbrev pub owns_request : String → Journal → Bool
owns_request request j = same j.request_id (some request) && not (is_terminal j.state)

unfoldable pub handover_conflicts : Attempt → Handover → List String
handover_conflicts a h = unless (a.previous_head == h.previous_head) "previous_head" (
    unless (same a.manifest_identity (some h.manifest_identity)) "manifest_identity" (
      unless (same a.expected_operation (some h.expected_operation)) "expected_operation" (
        unless (same a.target_ref (some h.target_ref)) "target_ref" (
          unless (same a.branch (some h.branch)) "branch" (
            unless (same a.config_digest h.config_digest) "config_digest"
              (unless (link_agrees a.node_id h.node_id) "node_id" []))))))

abbrev pub is_resolving : State → Bool
is_resolving target_resolving = true
is_resolving _ = false

abbrev pub bound_to : (target_head release_id manifest_digest : String) → Journal → Bool
bound_to head release digest j =
    j.target_head == head && (j.release_id == release && same j.manifest_digest (some digest))

module _ (redaction : Redaction) where
  -- The branch for a request that is under way already.
  unfoldable pub rejoin : String → Journal → Handover → Store → Result (String × Store)
  rejoin repo j h s =
      if not (is_nil (handover_conflicts j.current h))
      then raise (plain_error "handover request changed immutable fields")
      else ok (
        j.journal_attempt_id,
        (if not (is_some j.node_id) && is_some h.node_id
            then write redaction repo
                (record j { current = record j.current { node_id = h.node_id } }) s
            else s),
      )

  -- After `begin`: the read back journal takes the reference that is to be resolved.
  unfoldable pub mark_resolving : (now : String) → Handover → Journal → Journal
  mark_resolving now h j = record j {
    current = record j.current {
      target_ref = some h.target_ref;
      state = target_resolving;
      history = j.history ++ entry redaction now target_resolving none ∷ [];
    };
  }

  abbrev pub update : String → (Journal → Journal) → Option Journal → Store → Store
  update repo f none s = s
  update repo f (some j) s = write redaction repo (f j) s

  unfoldable pub open_handover :
      (now later fresh repo : String) → Handover → Store → Result (String × Store)
  open_handover now later fresh repo h s = do
    (id, s') ← begin redaction now fresh repo (intent_of h) s
    ok (id, update repo (mark_resolving later h) (read s' repo) s')

  -- The two branches of `begin_handover`, over the journal that was read.
  unfoldable pub handover_with :
      (now later fresh repo : String) → Handover → Option Journal → Store → Result (String × Store)
  handover_with now later fresh repo h none s = open_handover now later fresh repo h s
  handover_with now later fresh repo h (some j) s =
      if owns_request h.request_id j
      then rejoin repo j h s
      else open_handover now later fresh repo h s

  unfoldable pub begin_handover :
      (now later fresh repo : String) → Handover → Store → Result (String × Store)
  begin_handover now later fresh repo h s = handover_with now later fresh repo h (read s repo) s

  unfoldable pub bind_with :
      (now repo request target_head release_id manifest_digest : String)
      → Option Journal
      → Store
      → Result Store
  bind_with now repo request head release digest none s =
      raise (plain_error "handover journal request identity mismatch")
  bind_with now repo request head release digest (some j) s =
      if not (same j.request_id (some request))
      then raise (plain_error "handover journal request identity mismatch")
      else if not (is_resolving j.state)
      then (if bound_to head release digest j
          then ok s
          else raise (plain_error "staged target changed committed identity"))
      else ok (
          write redaction repo
            (record j {
              current = record j.current {
                target_head = head;
                release_id = release;
                manifest_digest = some digest;
                state = staging_probed;
                history = j.history ++ entry redaction now staging_probed none ∷ [];
              };
            })
            s)

  unfoldable pub bind_handover_target :
      (now repo request target_head release_id manifest_digest : String) → Store → Result Store
  bind_handover_target now repo request head release digest s =
      bind_with now repo request head release digest (read s repo) s

  unfoldable pub fail_with :
      (now repo request error_code message : String) → Option Journal → Store → Bool × Store
  fail_with now repo request error_code message none s = (false, s)
  fail_with now repo request error_code message (some j) s =
      if not (owns_request request j) then (false, s) else (
        true,
        write redaction repo
            (record j {
              current = record j.current {
                state = failed;
                error_code = some error_code;
                error = some (redaction.bounded message);
                completed_at = some now;
                history =
                    j.history
                    ++ entry redaction now failed
                        (some (append (append error_code ": ") (redaction.bounded message)))
                      ∷ [];
              };
            })
            s,
      )

  unfoldable pub fail_handover_if_current :
      (now repo request error_code message : String) → Store → Result (Bool × Store)
  fail_handover_if_current now repo request error_code message s =
      if not (is_known error_code)
      then raise (plain_error "unregistered deployment error code")
      else ok (fail_with now repo request error_code message (read s repo) s)
