-- ===== src/Journal/Begin.antt =====
-- `begin` of src/haniel/core/deployment_state.py. Of the messages that list the conflicting fields
-- only the head is kept.
use Prim.Native.String.{◌++◌ as append}
use haniel.Prelude.{
  String, Bool, true, false, not, ◌&&◌, Option, none, some, List, [], ◌∷◌, ◌++◌, same, truthy,
  is_some, ◌==◌, if◌then◌else◌,
}
use haniel.Errors.{plain_error}
use haniel.Errors.Result.{Result, ok, raise, ◌>>=◌}
use haniel.Journal.Record.{
  State, build, target_resolving, staging_probed, preflight, migrating, starting, verifying,
  recovering, success, failed, verification_failed, interrupted, aborted, is_terminal, Attempt,
  Journal, Redaction, entry,
}
use haniel.Journal.Path.{Store, read, write}

-- The arguments of `begin` behind the repository's name.
pub record Intent : Type 0 where
  pub previous_head : String
  pub target_head : String
  pub release_id : String
  pub orchestrator_attempt_id : Option String
  pub node_id : Option String
  pub branch : Option String
  pub manifest_identity : Option String
  pub manifest_digest : Option String
  pub journal_attempt_id : Option String
  pub request_id : Option String
  pub expected_operation : Option String
  pub config_digest : Option String

-- `a or b`
abbrev pub or_else : Option String → Option String → Option String
or_else a b = if truthy a then a else b

-- A live journal that is linked to an attempt of the orchestrator lends its link.
unfoldable pub inherit : Option Journal → Intent → Intent
inherit none i = i
inherit (some j) i =
    if not (is_terminal j.state)
      && (not (is_some i.orchestrator_attempt_id) && truthy j.orchestrator_attempt_id)
    then record i {
      orchestrator_attempt_id = j.orchestrator_attempt_id;
      node_id = or_else i.node_id j.node_id;
      branch = or_else i.branch j.branch;
    }
    else i

-- One item of the list `conflicts`: the key, if the test fails.
abbrev pub unless : Bool → String → List String → List String
unless holds key rest = if holds then rest else key ∷ rest

-- A link that is already stored may not be given anew with another value.
abbrev pub link_agrees : (stored provided : Option String) → Bool
link_agrees none provided = true
link_agrees (some a) none = true
link_agrees (some a) (some b) = a == b

-- `link_updates`: a link that is not stored yet takes the value provided.
abbrev pub link_update : (stored provided : Option String) → Option String
link_update none provided = provided
link_update (some a) provided = some a

unfoldable pub intent_conflicts : Attempt → Intent → List String
intent_conflicts a i = unless (a.previous_head == i.previous_head) "previous_head" (
    unless (a.target_head == i.target_head) "target_head" (
      unless (same a.branch i.branch) "branch" (
        unless (same a.manifest_identity i.manifest_identity) "manifest_identity" (
          unless (same a.manifest_digest i.manifest_digest) "manifest_digest" (
            unless (same a.request_id i.request_id) "request_id" (
              unless (same a.expected_operation i.expected_operation) "expected_operation" (
                unless (same a.config_digest i.config_digest) "config_digest" (
                  unless (link_agrees a.orchestrator_attempt_id i.orchestrator_attempt_id)
                    "orchestrator_attempt_id"
                    (unless (link_agrees a.node_id i.node_id) "node_id" [])))))))))

abbrev pub is_nil {ℓ} : {A : Type ℓ} → List A → Bool
is_nil [] = true
is_nil (_ ∷ _) = false

-- `str(state)`
abbrev state_text : State → String
state_text build = "build"
state_text target_resolving = "target_resolving"
state_text staging_probed = "staging_probed"
state_text preflight = "preflight"
state_text migrating = "migrating"
state_text starting = "starting"
state_text verifying = "verifying"
state_text recovering = "recovering"
state_text success = "success"
state_text failed = "failed"
state_text verification_failed = "verification_failed"
state_text interrupted = "interrupted"
state_text aborted = "aborted"

unfoldable pub superseded : State → String
superseded state = append "superseded by a new deployment attempt from " (state_text state)

module _ (redaction : Redaction) where
  -- The branch for a given `journal_attempt_id`: the live journal is activated.
  unfoldable pub resume : (now : String) → String → Journal → Intent → Result Journal
  resume now id j i =
      if not (j.journal_attempt_id == id)
      then raise (plain_error "journal_attempt_id does not identify the live journal")
      else if not (is_nil (intent_conflicts j.current i))
      then raise (plain_error "journal intent changed immutable fields")
      else ok (record j {
        current = record j.current {
          orchestrator_attempt_id = link_update j.orchestrator_attempt_id i.orchestrator_attempt_id;
          node_id = link_update j.node_id i.node_id;
          release_id = i.release_id;
          state = build;
          recovered = false;
          history =
              j.history ++ entry redaction now build (some "deployment intent activated") ∷ [];
        };
      })

  -- The current attempt as it is archived: a live one is aborted first.
  unfoldable pub retire : (now : String) → Journal → Attempt
  retire now j = if is_terminal j.state then j.current else record j.current {
    state = aborted;
    aborted_from = some j.state;
    abort_reason = some (superseded j.state);
    history = j.history ++ entry redaction now aborted (some (superseded j.state)) ∷ [];
  }

  unfoldable pub archive : (now : String) → Journal → List Attempt
  archive now j = j.previous_attempts ++ retire now j ∷ []

  abbrev pub archived : (now : String) → Option Journal → List Attempt
  archived now none = []
  archived now (some j) = archive now j

  abbrev id_or : Option String → String → String
  id_or none fresh = fresh
  id_or (some id) fresh = id

  unfoldable pub new_attempt : (now fresh repo : String) → Intent → Attempt
  new_attempt now fresh repo i = record {
    repo = repo;
    journal_attempt_id =
        (if truthy i.journal_attempt_id then id_or i.journal_attempt_id fresh else fresh);
    orchestrator_attempt_id = i.orchestrator_attempt_id;
    node_id = i.node_id;
    branch = i.branch;
    release_id = i.release_id;
    previous_head = i.previous_head;
    target_head = i.target_head;
    state = build;
    recovered = false;
    history = entry redaction now build none ∷ [];
    started_at = now;
    manifest_identity = i.manifest_identity;
    manifest_digest = i.manifest_digest;
    request_id = i.request_id;
    expected_operation = i.expected_operation;
    config_digest = i.config_digest;
    target_ref = none;
    completed_at = none;
    error_code = none;
    error = none;
    target_preserved = none;
    aborted_from = none;
    abort_reason = none;
    interrupted_from = none;
    interruption_reason = none;
    operation = none;
    database_journal_path = none;
    quiescence_receipt = none;
    database_last_result_phase = none;
    database_last_result = none;
  }

  -- The branch that archives what there is and starts a new attempt.
  unfoldable pub renew :
      (now fresh repo : String) → Option Journal → Intent → Store → String × Store
  renew now fresh repo existing i s =
      let attempt = new_attempt now fresh repo i in
      (
        attempt.journal_attempt_id,
        write redaction repo
            (record { current = attempt; previous_attempts = archived now existing }) s,
      )

  -- The two branches of `begin`, over the journal that was read and the intent with its links.
  unfoldable pub begin_with :
      (now fresh repo : String)
      → Option Journal
      → Intent
      → Option String
      → Store
      → Result (String × Store)
  begin_with now fresh repo (some j) i (some id) s = do
    j' ← resume now id j i
    ok (id, write redaction repo j' s)
  begin_with now fresh repo existing i _ s = ok (renew now fresh repo existing i s)

  unfoldable pub begin : (now fresh repo : String) → Intent → Store → Result (String × Store)
  begin now fresh repo i s =
      let existing = read s repo in
      begin_with now fresh repo existing (inherit existing i) i.journal_attempt_id s
