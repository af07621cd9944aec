-- ===== src/Gate/Examples.antt =====
-- Tests of the gate on one request, and the witnesses.
use haniel.Prelude.{◌≡◌, refl, true, none, some, List, [], ◌∷◌}
use haniel.Prelude.Dict
use haniel.Gate.{
  Ack, acknowledged, Pending, init, Reply, observe_generation, register, validate_ack_shape,
  take_ack, accept_with, accept_ack, wait_set, Step, observes, registers, receives, wakes, step,
  run,
}
use haniel.Gate.Invariant.{Fits}
use haniel.Gate.Granted.{run-granted, granted_once}

abbrev ack : Ack
ack = record {
  keys =
      "type" ∷ "accepted" ∷ "requested_orchestrator_attempt_id" ∷ "deploy_id"
      ∷ "connection_generation" ∷ "begun_orchestrator_attempt_id" ∷ "probe_id" ∷ "execution_mode"
      ∷ "preflight_fingerprint" ∷ [];
  type = some "deploy_attempt_ack";
  accepted = some true;
  requested_orchestrator_attempt_id = some "a1";
  begun_orchestrator_attempt_id = some "a1";
  deploy_id = some "d1";
  connection_generation = some "g1";
  error = none;
}

abbrev steps : List Step
steps = observes "g1" ∷ registers "a1" "d1" ∷ receives ack ∷ []

abbrev pending : Pending
pending = record { deploy_id = "d1"; response = some (acknowledged ack) }

pending_row : Dict.get "a1" (run steps init).pending ≡ some pending
unfolding run step init observe_generation register accept_ack accept_with take_ack
    validate_ack_shape Dict.get Dict.put
pending_row = refl

granted_reply : (wait_set "a1" (run steps init)).0 ≡ Reply.granted ack
unfolding run step init observe_generation register accept_ack accept_with take_ack
    validate_ack_shape Dict.get Dict.put wait_set
granted_reply = refl

run-granted_example : (ack.accepted ≡ some true) × Fits "a1" "d1" ack
run-granted_example = run-granted steps "a1" ack pending pending_row granted_reply

-- The ACK that has been granted comes again, and for another request.
abbrev late : List Step
late = receives ack ∷ receives (record ack { connection_generation = some "g2" }) ∷ wakes "a2" ∷ []

granted_once_example :
    (wait_set "a1" (wait_set "a1" (run steps init)).1).0
    ≡ Reply.deploy_permission_error "unknown orchestrator attempt request"
granted_once_example = granted_once (run steps init) "a1" ack granted_reply
