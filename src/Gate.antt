-- ===== src/Gate.antt =====
-- `DeployAttemptGate` of src/haniel/integrations/deploy_attempt_gate.py: the node's permission for a
-- deployment that it starts by itself. Each method is one step under the gate's lock; `wait` is two, as
-- the lock is free while it waits. An event is set exactly when its request has a response.
mod Invariant
mod Denied
mod Granted
mod Examples
use haniel.Prelude.{
  String, Bool, true, false, not, ◌&&◌, ◌||◌, Option, none, some, List, [], ◌∷◌, same, contains,
  is_some, ◌==◌, if◌then◌else◌,
}
use haniel.Prelude.Dict
use haniel.Prelude.Dict.{Dict}
use haniel.Deployment.Quiescence.{same_set, all_in}

-- What the gate reads of an ACK: its keys, the tag `accepted` if it is a Boolean, and its texts.
pub record Ack : Type 0 where
  pub keys : List String
  pub type : Option String
  pub accepted : Option Bool
  pub requested_orchestrator_attempt_id : Option String
  pub begun_orchestrator_attempt_id : Option String
  pub deploy_id : Option String
  pub connection_generation : Option String
  pub error : Option String

-- The response of a request: an ACK, or the gate's own refusal.
pub data Response : Type 0 where
  acknowledged : Ack → Response
  generation_changed : Response

-- `_PendingPermission`
pub record Pending : Type 0 where
  pub deploy_id : String
  pub response : Option Response

pub record Gate : Type 0 where
  pub pending : Dict Pending
  pub generation : Option String

unfoldable pub init : Gate
init = record { pending = []; generation = none }

-- What a call answers or raises.
pub data Reply : Type 0 where
  done : Reply
  taken : Bool → Reply
  granted : Ack → Reply
  still_waiting : Reply
  refused : (message : Option String) → Reply
  deploy_permission_error : String → Reply

abbrev pub refuse : Pending → Pending
refuse p = record p { response = some generation_changed }

unfoldable pub refuse_all : Dict Pending → Dict Pending
refuse_all [] = []
refuse_all ((k, p) ∷ rest) = (k, refuse p) ∷ refuse_all rest

unfoldable pub observe_generation : String → Gate → Reply × Gate
unfolding refuse_all
observe_generation g gate = (
  Reply.done,
  record gate {
    pending =
        if is_some gate.generation && not (same gate.generation (some g))
        then refuse_all gate.pending
        else gate.pending;
    generation = some g;
  },
)

unfoldable pub reset_connection : Gate → Reply × Gate
unfolding refuse_all
reset_connection gate =
    (Reply.done, record gate { pending = refuse_all gate.pending; generation = none })

unfoldable pub register : (requested deploy_id : String) → Gate → Reply × Gate
register requested deploy_id gate =
    if is_some (Dict.get requested gate.pending)
    then (Reply.deploy_permission_error "duplicate orchestrator attempt request", gate)
    else (
      Reply.done,
      record gate {
        pending =
            Dict.put requested (record { deploy_id = deploy_id; response = none }) gate.pending;
      },
    )

abbrev pub common : List String
common =
    "type" ∷ "accepted" ∷ "requested_orchestrator_attempt_id" ∷ "deploy_id"
    ∷ "connection_generation" ∷ []

abbrev pub accepted_keys : List String
accepted_keys =
    "begun_orchestrator_attempt_id" ∷ "probe_id" ∷ "execution_mode" ∷ "preflight_fingerprint"
    ∷ common

abbrev pub rejected_keys : List String
rejected_keys = "error" ∷ common

-- `_validate_ack_shape`: the message of the error that it raises.
unfoldable pub validate_ack_shape : Ack → Option String
validate_ack_shape ack =
    if not (same ack.type (some "deploy_attempt_ack")) || not (all_in common ack.keys)
    then some "malformed deploy attempt ACK"
    else elim ack.accepted [
      | none ↦ some "ACK accepted tag must be boolean"
      | some b ↦
          if b
          then (if not (same_set ack.keys accepted_keys)
              then some "accepted ACK fields are contaminated"
              else if not
                  (same ack.begun_orchestrator_attempt_id ack.requested_orchestrator_attempt_id)
              then some "accepted ACK changed orchestrator attempt ID"
              else none)
          else if not (same_set ack.keys rejected_keys)
              || not (same ack.error (some "retry_requires_manual_approval"))
          then some "rejected ACK fields are contaminated"
          else none
    ]

-- The part of `accept_ack` under the lock.
unfoldable pub take_ack : (requested : String) → Ack → Gate → Reply × Gate
take_ack requested ack gate = elim (Dict.get requested gate.pending) [
  | none ↦ (Reply.taken false, gate)
  | some p ↦
      if not (same ack.deploy_id (some p.deploy_id))
      then (Reply.taken false, gate)
      else if is_some gate.generation && not (same ack.connection_generation gate.generation)
      then (Reply.taken false, gate)
      else if is_some p.response
      then (Reply.taken true, gate)
      else (
        Reply.taken true,
        record gate {
          pending =
              Dict.put requested (record p { response = some (acknowledged ack) }) gate.pending;
        },
      )
]

-- `accept_ack`, by the id that the ACK has and the message of its shape's error.
unfoldable pub accept_with : (requested message : Option String) → Ack → Gate → Reply × Gate
unfolding take_ack
accept_with none message ack gate =
    (Reply.deploy_permission_error "ACK lacks requested_orchestrator_attempt_id", gate)
accept_with (some requested) (some message) ack gate = (Reply.deploy_permission_error message, gate)
accept_with (some requested) none ack gate = take_ack requested ack gate

unfoldable pub accept_ack : Ack → Gate → Reply × Gate
unfolding accept_with validate_ack_shape
accept_ack ack gate =
    accept_with ack.requested_orchestrator_attempt_id (validate_ack_shape ack) ack gate

-- The end of `wait` for a response: `accepted` of an ACK decides.
abbrev pub answer_ack : (accepted : Option Bool) → Ack → Reply
answer_ack (some true) ack = Reply.granted ack
answer_ack (some false) ack = Reply.refused ack.error
answer_ack none ack = Reply.refused ack.error

abbrev pub answer : Option Response → Reply
answer none = Reply.refused (some "ACK lost")
answer (some generation_changed) = Reply.refused (some "connection_generation_changed")
answer (some (acknowledged ack)) = answer_ack ack.accepted ack

-- The second step of `wait`, once the event is set: the request is taken out. One thread waits for a
-- request, so that no other call takes it out before.
unfoldable pub wait_set : (requested : String) → Gate → Reply × Gate
wait_set requested gate = elim (Dict.get requested gate.pending) [
  | none ↦ (Reply.deploy_permission_error "unknown orchestrator attempt request", gate)
  | some p ↦
      if is_some p.response
      then (answer p.response, record gate { pending = Dict.remove requested gate.pending })
      else (Reply.still_waiting, gate)
]

-- Its second step after the timeout.
unfoldable pub wait_timeout : (requested : String) → Gate → Reply × Gate
wait_timeout requested gate = (
  Reply.deploy_permission_error "deploy attempt ACK timeout",
  record gate { pending = Dict.remove requested gate.pending },
)

pub data Step : Type 0 where
  observes : String → Step
  resets : Step
  registers : (requested deploy_id : String) → Step
  receives : Ack → Step
  wakes : String → Step
  times_out : String → Step

unfoldable pub step : Step → Gate → Reply × Gate
unfolding observe_generation reset_connection register accept_ack wait_set wait_timeout
step (observes g) gate = observe_generation g gate
step resets gate = reset_connection gate
step (registers r d) gate = register r d gate
step (receives ack) gate = accept_ack ack gate
step (wakes r) gate = wait_set r gate
step (times_out r) gate = wait_timeout r gate

unfoldable pub run : List Step → Gate → Gate
unfolding step
run [] gate = gate
run (s ∷ steps) gate = run steps (step s gate).1
