-- ===== src/Gate/Invariant.antt =====
-- What the gate holds: every stored ACK fits its request.
use haniel.Prelude.{
  ◌≡◌, refl, sym, String, not, ◌&&◌, Option, none, some, List, [], ◌∷◌, arith, same, same_iff,
  is_some, eq_iff, ◌==◌, Bool-cases, Option-cases, inl, inr,
}
use mathlib.Core.Path.{subst}
use haniel.Prelude.Dict
use haniel.Prelude.Dict.{Dict, get-put, get-remove}
use haniel.Gate.{
  Ack, Response, acknowledged, generation_changed, Pending, Gate, init, refuse, refuse_all,
  observe_generation, reset_connection, register, validate_ack_shape, take_ack, accept_with,
  accept_ack, wait_set, wait_timeout, Step, observes, resets, registers, receives, wakes, times_out,
  step, run,
}

-- An ACK that fits the request: its shape is valid, it bears the request's id and the deploy's.
pub record Fits (requested deploy_id : String) (ack : Ack) : Type 0 where
  pub shape : validate_ack_shape ack ≡ none
  pub id : ack.requested_orchestrator_attempt_id ≡ some requested
  pub deploy : ack.deploy_id ≡ some deploy_id

abbrev pub FitsResponse : (requested deploy_id : String) → Option Response → Type 0
FitsResponse r d none = Unit
FitsResponse r d (some generation_changed) = Unit
FitsResponse r d (some (acknowledged ack)) = Fits r d ack

abbrev pub FitsPending : (requested : String) → Option Pending → Type 0
FitsPending r none = Unit
FitsPending r (some p) = FitsResponse r p.deploy_id p.response

-- Every stored ACK fits its request.
pub record Inv (gate : Gate) : Type 0 where
  pub fit : (r : String) → FitsPending r (Dict.get r gate.pending)

abbrev pub refused : Option Pending → Option Pending
refused none = none
refused (some p) = some (refuse p)

pub get-refuse_all :
    (r : String) (d : Dict Pending) → Dict.get r (refuse_all d) ≡ refused (Dict.get r d)
unfolding refuse_all Dict.get
get-refuse_all r [] = refl
get-refuse_all r ((k, p) ∷ rest) = ground (arith, get-refuse_all r rest)

refused-Fits : (r : String) (o : Option Pending) → FitsPending r (refused o)
refused-Fits r none = tt
refused-Fits r (some p) = tt

refuse_all-Inv :
    (gate : Gate) (g : Option String)
    → Inv (record { pending = refuse_all gate.pending; generation = g })
refuse_all-Inv gate g = record {
  fit = λ r.
      subst (FitsPending r) (sym (get-refuse_all r gate.pending))
        (refused-Fits r (Dict.get r gate.pending));
}

put-Inv :
    (gate : Gate) (k : String) (p : Pending)
    → FitsPending k (some p)
    → Inv gate
    → Inv (record gate { pending = Dict.put k p gate.pending })
put-Inv gate k p new v = record {
  fit = λ r. subst (FitsPending r) (sym (get-put k r p gate.pending)) (elim (Bool-cases (k == r)) [
    | inl t ↦ rw t (subst (λ i. FitsPending i (some p)) ((eq_iff k r).0 t) new)
    | inr t ↦ rw t (v.fit r)
  ]);
}

remove-Inv :
    (gate : Gate) (k : String)
    → Inv gate
    → Inv (record gate { pending = Dict.remove k gate.pending })
remove-Inv gate k v = record {
  fit = λ r.
      subst (FitsPending r) (sym (get-remove k r gate.pending))
        (elim (Bool-cases (k == r)) [ inl t ↦ rw t tt | inr t ↦ rw t (v.fit r) ]);
}

take_ack-Inv :
    (requested : String) (ack : Ack) (gate : Gate)
    → validate_ack_shape ack ≡ none
    → ack.requested_orchestrator_attempt_id ≡ some requested
    → Inv gate
    → Inv (take_ack requested ack gate).1
unfolding take_ack
take_ack-Inv requested ack gate shape id v = elim (Option-cases (Dict.get requested gate.pending)) [
  | inl e ↦ rw (e, take_ack) v
  | inr (p, e) ↦
      rw (e, take_ack)
        (elim (Bool-cases (same ack.deploy_id (some p.deploy_id))) [
          | inr t ↦ rw t v
          | inl t ↦
              rw t
                (elim (Bool-cases (
                  is_some gate.generation
                  && not (same ack.connection_generation gate.generation))) [
                    | inl u ↦ rw u v
                    | inr u ↦ rw u (elim (Bool-cases (is_some p.response)) [
                      | inl w ↦ rw w v
                      | inr w ↦ rw w (
                          put-Inv gate requested (record p { response = some (acknowledged ack) })
                            (record {
                              shape = shape;
                              id = id;
                              deploy = (same_iff ack.deploy_id (some p.deploy_id)).0 t;
                            })
                            v)
                    ])
                  ])
        ])
]

accept_with-Inv :
    (requested message : Option String) (ack : Ack) (gate : Gate)
    → ack.requested_orchestrator_attempt_id ≡ requested
    → validate_ack_shape ack ≡ message
    → Inv gate
    → Inv (accept_with requested message ack gate).1
unfolding accept_with
accept_with-Inv none message ack gate e s v = v
accept_with-Inv (some r) (some m) ack gate e s v = v
accept_with-Inv (some r) none ack gate e s v = take_ack-Inv r ack gate s e v

wait_set-Inv : (r : String) (gate : Gate) → Inv gate → Inv (wait_set r gate).1
unfolding wait_set
wait_set-Inv r gate v = elim (Option-cases (Dict.get r gate.pending)) [
  | inl e ↦ rw (e, wait_set) v
  | inr (p, e) ↦
      rw (e, wait_set)
        (elim (Bool-cases (is_some p.response)) [
          | inl t ↦ rw t (remove-Inv gate r v)
          | inr t ↦ rw t v
        ])
]

register-Inv : (r d : String) (gate : Gate) → Inv gate → Inv (register r d gate).1
unfolding register
register-Inv r d gate v = elim (Bool-cases (is_some (Dict.get r gate.pending))) [
  | inl t ↦ rw t v
  | inr t ↦ rw t (put-Inv gate r (record { deploy_id = d; response = none }) tt v)
]

observe_generation-Inv : (g : String) (gate : Gate) → Inv gate → Inv (observe_generation g gate).1
unfolding observe_generation
observe_generation-Inv g gate v =
    elim (Bool-cases (is_some gate.generation && not (same gate.generation (some g)))) [
      | inl t ↦ rw t (refuse_all-Inv gate (some g))
      | inr t ↦ rw t (record { fit = v.fit })
    ]

step-Inv : (s : Step) (gate : Gate) → Inv gate → Inv (step s gate).1
unfolding step reset_connection accept_ack wait_timeout
step-Inv (observes g) gate v = observe_generation-Inv g gate v
step-Inv resets gate v = refuse_all-Inv gate none
step-Inv (registers r d) gate v = register-Inv r d gate v
step-Inv (receives ack) gate v = accept_with-Inv _ _ ack gate refl refl v
step-Inv (wakes r) gate v = wait_set-Inv r gate v
step-Inv (times_out r) gate v = remove-Inv gate r v

pub run-Inv : (steps : List Step) (gate : Gate) → Inv gate → Inv (run steps gate)
unfolding run
run-Inv [] gate v = v
run-Inv (s ∷ steps) gate v = run-Inv steps (step s gate).1 (step-Inv s gate v)

pub init-Inv : Inv init
unfolding init Dict.get
init-Inv = record { fit = λ r. tt }
