-- ===== src/Gate/Granted.antt =====
-- What a granted permission shows.
use haniel.Prelude.{
  ◌≡◌, ◌≢◌, refl, sym, ap, ◌∙◌, String, Bool, true, false, Option, none, some, List, arith, is_some,
  eq_refl, if◌then◌else◌, Bool-cases, Option-cases, inl, inr,
}
use mathlib.Core.Path.{subst}
use haniel.Prelude.Dict
use haniel.Prelude.Dict.{Dict, get-put, get-remove}
use haniel.Gate.{
  Ack, Response, acknowledged, generation_changed, Pending, Gate, init, Reply, answer_ack, answer,
  wait_set, Step, run,
}
use haniel.Gate.Invariant.{Fits, FitsResponse, FitsPending, run-Inv, init-Inv}

granted_by :
    (b : Option Bool) (a ack : Ack)
    → answer_ack b a ≡ Reply.granted ack
    → (a ≡ ack) × (b ≡ some true)
granted_by none a ack e = ground arith
granted_by (some false) a ack e = ground arith
granted_by (some true) a ack e = ground arith

-- A response that is granted: an accepted ACK that fits.
granted-Fits :
    (r d : String) (o : Option Response) (ack : Ack)
    → answer o ≡ Reply.granted ack
    → FitsResponse r d o
    → (ack.accepted ≡ some true) × Fits r d ack
granted-Fits r d none ack e v = ground arith
granted-Fits r d (some generation_changed) ack e v = ground arith
granted-Fits r d (some (acknowledged a)) ack e v =
    let g = granted_by a.accepted a ack e in
    (sym (ap (λ x. x.accepted) g.0) ∙ g.1, subst (Fits r d) g.0 v)

pub wait_set-reply :
    (r : String) (gate : Gate) (p : Pending)
    → Dict.get r gate.pending ≡ some p
    → (wait_set r gate).0 ≡ (if is_some p.response then answer p.response else Reply.still_waiting)
unfolding wait_set
wait_set-reply r gate p e =
    rw (e, wait_set)
      (elim (Bool-cases (is_some p.response)) [ inl t ↦ rw t refl | inr t ↦ rw t refl ])

set_granted :
    (b : Bool) (o : Option Response) (ack : Ack)
    → (if b then answer o else Reply.still_waiting) ≡ Reply.granted ack
    → answer o ≡ Reply.granted ack
set_granted true o ack e = e
set_granted false o ack e = ground arith

-- Whatever the gate has seen, in any order: a waiter is granted its request only by an accepted ACK of
-- a valid shape that bears the id of that request and the deploy of its registration, which the gate
-- still holds.
pub run-granted :
    (steps : List Step) (r : String) (ack : Ack) (p : Pending)
    → Dict.get r (run steps init).pending ≡ some p
    → (wait_set r (run steps init)).0 ≡ Reply.granted ack
    → (ack.accepted ≡ some true) × Fits r p.deploy_id ack
run-granted steps r ack p e g =
    let v = run-Inv steps init init-Inv in
    granted-Fits r p.deploy_id p.response ack
      (set_granted (is_some p.response) p.response ack
        (sym (wait_set-reply r (run steps init) p e) ∙ g))
      (subst (FitsPending r) e (v.fit r))

wait_set-missing :
    (r : String) (gate : Gate)
    → Dict.get r gate.pending ≡ none
    → (wait_set r gate).0 ≡ Reply.deploy_permission_error "unknown orchestrator attempt request"
unfolding wait_set
wait_set-missing r gate e = rw (e, wait_set) refl

unknown_reply :
    (ack : Ack)
    → Reply.deploy_permission_error "unknown orchestrator attempt request" ≢ Reply.granted ack
unknown_reply ack e = ground arith

waiting_reply : (ack : Ack) → Reply.still_waiting ≢ Reply.granted ack
waiting_reply ack e = ground arith

wait_set-removes :
    (r : String) (gate : Gate) (p : Pending)
    → Dict.get r gate.pending ≡ some p
    → is_some p.response ≡ true
    → (wait_set r gate).1 ≡ record gate { pending = Dict.remove r gate.pending }
unfolding wait_set
wait_set-removes r gate p e t = rw (e, wait_set) (rw t refl)

-- A request is granted once: the grant takes it out, and a second wait for it is an error.
pub granted_once :
    (gate : Gate) (r : String) (ack : Ack)
    → (wait_set r gate).0 ≡ Reply.granted ack
    → (wait_set r (wait_set r gate).1).0
      ≡ Reply.deploy_permission_error "unknown orchestrator attempt request"
granted_once gate r ack e = elim (Option-cases (Dict.get r gate.pending)) [
  | inl n ↦ elim (unknown_reply ack (sym (wait_set-missing r gate n) ∙ e)) [ ]
  | inr (p, n) ↦ elim (Bool-cases (is_some p.response)) [
    | inr t ↦
        elim (waiting_reply ack (
          sym (
            wait_set-reply r gate p n
            ∙ ap (λ b. if b then answer p.response else Reply.still_waiting) t)
          ∙ e)) [ ]
    | inl t ↦
        ap (λ g. (wait_set r g).0) (wait_set-removes r gate p n t)
        ∙ wait_set-missing r (record gate { pending = Dict.remove r gate.pending })
            (get-remove r r gate.pending
              ∙ ap (λ b. if b then none else Dict.get r gate.pending) (eq_refl r))
  ]
]
