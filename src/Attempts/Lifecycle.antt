-- ===== src/Attempts/Lifecycle.antt =====
-- The life of a deploy: an abstract machine on the status of `deploy_events`, after `DeployStatus` of
-- orch-server/src/haniel_orch/protocol.py.
pub mod Refines
use haniel.Prelude.{
  ℕ, ◌≡◌, refl, sym, ap, ◌∙◌, String, Bool, true, false, Option, none, some, List, ◌∷◌, [], ◌++◌,
  arith, Bool-cases, Option-cases, inl, inr, ◌==◌,
}
use mathlib.Core.Path.{subst}
use haniel.Attempts.Table.{
  find, update, updated, find-none, find-update, find-append, find-absent, find-before,
}
use haniel.Attempts.Rows.{
  Status, pending, approved, rejected, deploying, succeeded, failed, is_pending, is_deploying,
  Event,
}
use haniel.Attempts.Support.{has_id}
use haniel.Attempts.Events.{is_closing}

abbrev pub status_in : Option Event → Option Status
status_in none = none
status_in (some e) = some e.status

unfoldable pub status_of : List Event → String → Option Status
status_of es d = status_in (find (has_id d) es)

-- The moves of the abstract machine.
pub data Moves : Option Status → Option Status → Type 0 where
  detects : Moves none (some pending)
  begins : Moves (some pending) (some deploying)
  completes : Moves (some deploying) (some succeeded)
  reopens : Moves (some deploying) (some pending)
  drops : Moves (some deploying) (some rejected)
  rejects : Moves (some pending) (some rejected)
  resolves : Moves (some pending) (some succeeded)

pub data Reaches (from : Option Status) : Option Status → Type 0 where
  here : Reaches from from
  onward : {b c : Option Status} → Reaches from b → Moves b c → Reaches from c

pub from_pending :
    (s : Status) (t : Option Status)
    → is_pending s ≡ true
    → Moves (some pending) t
    → Moves (some s) t
from_pending pending t h m = m
from_pending approved t h m = ground arith
from_pending rejected t h m = ground arith
from_pending deploying t h m = ground arith
from_pending succeeded t h m = ground arith
from_pending failed t h m = ground arith

pub from_deploying :
    (s : Status) (t : Option Status)
    → is_deploying s ≡ true
    → Moves (some deploying) t
    → Moves (some s) t
from_deploying pending t h m = ground arith
from_deploying approved t h m = ground arith
from_deploying rejected t h m = ground arith
from_deploying deploying t h m = m
from_deploying succeeded t h m = ground arith
from_deploying failed t h m = ground arith

pub closing_move : (t : Status) → is_closing t ≡ true → Moves (some pending) (some t)
closing_move pending h = ground arith
closing_move approved h = ground arith
closing_move rejected h = rejects
closing_move deploying h = ground arith
closing_move succeeded h = resolves
closing_move failed h = ground arith

pub update-Reaches :
    (p : Event → Bool) (f : Event → Event) (es : List Event) (d : String) (s : Option Status)
    → ((e : Event) → (f e).deploy_id ≡ e.deploy_id)
    → ((e : Event)
        → find (has_id d) es ≡ some e
        → p e ≡ true
        → Moves (some e.status) (some (f e).status))
    → Reaches s (status_of es d)
    → Reaches s (status_of (update p f es) d)
unfolding status_of updated
update-Reaches p f es d s keeps moves r =
    let after = find-update p (has_id d) f es (λ e. ap (λ i. i == d) (keeps e)) in
    elim (Option-cases (find (has_id d) es)) [
      | inl e ↦
          subst (λ o. Reaches s (status_in o)) (sym (after ∙ ap (updated p f) e))
            (subst (λ o. Reaches s (status_in o)) e r)
      | inr (x, e) ↦
          subst (λ o. Reaches s (status_in o)) (sym (after ∙ ap (updated p f) e))
            (elim (Bool-cases (p x)) [
              | inl t ↦ rw t (onward (subst (λ o. Reaches s (status_in o)) e r) (moves x e t))
              | inr t ↦ rw t (subst (λ o. Reaches s (status_in o)) e r)
            ])
    ]

pub append-Reaches :
    (es : List Event) (y : Event) (d : String) (s : Option Status)
    → y.status ≡ pending
    → Reaches s (status_of es d)
    → Reaches s (status_of (es ++ y ∷ []) d)
unfolding status_of
append-Reaches es y d s new r = elim (Option-cases (find (has_id d) es)) [
  | inr (x, e) ↦ subst (λ o. Reaches s (status_in o)) (e ∙ sym (find-before (has_id d) es y x e)) r
  | inl e ↦ elim (Bool-cases (has_id d y)) [
    | inl t ↦
        subst (λ o. Reaches s (status_in o))
          (sym (find-append (has_id d) es y (find-none (has_id d) es e) t))
          (subst (λ u. Reaches s (some u)) (sym new)
            (onward (subst (λ o. Reaches s (status_in o)) e r) detects))
    | inr t ↦ subst (λ o. Reaches s (status_in o)) (e ∙ sym (find-absent (has_id d) es y e t)) r
  ]
]
