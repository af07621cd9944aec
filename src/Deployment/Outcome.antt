-- ===== src/Deployment/Outcome.antt =====
-- How an attempt ends: the body of `execute` and what its `except` clauses do.
use haniel.Prelude.{◌≡◌, refl, String, true, false, ◌∷◌}
use haniel.Errors.{Exn, class_of, plain_error, stable_code}
use haniel.Errors.Codes.{is_known, known_codes}
use haniel.Errors.Result.{Result, ok, raise}
use haniel.Journal.Path.{Store}
use haniel.Deployment.Machine.{
  CommandSpec, Environment, Event, Machine, World, Action, ◌>>=◌, perform, on_store, stored,
}
use haniel.Deployment.Triple.{Post, Triple, triple_bind}
use haniel.Deployment.Stored.{IsLive, Succeeds}
use haniel.Deployment.Coordinator.{is_deployment}

-- An exception of a callback or a command: it is no `DeploymentError`, and its stable code is one of
-- those that the journal takes.
pub record IsExternal (e : Exn) : Type 0 where
  pub undeployed : is_deployment (class_of e) ≡ false
  pub known : is_known (stable_code e) ≡ true

pub record IsForeign (w : World) : Type 0 where
  pub calls : (m : Machine) (event : Event) (e : Exn) → w.call m event ≡ raise e → IsExternal e
  pub stops : (m : Machine) (e : Exn) → w.stop m ≡ raise e → IsExternal e
  pub commands :
      (m : Machine) (site : String) (c : CommandSpec) (env : Environment) (e : Exn)
      → w.command m site c env ≡ raise e
      → IsExternal e

pub plain-IsExternal : (message : String) → IsExternal (plain_error message)
unfolding stable_code is_known known_codes
plain-IsExternal message = record { undeployed = refl; known = refl }

module _ (repo : String) where
  abbrev pub Live : Machine → Type 0
  Live m = IsLive repo m.store

  -- Where an exception of the outside has passed, the journal is there.
  abbrev pub External : Exn → Machine → Type 0
  External e m = IsExternal e × IsLive repo m.store

  pub then-Live :
      {A B : Type 0} (S : B → Machine → Type 0) (R : Exn → Machine → Type 0) (c : Action A)
      (f : A → Action B)
      → Triple Live c (λ _. Live) R
      → ((a : A) → Triple Live (f a) S R)
      → Triple Live (c >>= f) S R
  then-Live S R c f first rest = triple_bind Live (λ _. Live) S R c f first rest

  Post-stored :
      (P : Store → Type 0) (R : Exn → Machine → Type 0) (r : Result Store) (m : Machine)
      → Succeeds repo P r
      → Post (λ _ n. P n.store) R (stored r m).0 (stored r m).1
  Post-stored P R (ok s) m h = h
  Post-stored P R (raise e) m h = elim h [ ]

  pub store-Live :
      (P : Store → Type 0) (R : Exn → Machine → Type 0) (f : Machine → Result Store)
      → ((m : Machine) → IsLive repo m.store → Succeeds repo P (f m))
      → Triple Live (on_store f) (λ _ n. P n.store) R
  store-Live P R f steps m v = Post-stored P R (f m) m (steps m v)

  answer-Live :
      {A : Type 0} (r : Result A) (m : Machine)
      → ((e : Exn) → r ≡ raise e → IsExternal e)
      → IsLive repo m.store
      → Post (λ (_ : A). Live) External r m
  answer-Live (ok a) m external v = v
  answer-Live (raise e) m external v = (external e refl, v)

  pub perform-Live :
      {A : Type 0} (event : Event) (answer : Machine → Result A)
      → ((m : Machine) (e : Exn) → answer m ≡ raise e → IsExternal e)
      → Triple Live (perform event answer) (λ _. Live) External
  perform-Live event answer external m v =
      answer-Live (answer m) (record m { trace = event ∷ m.trace }) (external m) v

  pub lift-Live :
      {A : Type 0} (r : Machine → Result A)
      → ((m : Machine) (e : Exn) → r m ≡ raise e → IsExternal e)
      → Triple Live (λ m. (r m, m)) (λ _. Live) External
  lift-Live r external m v = answer-Live (r m) m (external m) v
