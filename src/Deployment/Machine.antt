-- ===== src/Deployment/Machine.antt =====
-- What a deployment reads and changes: the store, the calls that it has made, and the local variables
-- of `DeploymentCoordinator.execute` in src/haniel/core/deployment.py that its handler reads. The
-- callbacks, the commands, the clock and the waiter belong to others: their answers are parameters,
-- functions of all that has happened.
use haniel.Prelude.{ℕ, String, Bool, Option, List, ◌∷◌}
use haniel.Prelude.Dict.{Dict}
use haniel.Prelude.Json.{Fields}
use haniel.Errors.{Exn}
use haniel.Errors.Result.{Result, ok, raise}
use haniel.Journal.Path.{Store}

pub record CommandSpec : Type 0 where
  pub name : String
  pub command : String
  pub timeout_seconds : ℕ

pub record CommandResult : Type 0 where
  pub stdout : String
  pub json_data : Option Fields
  pub stderr : String

abbrev pub Environment : Type 0
Environment = Dict String

-- The calls that leave the coordinator. A command carries the place that runs it.
pub data Event : Type 0 where
  built stopped started rolled_back prepared stopped_partial : Event
  acknowledged : Fields → Event
  waited : ℕ → Event
  ran : (site : String) → CommandSpec → Environment → Event

pub record Machine : Type 0 where
  pub store : Store
  -- The last call first.
  pub trace : List Event
  pub environment : Environment
  pub migration_started : Bool
  pub target_start_attempted : Bool
  pub operation : Option String

-- `DeploymentCallbacks`, the command runner, the waiter (True for a shutdown), the clock, `uuid4` and
-- the paths of the files of a repository.
pub record World : Type 0 where
  pub call : Machine → Event → Result (Unit {0})
  pub stop : Machine → Result (Option Fields)
  pub command :
      Machine → (site : String) → CommandSpec → Environment → Result (Option CommandResult)
  pub shutdown : Machine → ℕ → Bool
  pub now : Machine → String
  pub fresh : Machine → String
  pub journal_path : String → String
  pub receipt_path : String → String

abbrev pub Action : Type 0 → Type 0
Action A = Machine → Result A × Machine

abbrev pub next : {A B : Type 0} → (A → Action B) → Result A → Action B
next f (ok a) m = f a m
next f (raise e) m = (raise e, m)

infixl 5 ◌>>=◌ ◌>>◌
abbrev pub ◌>>=◌ : {A B : Type 0} → Action A → (A → Action B) → Action B
◌>>=◌ c f m = next f (c m).0 (c m).1

abbrev pub ◌>>◌ : {B : Type 0} → Action (Unit {0}) → Action B → Action B
c >> k = c >>= λ _. k

abbrev pub handle : {A : Type 0} → (Exn → Action A) → Result A → Action A
handle h (ok a) m = (ok a, m)
handle h (raise e) m = h e m

-- `try: ... except Exception as error: ...`
abbrev pub catching : {A : Type 0} → Action A → (Exn → Action A) → Action A
catching c h m = handle h (c m).0 (c m).1

abbrev pub pure : {A : Type 0} → A → Action A
pure a m = (ok a, m)

abbrev pub throw : {A : Type 0} → Exn → Action A
throw e m = (raise e, m)

abbrev pub modify : (Machine → Machine) → Action (Unit {0})
modify f m = (ok tt, f m)

abbrev pub read_machine : {A : Type 0} → (Machine → A) → Action A
read_machine f m = (ok (f m), m)

-- A call on the outside: it is answered, and it has happened.
abbrev pub perform : {A : Type 0} → Event → (Machine → Result A) → Action A
perform event answer m = (answer m, record m { trace = event ∷ m.trace })

abbrev pub stored : Result Store → Action (Unit {0})
stored (ok s) m = (ok tt, record m { store = s })
stored (raise e) m = (raise e, m)

-- A method of the store.
abbrev pub on_store : (Machine → Result Store) → Action (Unit {0})
on_store f m = stored (f m) m
