-- ===== src/Health/Manager.antt =====
-- `HealthManager` of src/haniel/core/health.py. `_services` is a dict that creates an entry when a
-- name is first asked for; a registered callback is known by a number, and its exceptions are
-- swallowed, so that the calls made are a list.
pub mod Invariant
use haniel.Prelude.{
  ℕ, String, Bool, true, false, not, Option, none, some, List, [], ◌∷◌, ◌++◌, map, if◌then◌else◌,
}
use haniel.Prelude.Int.{ℤ}
use haniel.Prelude.Dict
use haniel.Prelude.Dict.{Dict}
use haniel.Health.{
  ServiceState, stopped, starting, ready, running, stopping, crashed, circuit_open, ServiceHealth,
  new_health, record_start, record_ready, record_running, record_stop, record_stopping,
  record_crash, record_circuit_open, reset_circuit, get_restart_delay, should_circuit_break,
}

pub record Manager : Type 0 where
  pub base_delay : ℕ
  pub max_delay : ℕ
  pub circuit_breaker_threshold : ℕ
  pub circuit_breaker_window : ℕ
  pub services : Dict ServiceHealth
  pub callbacks : List ℕ

-- `callback(service_name, old_state, new_state)`
pub record Call : Type 0 where
  pub callback : ℕ
  pub service : String
  pub old_state : ServiceState
  pub new_state : ServiceState

unfoldable pub init : (base max threshold window : ℕ) → Manager
init base max threshold window = record {
  base_delay = base;
  max_delay = max;
  circuit_breaker_threshold = threshold;
  circuit_breaker_window = window;
  services = [];
  callbacks = [];
}

abbrev fresh : Manager → String → ServiceHealth
fresh m name =
    new_health name m.circuit_breaker_threshold m.circuit_breaker_window m.base_delay m.max_delay

-- The entry that `get_health` returns; it is in the dict afterwards (`save`).
unfoldable pub get_health : Manager → String → ServiceHealth
get_health m name = elim (Dict.get name m.services) [ none ↦ fresh m name | some h ↦ h ]

-- The dict holds the object itself, so a change of it is a change of the entry.
unfoldable pub save : String → ServiceHealth → Manager → Manager
save name h m = record m { services = Dict.put name h m.services }

-- `old_state == new_state` of the enum.
abbrev pub same_state : ServiceState → ServiceState → Bool
same_state stopped stopped = true
same_state starting starting = true
same_state ready ready = true
same_state running running = true
same_state stopping stopping = true
same_state crashed crashed = true
same_state circuit_open circuit_open = true
same_state _ _ = false

-- `_notify_state_change`
unfoldable pub notify : Manager → String → (old new : ServiceState) → List Call
notify m name old new =
    if same_state old new
    then []
    else map (λ c. record { callback = c; service = name; old_state = old; new_state = new })
        m.callbacks

-- The five methods that differ in the call on the entry alone.
unfoldable pub tracked : (ServiceHealth → ServiceHealth) → String → Manager → Manager × List Call
unfolding get_health save notify
tracked change name m =
    let health = get_health m name in
    let health' = change health in (save name health' m, notify m name health.state health'.state)

unfoldable pub start : (now : ℕ) → String → Manager → Manager × List Call
unfolding tracked
start now = tracked (record_start now)

unfoldable pub become_ready : String → Manager → Manager × List Call
unfolding tracked
become_ready = tracked record_ready

unfoldable pub become_running : String → Manager → Manager × List Call
unfolding tracked
become_running = tracked record_running

unfoldable pub stop : String → Manager → Manager × List Call
unfolding tracked
stop = tracked record_stop

unfoldable pub begin_stop : String → Manager → Manager × List Call
unfolding tracked
begin_stop = tracked record_stopping

unfoldable pub reset : String → Manager → Manager × List Call
unfolding tracked
reset = tracked reset_circuit

-- What `record_crash` makes of the entry. The clock is read for the record and then again by the
-- circuit breaker.
unfoldable pub after_crash : (at now : ℕ) → Option ℤ → String → ServiceHealth → ServiceHealth
after_crash at now exit_code reason h =
    let health = record_crash at exit_code reason h in
    if should_circuit_break now health then record_circuit_open health else health

unfoldable pub crash : (at now : ℕ) → String → Option ℤ → String → Manager → Manager × List Call × ℕ
unfolding get_health save notify after_crash
crash at now name exit_code reason m =
    let health = get_health m name in
    let health' = record_crash at exit_code reason health in
    if should_circuit_break now health'
    then (
      save name (record_circuit_open health') m,
      notify m name health.state (record_circuit_open health').state,
      0,
    )
    else (save name health' m, notify m name health.state health'.state, get_restart_delay health')

unfoldable pub should_restart : Manager → String → Bool
should_restart m name = not (same_state (get_health m name).state circuit_open)

unfoldable pub add_callback : ℕ → Manager → Manager
add_callback c m = record m { callbacks = m.callbacks ++ c ∷ [] }

unfoldable pub get_all_states : Manager → Dict ServiceState
get_all_states m = map (λ e. (e.0, e.1.state)) m.services
