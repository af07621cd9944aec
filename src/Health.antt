-- ===== src/Health.antt =====
-- src/haniel/core/health.py: the health of each service, the backoff of its restarts and the
-- circuit breaker. Times and delays are whole numbers of one unit and the configured bounds are
-- not negative; each reading of the clock is an argument. A method returns the new object; a
-- method of the manager returns the callbacks that it calls, in order, beside the new manager.
pub mod Backoff
pub mod Breaker
pub mod Manager
mod Examples
use haniel.Prelude.{
  ℕ, zero, suc, ◌+◌, ◌-◌, ◌*◌, ◌^◌, min, String, Bool, true, false, Option, none, some, List, [],
  ◌∷◌, ◌++◌, ltb, leb, count, if◌then◌else◌,
}
use haniel.Prelude.Int.{ℤ}

pub data ServiceState : Type 0 where
  stopped starting ready running stopping crashed circuit_open : ServiceState

pub record RestartRecord : Type 0 where
  pub timestamp : ℕ
  pub exit_code : Option ℤ
  pub reason : String

pub record ServiceHealth : Type 0 where
  pub service_name : String
  pub state : ServiceState
  pub start_time : Option ℕ
  pub restart_count : ℕ
  pub consecutive_failures : ℕ
  pub last_exit_code : Option ℤ
  pub restart_history : List RestartRecord
  pub circuit_breaker_threshold : ℕ
  pub circuit_breaker_window : ℕ
  pub base_delay : ℕ
  pub max_delay : ℕ
  pub current_backoff : ℕ

-- The constructor call with the manager's four settings and the defaults of the other fields.
unfoldable pub new_health : String → (threshold window base max : ℕ) → ServiceHealth
new_health name threshold window base max = record {
  service_name = name;
  state = stopped;
  start_time = none;
  restart_count = 0;
  consecutive_failures = 0;
  last_exit_code = none;
  restart_history = [];
  circuit_breaker_threshold = threshold;
  circuit_breaker_window = window;
  base_delay = base;
  max_delay = max;
  current_backoff = 0;
}

unfoldable pub record_start : (now : ℕ) → ServiceHealth → ServiceHealth
record_start now h = record h { state = starting; start_time = some now }

unfoldable pub record_ready : ServiceHealth → ServiceHealth
record_ready h = record h { state = ready; consecutive_failures = 0; current_backoff = 0 }

unfoldable pub record_running : ServiceHealth → ServiceHealth
record_running h = record h { state = running; consecutive_failures = 0; current_backoff = 0 }

unfoldable pub record_stop : ServiceHealth → ServiceHealth
record_stop h = record h { state = stopped; start_time = none }

unfoldable pub record_stopping : ServiceHealth → ServiceHealth
record_stopping h = record h { state = stopping }

-- `_update_backoff`; it runs after `consecutive_failures += 1`, so the truncated `-` is exact.
unfoldable pub update_backoff : ServiceHealth → ServiceHealth
update_backoff h =
    let exponent = min (h.consecutive_failures - 1) 10 in
    let delay = h.base_delay * 2 ^ exponent in record h { current_backoff = min delay h.max_delay }

unfoldable pub record_crash : (now : ℕ) → Option ℤ → String → ServiceHealth → ServiceHealth
unfolding update_backoff
record_crash now exit_code reason h = update_backoff (record h {
  state = crashed;
  last_exit_code = exit_code;
  consecutive_failures = h.consecutive_failures + 1;
  restart_count = h.restart_count + 1;
  restart_history =
      h.restart_history ++ record { timestamp = now; exit_code = exit_code; reason = reason } ∷ [];
})

unfoldable pub record_circuit_open : ServiceHealth → ServiceHealth
record_circuit_open h = record h { state = circuit_open }

unfoldable pub reset_circuit : ServiceHealth → ServiceHealth
reset_circuit h = record h { state = stopped; consecutive_failures = 0; current_backoff = 0 }

abbrev pub get_restart_delay : ServiceHealth → ℕ
get_restart_delay h = h.current_backoff

-- `record.timestamp >= now - window`: times are not negative, so cutting off at 0 changes nothing.
abbrev pub in_window : (now window : ℕ) → RestartRecord → Bool
in_window now window r = leb (now - window) r.timestamp

unfoldable pub should_circuit_break : (now : ℕ) → ServiceHealth → Bool
should_circuit_break now h =
    if ltb h.consecutive_failures h.circuit_breaker_threshold
    then false
    else leb h.circuit_breaker_threshold
        (count (in_window now h.circuit_breaker_window) h.restart_history)

abbrev is_up : ServiceState → Bool
is_up starting = true
is_up ready = true
is_up running = true
is_up _ = false

-- A start time in the future, by a clock that was set back, would be a negative uptime.
unfoldable pub get_uptime : (now : ℕ) → ServiceHealth → Option ℕ
get_uptime now h = elim h.start_time [
  | none ↦ none
  | some started ↦ if is_up h.state then some (now - started) else none
]
