-- ===== src/Health/Backoff.antt =====
-- What each method of `ServiceHealth` keeps: the backoff is a function of the failures in a row.
use haniel.Prelude.{
  ℕ, zero, suc, ◌*◌, ◌^◌, ◌≤◌, min, String, ◌≡◌, ◌⊎◌, Option, arith, length, length-append,
}
use haniel.Prelude.Int.{ℤ}
use haniel.Health.{
  ready, running, ServiceHealth, new_health, record_start, record_ready, record_running,
  record_stop, record_stopping, record_crash, record_circuit_open, reset_circuit,
}

-- The delay after `failures` crashes in a row: it doubles from `base`, ten times at most, up to `max`.
abbrev pub backoff : (base max failures : ℕ) → ℕ
backoff base max zero = 0
backoff base max (suc n) = min (base * 2 ^ min n 10) max

pub record IsConsistent (h : ServiceHealth) : Type 0 where
  pub backoff_exact : h.current_backoff ≡ backoff h.base_delay h.max_delay h.consecutive_failures
  pub failures_counted : h.consecutive_failures ≤ h.restart_count
  pub crashes_recorded : h.restart_count ≡ length h.restart_history
  pub up_is_clean : (h.state ≡ ready) ⊎ (h.state ≡ running) → h.consecutive_failures ≡ 0

-- The calls that change one service's health.
pub data Change : Type 0 where
  start : (now : ℕ) → Change
  become_ready become_running stop begin_stop open_circuit reset : Change
  crash : (now : ℕ) → Option ℤ → String → Change

unfoldable pub change : Change → ServiceHealth → ServiceHealth
unfolding record_start record_ready record_running record_stop record_stopping record_crash
    record_circuit_open reset_circuit
change (start now) h = record_start now h
change become_ready h = record_ready h
change become_running h = record_running h
change stop h = record_stop h
change begin_stop h = record_stopping h
change open_circuit h = record_circuit_open h
change reset h = reset_circuit h
change (crash now code reason) h = record_crash now code reason h

pub new_health-IsConsistent : (name : String) (t w b m : ℕ) → IsConsistent (new_health name t w b m)
unfolding new_health
new_health-IsConsistent name t w b m = ground arith

pub change-IsConsistent :
    (c : Change) (h : ServiceHealth) → IsConsistent h → IsConsistent (change c h)
unfolding change
change-IsConsistent (crash now code reason) h v = record {
  backoff_exact = ground arith;
  failures_counted = omega arith;
  crashes_recorded = omega (arith, length-append {0});
  up_is_clean = ground arith;
}
change-IsConsistent _ h v = ground arith
