-- ===== src/Health/Examples.antt =====
-- Runs of src/haniel/core/health.py at concrete inputs.
use haniel.Prelude.{
  ◌≡◌, refl, not, none, some, List, [], ◌∷◌, map, leb, length, if◌then◌else◌, same,
}
use haniel.Prelude.Int.{pos}
use haniel.Health.{new_health, record_crash, should_circuit_break, RestartRecord}
use haniel.Health.Backoff.{Change, crash, become_ready, backoff}
use haniel.Health.Breaker
use haniel.Health.Breaker.{changes, streak_from, changes-backoff, crashes_trip}
use haniel.Health.Manager.{Manager, init, get_health, should_restart, same_state, Call}
use haniel.Health.Manager
use haniel.Health.Manager.Invariant.{
  Inv, Op, starts, registers, is_ready, step, target, effect, run, run-init-Inv, get_health-step,
  step_calls, crash_answer,
}

abbrev history : List Change
history =
    crash 3 (some (pos 1)) "exit"
    ∷ become_ready
    ∷ crash 9 none "killed"
    ∷ crash 12 none "killed"
    ∷ []

changes-backoff_example :
    (changes history (new_health "bot" 3 60 5 300)).current_backoff
    ≡ backoff 5 300 (streak_from 0 history)
changes-backoff_example = changes-backoff history "bot" 3 60 5 300

abbrev records : List RestartRecord
records =
    record { timestamp = 100; exit_code = none; reason = "killed" }
    ∷ record { timestamp = 110; exit_code = none; reason = "killed" }
    ∷ record { timestamp = 120; exit_code = none; reason = "killed" }
    ∷ []

crashes_trip_example :
    should_circuit_break 130 (Breaker.crashes records (new_health "bot" 3 60 5 300))
    ≡ leb (new_health "bot" 3 60 5 300).circuit_breaker_threshold (length records)
unfolding new_health
crashes_trip_example =
    crashes_trip records (new_health "bot" 3 60 5 300) 130 refl (refl, (refl, (refl, tt)))

abbrev calls : List Op
calls = registers 7 ∷ starts 1 "bot" ∷ is_ready "bot" ∷ Op.crashes 20 21 "bot" none "killed" ∷ []

abbrev manager : Manager
manager = run calls (init 5 300 3 60)

run-init-Inv_example : Inv manager
run-init-Inv_example = run-init-Inv calls 5 300 3 60

get_health-step_example : get_health (step (starts 30 "bot") manager).0 "web" ≡ (
    if same (target (starts 30 "bot")) (some "web")
    then effect (starts 30 "bot") (get_health manager "web")
    else get_health manager "web")
get_health-step_example = get_health-step (starts 30 "bot") manager "web"

step_calls_example : (step (starts 30 "bot") manager).1 ≡ (
    let old = (get_health manager "bot").state in
    let new = (effect (starts 30 "bot") (get_health manager "bot")).state in
    if same_state old new
    then []
    else map
        (λ c. record { callback = c; service = "bot"; old_state = old; new_state = new })
        manager.callbacks)
step_calls_example = step_calls (starts 30 "bot") manager "bot" refl

crash_answer_example :
    (should_restart (Manager.crash 40 41 "bot" none "killed" manager).0 "bot"
      ≡ not (should_circuit_break 41 (record_crash 40 none "killed" (get_health manager "bot"))))
    × ((Manager.crash 40 41 "bot" none "killed" manager).2 ≡ (
        if should_circuit_break 41 (record_crash 40 none "killed" (get_health manager "bot"))
        then 0
        else (record_crash 40 none "killed" (get_health manager "bot")).current_backoff))
crash_answer_example = crash_answer 40 41 "bot" none "killed" manager
