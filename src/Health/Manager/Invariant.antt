-- ===== src/Health/Manager/Invariant.antt =====
-- What every call on the health manager keeps and reports.
use mathlib.Core.Option.{some-injective}
use haniel.Prelude.{
  eq_refl, ℕ, String, ◌≡◌, refl, inl, inr, Option, none, some, List, [], ◌∷◌, map, arith, eq_iff,
  ◌==◌, if◌then◌else◌, Bool-cases, sym, ◌∙◌, not, same,
}
use haniel.Prelude.Int.{ℤ}
use haniel.Prelude.Dict
use haniel.Prelude.Dict.{dict_laws, get-put}
use haniel.Health.{
  ServiceHealth, new_health, record_start, record_ready, record_running, record_stop,
  record_stopping, record_crash, record_circuit_open, reset_circuit, should_circuit_break,
}
use haniel.Health.Backoff.{
  Change, change, IsConsistent, new_health-IsConsistent, change-IsConsistent,
}
use haniel.Health.Manager.{
  Manager, Call, same_state, init, get_health, save, notify, tracked, after_crash, crash, start,
  become_ready, become_running, stop, begin_stop, reset, should_restart, add_callback,
}

-- The entry of a service is consistent, bears its name, and has the manager's settings.
pub record IsOwned (m : Manager) (name : String) (h : ServiceHealth) : Type 0 where
  pub consistent : IsConsistent h
  pub named : h.service_name ≡ name
  pub base : h.base_delay ≡ m.base_delay
  pub cap : h.max_delay ≡ m.max_delay
  pub threshold : h.circuit_breaker_threshold ≡ m.circuit_breaker_threshold
  pub window : h.circuit_breaker_window ≡ m.circuit_breaker_window

pub record Inv (m : Manager) : Type 0 where
  pub owned : (name : String) → IsOwned m name (get_health m name)

-- The calls on the manager that change it.
pub data Op : Type 0 where
  starts : (now : ℕ) → String → Op
  is_ready is_running stops begins_stop resets : String → Op
  crashes : (at now : ℕ) → String → Option ℤ → String → Op
  registers : ℕ → Op

pub step : Op → Manager → Manager × List Call
unfolding tracked crash start become_ready become_running stop begin_stop reset
step (starts now name) m = start now name m
step (is_ready name) m = become_ready name m
step (is_running name) m = become_running name m
step (stops name) m = stop name m
step (begins_stop name) m = begin_stop name m
step (resets name) m = reset name m
step (crashes at now name code reason) m = let r = crash at now name code reason m in (r.0, r.1)
step (registers c) m = (add_callback c m, [])

-- The service that a call names, and what it does to the service's entry.
abbrev pub target : Op → Option String
target (starts now name) = some name
target (is_ready name) = some name
target (is_running name) = some name
target (stops name) = some name
target (begins_stop name) = some name
target (resets name) = some name
target (crashes at now name code reason) = some name
target (registers c) = none

pub effect : Op → ServiceHealth → ServiceHealth
unfolding after_crash
effect (starts now name) h = record_start now h
effect (is_ready name) h = record_ready h
effect (is_running name) h = record_running h
effect (stops name) h = record_stop h
effect (begins_stop name) h = record_stopping h
effect (resets name) h = reset_circuit h
effect (crashes at now name code reason) h = after_crash at now code reason h
effect (registers c) h = h

get_health-save :
    (m : Manager) (name other : String) (h : ServiceHealth)
    → get_health (save name h m) other ≡ (if name == other then h else get_health m other)
unfolding get_health save
get_health-save m name other h = ground (arith, get-put name other h m.services)

get_health-tracked :
    (f : ServiceHealth → ServiceHealth) (m : Manager) (name other : String)
    → get_health (tracked f name m).0 other
      ≡ (if name == other then f (get_health m other) else get_health m other)
unfolding tracked
get_health-tracked f m name other =
    ground (arith, get_health-save m name other (f (get_health m name)), eq_iff name other)

get_health-crash :
    (at now : ℕ) (code : Option ℤ) (reason : String) (m : Manager) (name other : String)
    → get_health (crash at now name code reason m).0 other ≡ (
        if name == other
        then after_crash at now code reason (get_health m other)
        else get_health m other)
unfolding crash after_crash
get_health-crash at now code reason m name other =
    let h = record_crash at code reason (get_health m name) in
    ground (
      arith,
      get_health-save m name other h,
      get_health-save m name other (record_circuit_open h),
      eq_iff name other,
    )

-- A call changes the entry of the service that it names, by its effect, and no other entry.
pub get_health-step :
    (op : Op) (m : Manager) (other : String)
    → get_health (step op m).0 other ≡ (
        if same (target op) (some other)
        then effect op (get_health m other)
        else get_health m other)
unfolding step effect
get_health-step (starts now name) m other = get_health-tracked (record_start now) m name other
get_health-step (is_ready name) m other = get_health-tracked record_ready m name other
get_health-step (is_running name) m other = get_health-tracked record_running m name other
get_health-step (stops name) m other = get_health-tracked record_stop m name other
get_health-step (begins_stop name) m other = get_health-tracked record_stopping m name other
get_health-step (resets name) m other = get_health-tracked reset_circuit m name other
get_health-step (crashes at now name code reason) m other =
    get_health-crash at now code reason m name other
get_health-step (registers c) m other = unfold get_health add_callback in refl

crash_calls :
    (at now : ℕ) (name : String) (code : Option ℤ) (reason : String) (m : Manager)
    → (crash at now name code reason m).1
      ≡ notify m name
          (get_health m name).state
          (after_crash at now code reason (get_health m name)).state
unfolding crash after_crash
crash_calls at now name code reason m =
    let h = record_crash at code reason (get_health m name) in
    elim (Bool-cases (should_circuit_break now h)) [ inl t ↦ rw t | inr f ↦ rw f ]

-- Every callback is told once of a change of state, with the states before and after the call, and
-- no callback is told when the state stays the same.
pub step_calls :
    (op : Op) (m : Manager) (name : String)
    → target op ≡ some name
    → (step op m).1 ≡ (
        let old = (get_health m name).state in
        let new = (effect op (get_health m name)).state in
        if same_state old new
        then []
        else map
            (λ c. record { callback = c; service = name; old_state = old; new_state = new })
            m.callbacks)
unfolding step notify effect
step_calls (starts now n) m name h = ground arith
step_calls (crashes at now n code reason) m name h =
    let e : n ≡ name = some-injective n name h in rw (← e) (crash_calls at now n code reason m)
step_calls (registers c) m name h = cc
step_calls _ m name h = ground arith

IsOwned-change :
    (c : Change) (m : Manager) (name : String) (h : ServiceHealth)
    → IsOwned m name h
    → IsOwned m name (change c h)
unfolding change
IsOwned-change (Change.crash now code reason) m name h v = record {
  consistent = change-IsConsistent (Change.crash now code reason) h v.consistent;
  named = v.named;
  base = v.base;
  cap = v.cap;
  threshold = v.threshold;
  window = v.window;
}
IsOwned-change c m name h v = record {
  consistent = change-IsConsistent c h v.consistent;
  named = v.named;
  base = v.base;
  cap = v.cap;
  threshold = v.threshold;
  window = v.window;
}

effect-IsOwned :
    (op : Op) (m : Manager) (name : String) (h : ServiceHealth)
    → IsOwned m name h
    → IsOwned m name (effect op h)
unfolding effect change
effect-IsOwned (crashes at now n code reason) m name h v =
    let crashed = IsOwned-change (Change.crash at code reason) m name h v in
    elim (Bool-cases (should_circuit_break now (record_crash at code reason h))) [
      | inl trips ↦ rw trips (IsOwned-change Change.open_circuit m name _ crashed)
      | inr holds ↦ rw holds crashed
    ]
effect-IsOwned (starts now n) m name h v = IsOwned-change (Change.start now) m name h v
effect-IsOwned (is_ready n) m name h v = IsOwned-change Change.become_ready m name h v
effect-IsOwned (is_running n) m name h v = IsOwned-change Change.become_running m name h v
effect-IsOwned (stops n) m name h v = IsOwned-change Change.stop m name h v
effect-IsOwned (begins_stop n) m name h v = IsOwned-change Change.begin_stop m name h v
effect-IsOwned (resets n) m name h v = IsOwned-change Change.reset m name h v
effect-IsOwned (registers c) m name h v = v

record SameSettings (m m' : Manager) : Type 0 where
  base : m'.base_delay ≡ m.base_delay
  cap : m'.max_delay ≡ m.max_delay
  threshold : m'.circuit_breaker_threshold ≡ m.circuit_breaker_threshold
  window : m'.circuit_breaker_window ≡ m.circuit_breaker_window

step-settings : (op : Op) (m : Manager) → SameSettings m (step op m).0
unfolding step add_callback
step-settings (crashes at now n code reason) m = ground arith
step-settings (starts now n) m = ground arith
step-settings _ m = ground arith

-- Each call keeps every entry of the dict, those of other services included, consistent, under its
-- own name and at the manager's settings.
pub step-Inv : (op : Op) (m : Manager) → Inv m → Inv (step op m).0
step-Inv op m v = record {
  owned = λ name.
      let s = step-settings op m in
      let kept : IsOwned m name (get_health (step op m).0 name) =
        rw get_health-step (elim (Bool-cases (same (target op) (some name))) [
          | inl hit ↦ rw hit (effect-IsOwned op m name (get_health m name) (v.owned name))
          | inr miss ↦ rw miss (v.owned name)
        ]) in
      record {
        consistent = kept.consistent;
        named = kept.named;
        base = kept.base ∙ sym s.base;
        cap = kept.cap ∙ sym s.cap;
        threshold = kept.threshold ∙ sym s.threshold;
        window = kept.window ∙ sym s.window;
      };
}

pub init-Inv : (base cap threshold window : ℕ) → Inv (init base cap threshold window)
init-Inv base cap threshold window = record {
  owned = λ name.
      unfold init get_health Dict.get new_health in
      record {
        consistent = unfold new_health in new_health-IsConsistent name threshold window base cap;
        named = refl;
        base = refl;
        cap = refl;
        threshold = refl;
        window = refl;
      };
}

pub run : List Op → Manager → Manager
run [] m = m
run (op ∷ ops) m = run ops (step op m).0

run-Inv : (ops : List Op) (m : Manager) → Inv m → Inv (run ops m)
unfolding run
run-Inv [] m v = v
run-Inv (op ∷ ops) m v = run-Inv ops (step op m).0 (step-Inv op m v)

-- After any calls on a new manager, the entry of every service bears its name and the settings of the
-- manager, and its delay is that of its failures in a row.
pub run-init-Inv :
    (ops : List Op) (base cap threshold window : ℕ) → Inv (run ops (init base cap threshold window))
run-init-Inv ops base cap threshold window = run-Inv ops _ (init-Inv base cap threshold window)

-- `record_crash` answers 0 and the service is not to be restarted exactly when the breaker trips
-- over the updated history; otherwise it answers the new backoff, and a restart is allowed.
pub crash_answer :
    (at now : ℕ) (name : String) (code : Option ℤ) (reason : String) (m : Manager)
    → let h = record_crash at code reason (get_health m name) in
      let r = crash at now name code reason m in
      (should_restart r.0 name ≡ not (should_circuit_break now h))
      × (r.2 ≡ (if should_circuit_break now h then 0 else h.current_backoff))
crash_answer at now name code reason m =
    let h = record_crash at code reason (get_health m name) in
    elim (Bool-cases (should_circuit_break now h)) [
      | inl trips ↦ (
        unfold should_restart in
            rw (get_health-crash, eq_refl) (unfold after_crash record_circuit_open in rw trips),
        unfold crash in rw trips,
      )
      | inr holds ↦ (
        unfold should_restart in
            rw (get_health-crash, eq_refl) (unfold after_crash record_crash in rw holds),
        unfold crash in rw holds,
      )
    ]
