-- ===== src/Health/Breaker.antt =====
-- The backoff and the circuit breaker over a history of calls.
use mathlib.Core.List.{append-nil, append_assoc}
use native.Mathlib.Nat.{mul-le-mul_left, pow-le-pow_right}
use haniel.Prelude.{
  ◌*◌, ◌^◌, min, sym, ◌∙◌, ℕ, zero, suc, ◌+◌, ◌≤◌, String, ◌≡◌, refl, Bool, true, List, [], ◌∷◌,
  ◌++◌, arith, leb, count, count-append, All, length,
}
use haniel.Health.{
  RestartRecord, ServiceHealth, new_health, record_crash, should_circuit_break, in_window,
}
use haniel.Health.Backoff.{
  Change, become_ready, become_running, reset, crash, change, backoff, IsConsistent,
  new_health-IsConsistent, change-IsConsistent,
}

pub changes : List Change → ServiceHealth → ServiceHealth
changes [] h = h
changes (c ∷ cs) h = changes cs (change c h)

-- The crashes since the service last came up or was reset, counted from the history alone.
pub streak_from : ℕ → List Change → ℕ
streak_from n [] = n
streak_from n (crash _ _ _ ∷ cs) = streak_from (n + 1) cs
streak_from n (become_ready ∷ cs) = streak_from 0 cs
streak_from n (become_running ∷ cs) = streak_from 0 cs
streak_from n (reset ∷ cs) = streak_from 0 cs
streak_from n (_ ∷ cs) = streak_from n cs

changes-IsConsistent :
    (cs : List Change) (h : ServiceHealth) → IsConsistent h → IsConsistent (changes cs h)
unfolding changes
changes-IsConsistent [] h v = v
changes-IsConsistent (c ∷ cs) h v = changes-IsConsistent cs (change c h) (change-IsConsistent c h v)

change_settings :
    (c : Change) (h : ServiceHealth)
    → ((change c h).base_delay ≡ h.base_delay) × ((change c h).max_delay ≡ h.max_delay)
unfolding change
change_settings (crash now code reason) h = (refl, refl)
change_settings _ h = (refl, refl)

changes_settings :
    (cs : List Change) (h : ServiceHealth)
    → ((changes cs h).base_delay ≡ h.base_delay) × ((changes cs h).max_delay ≡ h.max_delay)
unfolding changes
changes_settings [] h = (refl, refl)
changes_settings (c ∷ cs) h = ground (arith, change_settings c h, changes_settings cs (change c h))

changes-failures :
    (cs : List Change) (h : ServiceHealth)
    → (changes cs h).consecutive_failures ≡ streak_from h.consecutive_failures cs
unfolding changes streak_from change
changes-failures [] h = refl
changes-failures (crash now code reason ∷ cs) h = changes-failures cs _
changes-failures (_ ∷ cs) h = changes-failures cs _

-- After any history of a new service the delay is that of the crashes since it last came up: it
-- doubles from the base delay, ten times at most, and is cut off at the maximum.
pub changes-backoff :
    (cs : List Change) (name : String) (t w b m : ℕ)
    → (changes cs (new_health name t w b m)).current_backoff ≡ backoff b m (streak_from 0 cs)
changes-backoff cs name t w b m =
    let fresh = new_health name t w b m in
    let v = changes-IsConsistent cs fresh (new_health-IsConsistent name t w b m) in
    rw
      (
        v.backoff_exact,
        changes-failures,
        (changes_settings cs fresh).0,
        (changes_settings cs fresh).1,
      )
      (unfold new_health in refl)

-- The delay never falls from one crash to the next.
pub backoff_mono : (b m n k : ℕ) → n ≤ k → backoff b m n ≤ backoff b m k
backoff_mono b m zero k h = omega arith
backoff_mono b m (suc n) zero h = absurd (omega arith)
backoff_mono b m (suc n) (suc k) h =
    let p : 2 ^ min n 10 ≤ 2 ^ min k 10 = pow-le-pow_right (omega arith) (omega arith) in
    let q : b * 2 ^ min n 10 ≤ b * 2 ^ min k 10 = mul-le-mul_left b p in omega arith

-- A service that crashes again and again, one record to a crash.
pub crashes : List RestartRecord → ServiceHealth → ServiceHealth
crashes [] h = h
crashes (r ∷ rs) h = crashes rs (record_crash r.timestamp r.exit_code r.reason h)

record AfterCrashes (rs : List RestartRecord) (h h' : ServiceHealth) : Type 0 where
  failures : h'.consecutive_failures ≡ h.consecutive_failures + length rs
  history : h'.restart_history ≡ h.restart_history ++ rs
  threshold : h'.circuit_breaker_threshold ≡ h.circuit_breaker_threshold
  window : h'.circuit_breaker_window ≡ h.circuit_breaker_window

crashes_lem : (rs : List RestartRecord) (h : ServiceHealth) → AfterCrashes rs h (crashes rs h)
unfolding crashes record_crash
crashes_lem [] h = record {
  failures = omega arith;
  history = sym (append-nil h.restart_history);
  threshold = refl;
  window = refl;
}
crashes_lem (r ∷ rs) h =
    let v = crashes_lem rs (record_crash r.timestamp r.exit_code r.reason h) in
    record {
      failures = omega (arith, v.failures);
      history = v.history ∙ append_assoc h.restart_history (r ∷ []) rs;
      threshold = v.threshold;
      window = v.window;
    }

count-All :
    (p : RestartRecord → Bool) (rs : List RestartRecord)
    → All (λ r. p r ≡ true) rs
    → count p rs ≡ length rs
count-All p [] h = refl
count-All p (r ∷ rs) h = ground (arith, count-All p rs h.1)

-- A service with no failure in a row crashes with the given records, all of them still in the
-- window: the breaker trips exactly when they reach the threshold, whatever stood in the history.
pub crashes_trip :
    (rs : List RestartRecord) (h : ServiceHealth) (now : ℕ)
    → h.consecutive_failures ≡ 0
    → All (λ r. in_window now h.circuit_breaker_window r ≡ true) rs
    → should_circuit_break now (crashes rs h) ≡ leb h.circuit_breaker_threshold (length rs)
unfolding should_circuit_break
crashes_trip rs h now clean recent =
    let v = crashes_lem rs h in
    let p = in_window now h.circuit_breaker_window in
    rw
      (
        v.failures,
        v.history,
        v.threshold,
        v.window,
        count-append p h.restart_history rs,
        count-All p rs recent,
      )
      (ground arith)
