-- ===== src/Deployment/Bounds.antt =====
-- How long and how often the retries of src/haniel/core/deployment_verification.py run: the waiting
-- against the grace of the policy, the commands against its number of attempts.
use haniel.Prelude.{
  ℕ, zero, suc, ap, ◌+◌, ◌-◌, ◌*◌, ◌≤◌, List, [], ◌∷◌, arith, eqb, Bool-cases, inl, inr,
}
use haniel.Errors.{Exn}
use haniel.Errors.Result.{Result, ok, raise, Result-cases}
use haniel.Deployment.Machine.{CommandSpec, Environment, Event, waited, ran, Machine, World, Action}
use haniel.Deployment.Retrying.{
  RetrySpec, Label, Numeral, delay_of, turn, retry_loop, run_with_retry, ignoring, run,
  verify_label, verify_with_retry,
}

-- The seconds of the waits among the calls, and the commands among them.
unfoldable pub waiting : List Event → ℕ
waiting [] = 0
waiting (waited n ∷ t) = n + waiting t
waiting (_ ∷ t) = waiting t

-- What the commands among the calls cost, by a cost of each command.
unfoldable pub spent : (CommandSpec → ℕ) → List Event → ℕ
spent cost [] = 0
spent cost (ran site command env ∷ t) = cost command + spent cost t
spent cost (_ ∷ t) = spent cost t

-- The grace that a retry loop gives back.
abbrev pub left_of : Result ℕ → ℕ
left_of (ok g) = g
left_of (raise e) = 0

-- An outcome within limits: what it waited together with the grace it gives back, and what its
-- commands cost.
abbrev pub Within : (cost : CommandSpec → ℕ) → (seconds limit : ℕ) → Result ℕ × Machine → Type 0
Within cost seconds limit (r, m) =
    (waiting m.trace + left_of r ≤ seconds) × (spent cost m.trace ≤ limit)

delay-le : (policy : RetrySpec) (n grace : ℕ) → delay_of policy n grace ≤ grace
delay-le policy n grace = omega arith

first_time : (a l t h : ℕ) → a + suc l * t ≤ h → a + t ≤ h
first_time a l t h e = grind (arith, e)

next_time : (a l t h : ℕ) → a + suc (suc l) * t ≤ h → t + a + suc l * t ≤ h
next_time a l t h e = grind (arith, e)

module _ (w : World) (numeral : Numeral) (command : CommandSpec) (env : Environment)
    (cost : CommandSpec → ℕ) where
  abbrev operation : Action (Unit {0})
  operation = ignoring w numeral (run w numeral "verify" command env)

  -- The machine after the question for a shutdown, and after the command.
  abbrev asked : Machine → Machine
  asked m = record m { trace = waited 0 ∷ m.trace }

  abbrev tried : Machine → Machine
  tried m = record m { trace = ran "verify" command env ∷ waited 0 ∷ m.trace }

  turn-Within :
      (label : Label) (grace : ℕ) (again : Exn → Action ℕ) (m : Machine) (s h : ℕ)
      → waiting m.trace + grace ≤ s
      → spent cost m.trace + cost command ≤ h
      → ((e : Exn) → Within cost s h (again e (tried m)))
      → Within cost s h (turn w numeral label operation grace again m)
  unfolding waiting spent
  turn-Within label grace again m s h hs ht more = elim (Bool-cases (w.shutdown m 0)) [
    | inl t ↦ rw t (omega (arith, hs), omega (arith, ht))
    | inr t ↦ rw t (elim (Result-cases (w.command (asked m) "verify" command env)) [
      | inl (a, e) ↦ rw e (omega (arith, hs), omega (arith, ht))
      | inr (x, e) ↦ rw e (elim (Bool-cases (label.retry_if x)) [
        | inl r ↦ rw r (more x)
        | inr r ↦ rw r (omega (arith, hs), omega (arith, ht))
      ])
    ])
  ]

  retry_loop-Within :
      (label : Label) (policy : RetrySpec) (left n grace : ℕ) (m : Machine) (s h : ℕ)
      → waiting m.trace + grace ≤ s
      → spent cost m.trace + suc left * cost command ≤ h
      → Within cost s h (retry_loop w numeral label operation policy left n grace m)
  unfolding retry_loop waiting spent
  retry_loop-Within label policy zero n grace m s h hs ht =
      turn-Within label grace _ m s h hs (grind (arith, ht))
        (λ e. (omega (arith, hs), grind (arith, ht)))
  retry_loop-Within label policy (suc left) n grace m s h hs ht =
      let d = delay_of policy n grace in
      let one : spent cost m.trace + cost command ≤ h =
        first_time (spent cost m.trace) (suc left) (cost command) h ht in
      turn-Within label grace _ m s h hs one (λ e. elim (Bool-cases (eqb grace 0)) [
        | inl t ↦ rw t (omega (arith, hs), omega (arith, one))
        | inr t ↦ rw t (elim (Bool-cases (w.shutdown (tried m) d)) [
          | inl u ↦ rw u (omega (arith, hs, delay-le policy n grace), omega (arith, one))
          | inr u ↦ rw u (
              retry_loop-Within label policy left (suc n) (grace - d)
                (record m { trace = waited d ∷ ran "verify" command env ∷ waited 0 ∷ m.trace }) s h
                (omega (arith, hs, delay-le policy n grace))
                (next_time (spent cost m.trace) left (cost command) h ht))
        ])
      ])

-- One command under its policy: what the loop waits, together with the grace that it gives back, is
-- no more than the grace it is given, and the command's cost is spent once for each attempt of the
-- policy at most (a policy of no attempts counts as one of one).
pub run_with_retry-Within :
    (w : World) (numeral : Numeral) (command : CommandSpec) (env : Environment)
    (cost : CommandSpec → ℕ) (label : Label) (policy : RetrySpec) (grace : ℕ) (m : Machine)
    → Within cost
        (waiting m.trace + grace)
        (spent cost m.trace + suc (policy.max_attempts - 1) * cost command)
        (run_with_retry w numeral label
          (ignoring w numeral (run w numeral "verify" command env))
          policy
          grace
          m)
unfolding run_with_retry
run_with_retry-Within w numeral command env cost label policy grace m =
    retry_loop-Within w numeral command env cost label policy (policy.max_attempts - 1) 1 grace m _
      _ (omega arith) (omega arith)

-- `sum(command.timeout_seconds for command in commands)`, for any cost.
abbrev pub sum_of_costs : (CommandSpec → ℕ) → List CommandSpec → ℕ
sum_of_costs cost [] = 0
sum_of_costs cost (command ∷ commands) = cost command + sum_of_costs cost commands

abbrev pub timeouts : List CommandSpec → ℕ
timeouts commands = sum_of_costs (λ c. c.timeout_seconds) commands

-- The shares of one command and of the others add up.
onward :
    (before first after k x y : ℕ)
    → first ≤ before + k * x
    → after ≤ first + k * y
    → after ≤ before + k * (x + y)
onward before first after k x y a b = grind (arith, a, b)

once : (before first k x y : ℕ) → first ≤ before + k * x → first ≤ before + k * (x + y)
once before first k x y a = grind (arith, a)

-- All the commands of the verification together, however they and the waiter answer. Their retries wait
-- for the total grace at most. And whatever the commands cost, each costs as often as the policy has
-- attempts at most, for each time that it is listed: a cost of one for one command and of zero for the
-- others bounds the runs of that command, the limits of the commands as their cost bound the seconds. A policy of
-- no attempts counts as one of one.
pub verify_with_retry-bounded :
    (w : World) (numeral : Numeral) (commands : List CommandSpec) (env : Environment)
    (policy : RetrySpec) (grace : ℕ) (m : Machine) (cost : CommandSpec → ℕ)
    → (waiting (verify_with_retry w numeral commands env policy grace m).1.trace
        ≤ waiting m.trace + grace)
      × (spent cost (verify_with_retry w numeral commands env policy grace m).1.trace
          ≤ spent cost m.trace + suc (policy.max_attempts - 1) * sum_of_costs cost commands)
unfolding verify_with_retry
verify_with_retry-bounded w numeral [] env policy grace m cost = (omega arith, grind arith)
verify_with_retry-bounded w numeral (command ∷ commands) env policy grace m cost =
    let label = verify_label w numeral command in
    let first =
      run_with_retry w numeral label (ignoring w numeral (run w numeral "verify" command env))
        policy grace m in
    let b = run_with_retry-Within w numeral command env cost label policy grace m in
    let k = suc (policy.max_attempts - 1) in
    elim (Result-cases first.0) [
      | inl (g, e) ↦
          let rest = verify_with_retry-bounded w numeral commands env policy g first.1 cost in
          rw e (
            omega (arith, rest.0, b.0, ap left_of e),
            onward _ _ _ k (cost command) (sum_of_costs cost commands) b.1 rest.1,
          )
      | inr (x, e) ↦ rw e (
        omega (arith, b.0, ap left_of e),
        once _ _ k (cost command) (sum_of_costs cost commands) b.1,
      )
    ]
