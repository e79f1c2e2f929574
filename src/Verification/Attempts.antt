-- ===== src/Verification/Attempts.antt =====
-- The ordinals of the attempts that a loop of verification.py makes, and of its result.
use control_plane_kit_interp.Base.{
  ℕ, zero, suc, ◌+◌, ◌≤◌, ◌<◌, Bool, true, false, ◌≡◌, refl, if◌then◌else◌, arith,
}
use control_plane_kit_interp.Effect.{returned, Eff}
use control_plane_kit_interp.Effect.Laws.{>>=-eq-returned}
use control_plane_kit_interp.Verification.{
  CheckPolicy, Completed, is_passed, Step, again, stop, step_of, settle_step, pause, attempts_from,
  run_attempts,
}

-- A step that is judged by its result, which has the ordinal of the attempt.
abbrev pub IsStamped : ℕ → Step → Type 0
IsStamped n (again result) = (is_passed result.outcome ≡ false) × (result.attempts ≡ n)
IsStamped n (stop result) = (is_passed result.outcome ≡ true) × (result.attempts ≡ n)

-- The branch that a Boolean takes, with its equation.
judged-IsStamped :
    (b : Bool) (n : ℕ) (result : Completed)
    → is_passed result.outcome ≡ b
    → result.attempts ≡ n
    → IsStamped n (if b then stop result else again result)
judged-IsStamped true n result e h = (e, h)
judged-IsStamped false n result e h = (e, h)

pub step_of-IsStamped :
    (n : ℕ) (result : Completed) → result.attempts ≡ n → IsStamped n (step_of result)
step_of-IsStamped n result h = judged-IsStamped (is_passed result.outcome) n result refl h

pub record Stamps {D : Type 0} (body : ℕ → Eff D Step) : Type 0 where
  pub at : (n : ℕ) (d d' : D) (step : Step) → body n d ≡ (returned step, d') → IsStamped n step

-- A result that the attempts from `first` on, up to but without `end`, came to.
abbrev pub IsSpent : ℕ → ℕ → Completed → Type 0
IsSpent first end result =
    (first ≤ result.attempts + 1)
    × (result.attempts < end)
    × (is_passed result.outcome ≡ false → result.attempts + 1 ≡ end)

module _ {D : Type 0} (sleep : Eff D (Unit {0})) (body : ℕ → Eff D Step)
    (stamps : Stamps body) where
  -- With no attempt left, the result so far must be that of the last one.
  abbrev Spends : ℕ → Type 0
  Spends left =
      (n : ℕ) (last : Completed) (d d' : D) (result : Completed)
      → (left ≡ 0 → (is_passed last.outcome ≡ false) × (last.attempts + 1 ≡ n))
      → attempts_from sleep left n body last d ≡ (returned result, d')
      → IsSpent n (n + left) result

  settle_step-IsSpent :
      (left n : ℕ) (step : Step) (d d' : D) (result : Completed)
      → Spends left
      → IsStamped n step
      → settle_step sleep (attempts_from sleep left (suc n) body) step d ≡ (returned result, d')
      → (n ≤ result.attempts)
        × (result.attempts < n + suc left)
        × (is_passed result.outcome ≡ false → result.attempts + 1 ≡ n + suc left)
  settle_step-IsSpent left n (stop seen) d d' result more (passed, at) h =
      let same : seen ≡ result = ground arith in
      rw (← same) (omega arith, omega arith, λ e. absurd (cc (passed, e)))
  settle_step-IsSpent left n (again seen) d d' result more (failed, at) h =
      let (first, below, last) = more (suc n) seen d d' result (λ e. (failed, omega arith)) h in
      (omega arith, omega arith, λ e. omega (arith, last e))

  round-IsSpent :
      (left n : ℕ) (last : Completed) (d d' : D) (result : Completed)
      → Spends left
      → attempts_from sleep (suc left) n body last d ≡ (returned result, d')
      → (n ≤ result.attempts)
        × (result.attempts < n + suc left)
        × (is_passed result.outcome ≡ false → result.attempts + 1 ≡ n + suc left)
  unfolding attempts_from
  round-IsSpent left n last d d' result more h =
      let (_, e, _, rest) = >>=-eq-returned (pause sleep n) _ h in
      let (step, e', judged, final) = >>=-eq-returned (body n) _ rest in
      settle_step-IsSpent left n step e' d' result more (stamps.at n e e' step judged) final

  attempts_from-IsSpent : (left : ℕ) → Spends left
  unfolding attempts_from
  attempts_from-IsSpent zero n last d d' result ends h =
      let same : last ≡ result = ground arith in
      let (failed, at) = ends refl in rw (← same) (omega arith, omega arith, λ e. omega arith)
  attempts_from-IsSpent (suc left) n last d d' result ends h =
      let (first, below, last_one) =
        round-IsSpent left n last d d' result (attempts_from-IsSpent left) h in
      (omega arith, below, last_one)

  some_attempts-IsSpent :
      (maximum : ℕ) (last : Completed) (d d' : D) (result : Completed)
      → 1 ≤ maximum
      → attempts_from sleep maximum 1 body last d ≡ (returned result, d')
      → (1 ≤ result.attempts)
        × (result.attempts ≤ maximum)
        × (is_passed result.outcome ≡ false → result.attempts ≡ maximum)
  some_attempts-IsSpent zero last d d' result bound h = absurd (omega arith)
  some_attempts-IsSpent (suc left) last d d' result bound h =
      let (first, below, last_one) =
        round-IsSpent left 1 last d d' result (attempts_from-IsSpent left) h in
      (first, omega arith, λ not_passed. omega (arith, last_one not_passed))

  -- The result of a whole loop with at least one attempt.
  pub run_attempts-IsSpent :
      (policy : CheckPolicy) (last : Completed) (d d' : D) (result : Completed)
      → 1 ≤ policy.maximum_attempts
      → run_attempts sleep policy body last d ≡ (returned result, d')
      → (1 ≤ result.attempts)
        × (result.attempts ≤ policy.maximum_attempts)
        × (is_passed result.outcome ≡ false → result.attempts ≡ policy.maximum_attempts)
  unfolding run_attempts
  run_attempts-IsSpent policy last d d' result bound h =
      some_attempts-IsSpent policy.maximum_attempts last d d' result bound h
