-- ===== src/Verification/Redis/Spent.antt =====
-- The attempts that a check of Redis (verification.py) takes.
use control_plane_kit_interp.Base.{
  ℕ, ◌≤◌, Option, none, some, ◌≡◌, ◌⊎◌, inl, inr, refl, true, false, Bool-cases, List, arith,
}
use control_plane_kit_interp.Effect.{Outcome, returned, raised, pure, Exc}
use control_plane_kit_interp.Effect.Laws.{>>=-eq-returned}
use control_plane_kit_interp.Probes.Security.{
  Verdict, allowed, blocked, broke, Target, authorize_probe_endpoint,
}
use control_plane_kit_interp.Verification.{
  CheckOutcome, failed, rejected, Evidence, CheckKind, http_check, postgres_check, redis_check,
  other_check, CheckMaterial, Completed, completed, is_passed, observation_of, Step, step_of,
  run_attempts,
}
use control_plane_kit_interp.Verification.Attempts.{
  IsStamped, step_of-IsStamped, Stamps, run_attempts-IsSpent,
}
use control_plane_kit_interp.Verification.Redis.{
  RedisInterpreter, seen, caught, after_ping, outcome_of_error, redis_attempt, run_redis, by_kind,
  execute_redis,
}

module _ {D : Type 0} (self : RedisInterpreter D) (material : CheckMaterial) where
  seen-IsStamped :
      (outcome : CheckOutcome) (n : ℕ) (evidence : Option Evidence) (step : Step)
      → returned (step_of (seen self material outcome n evidence)) ≡ returned step
      → IsStamped n step
  unfolding observation_of
  seen-IsStamped outcome n evidence step h =
      let same : step_of (seen self material outcome n evidence) ≡ step = ground arith in
      rw (← same) (step_of-IsStamped n (seen self material outcome n evidence) refl)

  caught-IsStamped :
      (n : ℕ) (e : Exc) (outcome : Option CheckOutcome) (step : Step)
      → caught self material n e outcome ≡ returned step
      → IsStamped n step
  caught-IsStamped n e none step h = absurd (ground arith)
  caught-IsStamped n e (some outcome) step h = seen-IsStamped outcome n none step h

  after_ping-IsStamped :
      (n : ℕ) (answer : Outcome (List ℕ)) (step : Step)
      → after_ping self material n answer ≡ returned step
      → IsStamped n step
  after_ping-IsStamped n (returned response) step h = seen-IsStamped _ n _ step h
  after_ping-IsStamped n (raised e) step h =
      caught-IsStamped n e (outcome_of_error self.errors e) step h

  redis_attempt-Stamps : (target : Target) → Stamps (redis_attempt self material target)
  unfolding redis_attempt
  redis_attempt-Stamps target = record {
    at = λ n d d' step h. after_ping-IsStamped n _ step (λ i. (h i).0);
  }

  -- A result that was rejected at once, or that came of the attempts of the policy.
  abbrev pub IsSettled : Completed → Type 0
  IsSettled result =
      ((result.outcome ≡ rejected) × (result.attempts ≡ 1))
      ⊎ ((result.attempts ≤ material.check.policy.maximum_attempts)
          × (1 ≤ result.attempts)
          × ((is_passed result.outcome ≡ true)
              ⊎ (result.attempts ≡ material.check.policy.maximum_attempts)))

  completed-IsSettled :
      (made result : Completed) (d d' : D)
      → IsSettled made
      → pure (completed made) d ≡ (returned (completed result), d')
      → IsSettled result
  completed-IsSettled made result d d' settled h =
      let same : made ≡ result = ground arith in rw (← same) settled

  spent-IsSettled :
      (result : Completed)
      → (1 ≤ result.attempts)
        × (result.attempts ≤ material.check.policy.maximum_attempts)
        × (is_passed result.outcome ≡ false
            → result.attempts ≡ material.check.policy.maximum_attempts)
      → IsSettled result
  spent-IsSettled result (least, most, last) = elim (Bool-cases (is_passed result.outcome)) [
    | inl p ↦ inr (most, least, inl p)
    | inr p ↦ inr (most, least, inr (last p))
  ]

  run_redis-IsSettled :
      (target : Verdict Target) (d d' : D) (result : Completed)
      → 1 ≤ material.check.policy.maximum_attempts
      → run_redis self material target d ≡ (returned (completed result), d')
      → IsSettled result
  unfolding observation_of
  run_redis-IsSettled (allowed target) d d' result bound h =
      let (made, e, run, final) =
        >>=-eq-returned
          (run_attempts self.sleep material.check.policy (redis_attempt self material target)
            (seen self material failed 1 none))
          (λ r. pure (completed r)) h in
      completed-IsSettled made result e d'
        (spent-IsSettled made (
          run_attempts-IsSpent self.sleep (redis_attempt self material target)
            (redis_attempt-Stamps target) material.check.policy _ d e made bound run))
        final
  run_redis-IsSettled (blocked code) d d' result bound h =
      completed-IsSettled _ result d d' (inl (refl, refl)) h
  run_redis-IsSettled (broke e) d d' result bound h = absurd (ground arith)

  by_kind-IsSettled :
      (kind : CheckKind) (d d' : D) (result : Completed)
      → 1 ≤ material.check.policy.maximum_attempts
      → by_kind self material kind d ≡ (returned (completed result), d')
      → IsSettled result
  by_kind-IsSettled redis_check d d' result bound h =
      run_redis-IsSettled (authorized d).0 (authorized d).1 d' result bound h
    where
      authorized : D → Verdict Target × D
      authorized =
          authorize_probe_endpoint self.net self.policy material.endpoint self.secret_resolver
            self.public_resolver
  by_kind-IsSettled (http_check path statuses digest) d d' result bound h = absurd (ground arith)
  by_kind-IsSettled (postgres_check authentication) d d' result bound h = absurd (ground arith)
  by_kind-IsSettled other_check d d' result bound h = absurd (ground arith)

  -- Where the policy of a check allows an attempt, a result that the Redis interpreter completes with
  -- has the ordinal of the attempt it came of, at most the maximum of the policy; without a pass it
  -- is that of the last attempt. A result that was rejected before any attempt has the ordinal 1.
  pub execute_redis-IsSettled :
      (d d' : D) (result : Completed)
      → 1 ≤ material.check.policy.maximum_attempts
      → execute_redis self material d ≡ (returned (completed result), d')
      → IsSettled result
  unfolding execute_redis
  execute_redis-IsSettled d d' result bound h =
      by_kind-IsSettled material.check.kind d d' result bound h
