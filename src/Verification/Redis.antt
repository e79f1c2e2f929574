-- ===== src/Verification/Redis.antt =====
-- `RedisVerificationInterpreter` and `SocketRedisPingTransport` (verification.py).
pub mod Ping
pub mod Spent
use control_plane_kit_interp.Base.{
  ℕ, String, Bool, true, false, ◌&&◌, List, [], ◌∷◌, Option, none, some, ltb, beq, if◌then◌else◌,
}
use control_plane_kit_interp.Base.Lists.{length}
use control_plane_kit_interp.Effect.{Outcome, returned, raised, Eff, pure, raise, ◌>>=◌, ◌>>◌, Exc}
use control_plane_kit_interp.Probes.Security.{
  Verdict, allowed, blocked, broke, AddressPolicy, Target, Network, authorize_probe_endpoint,
}
use control_plane_kit_interp.Verification.{
  CheckOutcome, passed, failed, timed_out, malformed, rejected, redis, CheckPolicy, CheckKind,
  http_check, postgres_check, redis_check, other_check, CheckMaterial, Evidence, redis_evidence,
  Completed, CheckResult, completed, unsupported_check, observation_of, Step, step_of, run_attempts,
}
use control_plane_kit_interp.Verification.Http.{min}

-- Which exceptions are a `TimeoutError` or `socket.timeout`, and which another `OSError`.
pub record SocketErrors : Type 0 where
  pub is_timeout : Exc → Bool
  pub is_os_error : Exc → Bool

-- `transport.ping(host, port, …)` with the bound on its response
pub record RedisInterpreter (D : Type 0) : Type 0 where
  pub net : Network
  pub policy : AddressPolicy
  pub secret_resolver : Option (String → Eff D String)
  pub public_resolver : Option (String → Eff D (List String))
  pub ping : String → ℕ → ℕ → Eff D (List ℕ)
  pub errors : SocketErrors
  pub sleep : Eff D (Unit {0})

abbrev pub same_bytes : List ℕ → List ℕ → Bool
same_bytes [] [] = true
same_bytes [] (b ∷ bs) = false
same_bytes (a ∷ xs) [] = false
same_bytes (a ∷ xs) (b ∷ bs) = beq a b && same_bytes xs bs

-- b"+PONG\r\n"
abbrev pub pong : List ℕ
pong = b'+' ∷ b'P' ∷ b'O' ∷ b'N' ∷ b'G' ∷ 13 ∷ 10 ∷ []

unfoldable pub outcome_of_pong : ℕ → List ℕ → CheckOutcome
outcome_of_pong limit response =
    if ltb limit (length response)
    then malformed
    else if same_bytes response pong
    then passed
    else failed

-- The outcome of an exception of a transport, where the handlers catch it.
unfoldable pub outcome_of_error : SocketErrors → Exc → Option CheckOutcome
outcome_of_error errors e =
    if errors.is_timeout e
    then some timed_out
    else if errors.is_os_error e
    then some failed
    else none

module _ {D : Type 0} (self : RedisInterpreter D) (material : CheckMaterial) where
  abbrev pub seen : CheckOutcome → ℕ → Option Evidence → Completed
  seen outcome attempt evidence = observation_of material redis outcome attempt evidence

  abbrev pub caught : ℕ → Exc → Option CheckOutcome → Outcome Step
  caught attempt e none = raised e
  caught attempt e (some outcome) = returned (step_of (seen outcome attempt none))

  abbrev pub after_ping : ℕ → Outcome (List ℕ) → Outcome Step
  after_ping attempt (returned response) = returned (
      step_of (
        seen (outcome_of_pong material.check.policy.maximum_evidence_bytes response) attempt (
          some
            (redis_evidence (min (length response) material.check.policy.maximum_evidence_bytes)))))
  after_ping attempt (raised e) = caught attempt e (outcome_of_error self.errors e)

  unfoldable pub redis_attempt : Target → ℕ → Eff D Step
  unfolding outcome_of_pong outcome_of_error observation_of
  redis_attempt target attempt d = (after_ping attempt (answer d).0, (answer d).1)
    where
      answer : Eff D (List ℕ)
      answer =
          self.ping target.connect_host target.port material.check.policy.maximum_evidence_bytes

  abbrev pub run_redis : Verdict Target → Eff D CheckResult
  run_redis (allowed target) =
      run_attempts self.sleep material.check.policy (redis_attempt target) (seen failed 1 none)
      >>= λ result. pure (completed result)
  run_redis (blocked code) = pure (completed (seen rejected 1 none))
  run_redis (broke e) = raise e

  abbrev pub by_kind : CheckKind → Eff D CheckResult
  by_kind redis_check d = run_redis (authorized d).0 (authorized d).1
    where
      authorized : D → Verdict Target × D
      authorized =
          authorize_probe_endpoint self.net self.policy material.endpoint self.secret_resolver
            self.public_resolver
  by_kind (http_check path statuses digest) d = (returned (unsupported_check redis), d)
  by_kind (postgres_check authentication) d = (returned (unsupported_check redis), d)
  by_kind other_check d = (returned (unsupported_check redis), d)

  -- `execute`
  unfoldable pub execute_redis : Eff D CheckResult
  unfolding authorize_probe_endpoint redis_attempt observation_of run_attempts
  execute_redis = by_kind material.check.kind
