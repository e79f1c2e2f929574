-- ===== src/Verification/Http.antt =====
-- `HttpVerificationInterpreter` (verification.py).
use control_plane_kit_interp.Base.{
  ℕ, ◌+◌, String, Bool, true, false, ◌&&◌, ◌||◌, List, [], ◌∷◌, Option, none, some, ltb, leb, beq,
  if◌then◌else◌,
}
use control_plane_kit_interp.Base.Lists.{any}
use control_plane_kit_interp.Effect.{Outcome, returned, raised, Eff, pure, raise, ◌>>=◌, Exc}
use control_plane_kit_interp.Docker.Result.{Context, runtime_private, host_local, public}
use control_plane_kit_interp.Probes.Security.{
  Verdict, allowed, blocked, broke, SecurityCode, invalid_endpoint, unresolved_endpoint,
  untrusted_address, unsafe_url, AddressPolicy, Target, Network, authorize_probe_endpoint,
  request_url,
}
use control_plane_kit_interp.Verification.{
  CheckOutcome, passed, failed, timed_out, malformed, rejected, http, CheckKind, http_check,
  postgres_check, redis_check, other_check, CheckMaterial, Evidence, http_evidence, Completed,
  CheckResult, completed, unsupported_check, observation_of, Step, again, stop, step_of,
  run_attempts,
}

-- How an exchange breaks: `httpx.TimeoutException`, `httpx.RemoteProtocolError`, another
-- `httpx.HTTPError`, or any other exception.
pub data HttpBreak : Type 0 where
  http_timeout protocol_error http_error : HttpBreak
  other_break : Exc → HttpBreak

-- A response: its status, the sizes of the chunks of its body, and how the body broke off.
pub record HttpResponse : Type 0 where
  pub status : ℕ
  pub chunk_sizes : List ℕ
  pub broken_after : Option HttpBreak

pub data HttpAnswer : Type 0 where
  responded : HttpResponse → HttpAnswer
  no_response : HttpBreak → HttpAnswer

-- What an interpreter stands on: the network, one `GET` of a URL with its `Host` header and its SNI
-- name, the pause, and the resolvers.
pub record HttpInterpreter (D : Type 0) : Type 0 where
  pub net : Network
  pub policy : AddressPolicy
  pub secret_resolver : Option (String → Eff D String)
  pub public_resolver : Option (String → Eff D (List String))
  pub get : String → Option String → Option String → D → HttpAnswer × D
  pub sleep : Eff D (Unit {0})

-- The loop over the chunks: the size that was read, and whether it is above the bound.
unfoldable pub read_sizes : ℕ → ℕ → List ℕ → ℕ × Bool
read_sizes limit size [] = (size, false)
read_sizes limit size (n ∷ sizes) =
    let rest = read_sizes limit (size + n) sizes in
    if ltb limit (size + n) then (size + n, true) else rest

abbrev pub min : ℕ → ℕ → ℕ
min a b = if leb a b then a else b

abbrev is_expected : List ℕ → ℕ → Bool
is_expected statuses status = any (λ s. beq s status) statuses

-- The outcome of a response that was read, or read up to the bound.
unfoldable pub outcome_of_status : List ℕ → ℕ → Bool → CheckOutcome
outcome_of_status statuses status overflow =
    if overflow || leb 300 status && ltb status 400
    then malformed
    else if is_expected statuses status
    then passed
    else failed

unfoldable pub outcome_of_break : HttpBreak → CheckOutcome
outcome_of_break http_timeout = timed_out
outcome_of_break protocol_error = malformed
outcome_of_break http_error = failed
outcome_of_break (other_break e) = failed

module _ {D : Type 0} (self : HttpInterpreter D) (material : CheckMaterial) where
  abbrev pub seen : CheckOutcome → ℕ → Option Evidence → Completed
  seen outcome attempt evidence = observation_of material http outcome attempt evidence

  -- What the handlers of `_attempt` make of an exchange that broke.
  abbrev broken : ℕ → HttpBreak → Outcome Completed
  broken attempt (other_break e) = raised e
  broken attempt http_timeout = returned (seen (outcome_of_break http_timeout) attempt none)
  broken attempt protocol_error = returned (seen (outcome_of_break protocol_error) attempt none)
  broken attempt http_error = returned (seen (outcome_of_break http_error) attempt none)

  abbrev judged : List ℕ → ℕ → HttpResponse → ℕ × Bool → Outcome Completed
  judged statuses attempt response (size, overflow) = returned (
      seen (outcome_of_status statuses response.status overflow) attempt (
        some (
          http_evidence response.status (min size material.check.policy.maximum_evidence_bytes) none
            none)))

  -- A body that breaks off before the bound; above it nothing more is read.
  abbrev unless_overflow :
      List ℕ → ℕ → HttpResponse → ℕ × Bool → Option HttpBreak → Outcome Completed
  unless_overflow statuses attempt response r none = judged statuses attempt response r
  unless_overflow statuses attempt response (size, true) (some b) =
      judged statuses attempt response (size, true)
  unless_overflow statuses attempt response (size, false) (some b) = broken attempt b

  abbrev received : List ℕ → ℕ → HttpAnswer → Outcome Completed
  received statuses attempt (no_response b) = broken attempt b
  received statuses attempt (responded response) =
      unless_overflow statuses attempt response
        (read_sizes material.check.policy.maximum_evidence_bytes 0 response.chunk_sizes)
        response.broken_after

  -- `_attempt`; a path that is not safe raises, here as `code` of the `ProbeSecurityError`
  abbrev requested :
      (SecurityCode → Exc) → List ℕ → Target → ℕ → Verdict String → D → Outcome Completed × D
  requested security_error statuses target attempt (allowed url) d = (
    received statuses attempt (self.get url target.host_header target.sni_hostname d).0,
    (self.get url target.host_header target.sni_hostname d).1,
  )
  requested security_error statuses target attempt (blocked code) d =
      (raised (security_error code), d)
  requested security_error statuses target attempt (broke e) d = (raised e, d)

  unfoldable pub attempt_target :
      (SecurityCode → Exc) → String → List ℕ → Target → ℕ → Eff D Completed
  unfolding read_sizes outcome_of_status outcome_of_break observation_of request_url
  attempt_target security_error path statuses target attempt =
      requested security_error statuses target attempt (request_url self.net target path)

  -- `_authorize_endpoint`
  unfoldable pub authorize : D → Verdict Target × D
  unfolding authorize_probe_endpoint
  authorize =
      authorize_probe_endpoint self.net self.policy material.endpoint self.secret_resolver
        self.public_resolver

  -- An endpoint that was not authorized in an attempt: only an unresolved one is tried again.
  abbrev pub refused : ℕ → SecurityCode → Step
  refused attempt unresolved_endpoint = again (seen rejected attempt none)
  refused attempt invalid_endpoint = stop (seen rejected attempt none)
  refused attempt untrusted_address = stop (seen rejected attempt none)
  refused attempt unsafe_url = stop (seen rejected attempt none)

  abbrev stepped : Eff D Completed → Eff D Step
  stepped run = run >>= λ result. pure (step_of result)

  abbrev pub public_step : (SecurityCode → Exc) → String → List ℕ → ℕ → Verdict Target → Eff D Step
  public_step security_error path statuses attempt (allowed target) =
      stepped (attempt_target security_error path statuses target attempt)
  public_step security_error path statuses attempt (blocked code) = pure (refused attempt code)
  public_step security_error path statuses attempt (broke e) = raise e

  -- The body of the loop for a public endpoint, which is authorized again in every attempt.
  unfoldable pub public_attempt : (SecurityCode → Exc) → String → List ℕ → ℕ → Eff D Step
  unfolding authorize attempt_target observation_of
  public_attempt security_error path statuses attempt d =
      public_step security_error path statuses attempt (authorize d).0 (authorize d).1

  abbrev pub first_result : Completed
  first_result = seen failed 1 none

  abbrev pub direct_run :
      (SecurityCode → Exc) → String → List ℕ → Verdict Target → Eff D CheckResult
  direct_run security_error path statuses (allowed target) =
      run_attempts self.sleep material.check.policy
        (λ attempt. stepped (attempt_target security_error path statuses target attempt))
        first_result
      >>= λ result. pure (completed result)
  direct_run security_error path statuses (blocked code) = pure (completed (seen rejected 1 none))
  direct_run security_error path statuses (broke e) = raise e

  abbrev pub run_http : (SecurityCode → Exc) → Context → String → List ℕ → Eff D CheckResult
  run_http security_error public path statuses d =
      (run_attempts self.sleep material.check.policy (public_attempt security_error path statuses)
            first_result
          >>= λ result. pure (completed result))
        d
  run_http security_error runtime_private path statuses d =
      direct_run security_error path statuses (authorize d).0 (authorize d).1
  run_http security_error host_local path statuses d =
      direct_run security_error path statuses (authorize d).0 (authorize d).1

  abbrev pub by_kind : (SecurityCode → Exc) → CheckKind → Eff D CheckResult
  by_kind security_error (http_check path statuses digest) =
      run_http security_error material.endpoint.context path statuses
  by_kind security_error (postgres_check authentication) = pure (unsupported_check http)
  by_kind security_error redis_check = pure (unsupported_check http)
  by_kind security_error other_check = pure (unsupported_check http)

  -- `execute`
  unfoldable pub execute_http : (SecurityCode → Exc) → Eff D CheckResult
  unfolding public_attempt attempt_target authorize observation_of run_attempts
  execute_http security_error = by_kind security_error material.check.kind
