-- ===== src/Verification/Postgres.antt =====
-- `PostgresVerificationInterpreter` and `PsycopgPostgresSelectOneTransport` (verification.py).
use control_plane_kit_interp.Base.{
  ℕ, String, Bool, true, false, ◌&&◌, ◌||◌, List, Option, none, some, is_none, if◌then◌else◌,
}
use control_plane_kit_interp.Effect.{
  Outcome, returned, raised, Eff, pure, raise, lift, ◌>>=◌, Exc, control, secret_resolution, denied,
}
use control_plane_kit_interp.Request.{Grant}
use control_plane_kit_interp.Invocations.{
  Classes, PortValue, no_port, bad_port, bounded, control_errors, invoke,
}
use control_plane_kit_interp.Probes.Security.{
  Verdict, allowed, blocked, broke, AddressPolicy, Target, Network, authorize_probe_endpoint,
}
use control_plane_kit_interp.Verification.{
  CheckOutcome, passed, failed, rejected, postgres, CheckKind, http_check, postgres_check,
  redis_check, other_check, Authentication, CheckMaterial, Completed, CheckResult, completed,
  unsupported_check, observation_of, Step, step_of, run_attempts,
}
use control_plane_kit_interp.Verification.Redis.{SocketErrors, outcome_of_error}

-- The fields of the interpreter. `select_one` is the transport's, given the target, the database, the
-- user and the password; `require_authorized` and `require_resolved` are Core's, of the resolver that
-- is there, with the port of a prepared resolution; `permits_password` is the grant's answer for
-- `SecretUseIntent.POSTGRES_PASSWORD`.
pub record PostgresInterpreter (D : Type 0) : Type 1 where
  pub net : Network
  pub policy : AddressPolicy
  pub secret_resolver : Option (String → Eff D String)
  pub public_resolver : Option (String → Eff D (List String))
  pub select_one : Target → String → String → String → Eff D Bool
  pub require_authorized : Option (PortValue D → Grant → Eff D String)
  pub require_resolved : Option (String → Eff D String)
  pub credential_grant : Option Grant
  pub permits_password : Grant → String → Bool
  pub errors : SocketErrors
  pub classes : Classes
  pub sleep : Eff D (Unit {0})

-- `PsycopgPostgresSelectOneTransport.select_one`: a `TimeoutError` passes, any other `Exception`
-- becomes the `OSError` that is given.
unfoldable pub psycopg_select_one :
    {D : Type 0} → SocketErrors → Classes → Exc → Eff D Bool → Eff D Bool
psycopg_select_one errors classes os_error query d = (translated (query d).0, (query d).1)
  where
    translated : Outcome Bool → Outcome Bool
    translated (returned b) = returned b
    translated (raised e) =
        if errors.is_timeout e
        then raised e
        else if classes.is_exception e
        then raised os_error
        else raised e

abbrev has_port : {D : Type 0} → PortValue D → Bool
has_port no_port = false
has_port bad_port = true
has_port (bounded port) = true

module _ {D : Type 0} (self : PostgresInterpreter D) (material : CheckMaterial) where
  abbrev seen : CheckOutcome → ℕ → Completed
  seen outcome attempt = observation_of material postgres outcome attempt none

  abbrev rejection : Eff D CheckResult
  rejection = pure (completed (seen rejected 1))

  -- An `InvocationPortError` or a control error of the port
  abbrev is_control : (Exc → Bool) → Exc → Bool
  is_control controls control = true
  is_control controls e = controls e

  abbrev caught : (Exc → Bool) → ℕ → Exc → Option CheckOutcome → Outcome Step
  caught controls attempt e none = raised e
  caught controls attempt e (some outcome) =
      if is_control controls e then raised e else returned (step_of (seen outcome attempt))

  abbrev after_query : (Exc → Bool) → ℕ → Outcome Bool → Outcome Step
  after_query controls attempt (returned true) = returned (step_of (seen passed attempt))
  after_query controls attempt (returned false) = returned (step_of (seen failed attempt))
  after_query controls attempt (raised e) =
      caught controls attempt e (outcome_of_error self.errors e)

  unfoldable pub postgres_attempt : (Exc → Bool) → Target → Authentication → String → ℕ → Eff D Step
  unfolding outcome_of_error observation_of
  postgres_attempt controls target authentication password attempt d =
      (after_query controls attempt (query d).0, (query d).1)
    where
      query : Eff D Bool
      query = self.select_one target authentication.database authentication.username password

  -- `_query_attempts`
  unfoldable pub query_attempts :
      (Exc → Bool) → Target → Authentication → String → Eff D CheckResult
  unfolding postgres_attempt observation_of run_attempts
  query_attempts controls target authentication password =
      run_attempts self.sleep material.check.policy
        (postgres_attempt controls target authentication password) (seen failed 1)
      >>= λ result. pure (completed result)

  abbrev granted :
      PortValue D
      → (PortValue D → Grant → Eff D String)
      → Authentication
      → Option Grant
      → Eff D String
  granted port require authentication none = raise (secret_resolution denied)
  granted port require authentication (some grant) =
      if self.permits_password grant authentication.password_reference
      then require port grant
      else raise (secret_resolution denied)

  abbrev legacy : Authentication → Option (String → Eff D String) → Eff D String
  legacy authentication none = raise (secret_resolution denied)
  legacy authentication (some require) = require authentication.password_reference

  abbrev password_with :
      PortValue D → Authentication → Option (PortValue D → Grant → Eff D String) → Eff D String
  password_with port authentication none = legacy authentication self.require_resolved
  password_with port authentication (some require) =
      granted port require authentication self.credential_grant

  abbrev after_password :
      PortValue D → (Exc → Bool) → Target → Authentication → Outcome String → Eff D CheckResult
  after_password port controls target authentication (returned password) =
      invoke self.classes port "ordinary-verification-check" none
        (query_attempts controls target authentication password)
  after_password port controls target authentication (raised (secret_resolution code)) =
      if is_control controls (secret_resolution code)
      then raise (secret_resolution code)
      else rejection
  after_password port controls target authentication (raised e) = raise e

  unfoldable pub with_target :
      PortValue D → (Exc → Bool) → Authentication → Target → Eff D CheckResult
  unfolding query_attempts invoke observation_of
  with_target port controls authentication target d =
      after_password port controls target authentication
        (password_with port authentication self.require_authorized d).0
        (password_with port authentication self.require_authorized d).1

  abbrev run_postgres :
      PortValue D → (Exc → Bool) → Authentication → Verdict Target → Eff D CheckResult
  run_postgres port controls authentication (allowed target) =
      with_target port controls authentication target
  run_postgres port controls authentication (blocked code) = rejection
  run_postgres port controls authentication (broke e) = raise e

  unfoldable pub authenticated : PortValue D → (Exc → Bool) → Authentication → Eff D CheckResult
  unfolding authorize_probe_endpoint with_target observation_of
  authenticated port controls authentication d =
      run_postgres port controls authentication (target d).0 (target d).1
    where
      target : D → Verdict Target × D
      target =
          authorize_probe_endpoint self.net self.policy material.endpoint self.secret_resolver
            self.public_resolver

  abbrev by_kind : PortValue D → (Exc → Bool) → CheckKind → Eff D CheckResult
  by_kind port controls (postgres_check none) = rejection
  by_kind port controls (postgres_check (some authentication)) =
      if is_none self.require_authorized && (has_port port || is_none self.require_resolved)
      then rejection
      else authenticated port controls authentication
  by_kind port controls (http_check path statuses digest) = pure (unsupported_check postgres)
  by_kind port controls redis_check = pure (unsupported_check postgres)
  by_kind port controls other_check = pure (unsupported_check postgres)

  -- `execute`
  unfoldable pub execute_postgres : PortValue D → Eff D CheckResult
  unfolding authenticated control_errors observation_of
  execute_postgres port = do
    controls ← lift (control_errors false port)
    by_kind port controls material.check.kind
