-- ===== src/Docker/Health/Run.antt =====
-- The runs of checks, and `_wait_for_healthy` itself (docker/runtime.py).

pub mod Refused
use Prim.Native.String.{◌++◌ as append}
use control_plane_kit_interp.Base.{
  ℕ, zero, suc, String, Bool, false, List, [], ◌∷◌, Option, none, some, if◌then◌else◌,
}
use control_plane_kit_interp.Effect.{Eff, pure, raise, lift, ◌>>=◌, ◌>>◌, require}
use control_plane_kit_interp.Request.{Request, Material, Grant}
use control_plane_kit_interp.Invocations.{PortValue, no_port}
use control_plane_kit_interp.Docker.Names.{network_name}
use control_plane_kit_interp.Docker.Result.{Context, runtime_private, host_local, public}
use control_plane_kit_interp.Docker.Health.{
  Child, Healing, probe_outcome, probe_evidence, with_attempts, assertion_error, exhausted,
  optional_grant,
}
use control_plane_kit_interp.Probes.Security.{Observation, AddressPolicy}
use control_plane_kit_interp.Verification.{
  http, CheckPolicy, CheckKind, http_check, postgres_check, redis_check, other_check,
  Authentication, Check, CheckMaterial, Completed, CheckResult, completed, unsupported_check,
  is_passed, check_material, observation_of, pause, Step, step_of, run_attempts,
}
use control_plane_kit_interp.Verification.Http.{HttpInterpreter, execute_http}
use control_plane_kit_interp.Verification.Postgres.{PostgresInterpreter, execute_postgres}

abbrev pub trusting : String → AddressPolicy
trusting address = record {
  runtime_private_authorities = address ∷ [];
  public_hosts = [];
  allow_host_local = false;
  allow_plaintext_public_http = false;
}

abbrev pub single_attempt : Check → Check
single_attempt check = record {
  check_id = check.check_id;
  provider_socket = check.provider_socket;
  policy = record {
    maximum_attempts = 1;
    maximum_evidence_bytes = check.policy.maximum_evidence_bytes;
  };
  kind = check.kind;
}

abbrev pub numbered : ℕ → CheckResult → CheckResult
numbered n (completed result) = completed (with_attempts n result)
numbered n (unsupported_check capability) = unsupported_check capability

abbrev pub has_passed : CheckResult → Bool
has_passed (completed result) = is_passed result.outcome
has_passed (unsupported_check capability) = false

module _ {D : Type 0} (self : Healing D) where
  open self use {interpreter, sleep}

  abbrev pub material_for : Material → Request → Check → Observation → Eff D CheckMaterial
  material_for material request check endpoint =
      lift (
        check_material interpreter.is_space material.node_id request.desired_graph_id check
          endpoint)

  -- `_execute_runtime_private_http_health_check`
  unfoldable pub probe_attempt :
      CheckMaterial → String → String → List ℕ → Option String → ℕ → Eff D Step
  unfolding probe_outcome probe_evidence observation_of
  probe_attempt materialized network url statuses digest attempt = do
    probe ← self.run_http_probe network url materialized.check.policy.maximum_evidence_bytes digest
    pure (
        step_of (
          observation_of materialized http (probe_outcome statuses digest probe) attempt
            (probe_evidence digest probe)))

  -- With no attempt there is no result to return.
  abbrev pub unless_zero : ℕ → Eff D CheckResult → Eff D CheckResult
  unless_zero zero run = raise assertion_error
  unless_zero (suc n) run = run

  abbrev first_result : CheckMaterial → Completed
  first_result materialized =
      observation_of materialized http control_plane_kit_interp.Verification.CheckOutcome.failed 1
        none

  unfoldable pub private_http_check :
      Material
      → Request
      → Check
      → Observation
      → String
      → String
      → List ℕ
      → Option String
      → Eff D CheckResult
  unfolding check_material probe_attempt observation_of run_attempts exhausted network_name
  private_http_check material request check endpoint address path statuses digest = do
    materialized ← material_for material request check endpoint
    unless_zero check.policy.maximum_attempts (do
      result ←
          run_attempts sleep check.policy
            (probe_attempt materialized
              (network_name interpreter.hashing request.workspace_id material.runtime_id)
              (append address path) statuses digest)
            (first_result materialized)
      pure (completed (exhausted check.policy.maximum_attempts result)))

  abbrev pub http_interpreter : String → HttpInterpreter D
  http_interpreter address = record {
    net = self.net;
    policy = trusting address;
    secret_resolver = none;
    public_resolver = none;
    get = self.http_get;
    sleep = sleep;
  }

  -- One run of the interpreter, with its one attempt.
  unfoldable pub http_round : Material → Request → Check → Observation → String → Eff D CheckResult
  unfolding check_material execute_http
  http_round material request check endpoint address = do
    materialized ← material_for material request (single_attempt check) endpoint
    execute_http (http_interpreter address) materialized self.security_error

  -- The loop of `_execute_http_health_check`: the attempts that are left, the bound, the ordinal of
  -- the next one, and the last result.
  unfoldable pub http_rounds : ℕ → ℕ → Eff D CheckResult → ℕ → CheckResult → Eff D CheckResult
  http_rounds zero maximum round n last = pure (numbered maximum last)
  http_rounds (suc left) maximum round n last = do
    pause sleep n
    result ← round
    if has_passed result
        then pure (numbered n result)
        else http_rounds left maximum round (suc n) result

  unfoldable pub direct_http_check :
      Material → Request → Check → Observation → String → Eff D CheckResult
  unfolding http_round http_rounds
  direct_http_check material request check endpoint address =
      unless_zero check.policy.maximum_attempts (
        http_rounds check.policy.maximum_attempts check.policy.maximum_attempts
          (http_round material request check endpoint address) 1 (unsupported_check http))

  -- `_execute_http_health_check`
  unfoldable pub http_health_check :
      Context
      → Material
      → Request
      → Check
      → Observation
      → String
      → String
      → List ℕ
      → Option String
      → Eff D CheckResult
  unfolding private_http_check direct_http_check
  http_health_check runtime_private material request check endpoint address path statuses digest =
      private_http_check material request check endpoint address path statuses digest
  http_health_check host_local material request check endpoint address path statuses digest =
      direct_http_check material request check endpoint address
  http_health_check public material request check endpoint address path statuses digest =
      direct_http_check material request check endpoint address

  abbrev password_of : Option Authentication → Option String
  password_of none = none
  password_of (some authentication) = some authentication.password_reference

  abbrev granted : Request → Option Authentication → Option (Child D) → Option Grant
  granted request authentication none =
      optional_grant request (password_of authentication) self.postgres_password
  granted request authentication (some child) = elim child.credential_grant [
    | none ↦ none
    | some grant ↦ grant
  ]

  abbrev port_of : Option (Child D) → PortValue D
  port_of none = no_port
  port_of (some child) = child.port

  abbrev unless_authorized :
      Option (PortValue D → Grant → Eff D String) → Option (String → Eff D String)
  unless_authorized none = self.require_resolved
  unless_authorized (some require) = none

  abbrev postgres_interpreter :
      Request → String → Option Authentication → Option (Child D) → PostgresInterpreter D
  postgres_interpreter request address authentication child = record {
    net = self.net;
    policy = trusting address;
    secret_resolver = none;
    public_resolver = none;
    select_one = self.select_one;
    require_authorized = self.require_authorized;
    require_resolved = unless_authorized self.require_authorized;
    credential_grant = granted request authentication child;
    permits_password = self.permits_password;
    errors = self.errors;
    classes = self.classes;
    sleep = sleep;
  }

  -- `_execute_postgres_health_check`
  unfoldable pub postgres_health_check :
      Material
      → Request
      → Check
      → Observation
      → String
      → Option Authentication
      → Option (Child D)
      → Eff D CheckResult
  unfolding check_material execute_postgres optional_grant
  postgres_health_check material request check endpoint address authentication child = do
    materialized ← material_for material request check endpoint
    execute_postgres (postgres_interpreter request address authentication child) materialized
        (port_of child)
