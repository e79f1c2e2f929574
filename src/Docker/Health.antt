-- ===== src/Docker/Health.antt =====
-- `_wait_for_healthy` and its parts (docker/runtime.py): the verification checks of a product, run one
-- after the other against the endpoints of its container.
pub mod Run
pub mod Wait
use Prim.Native.Char.{Char}
use Prim.Native.String.{◌++◌ as append}
use control_plane_kit_interp.Base.{
  ℕ, zero, suc, String, Bool, true, false, not, ◌&&◌, ◌||◌, List, [], ◌∷◌, ◌++◌, Option, none, some,
  ◌==◌, beq, is_none, text_eq?, if◌then◌else◌,
}
use control_plane_kit_interp.Base.Dict.{Dict, get}
use control_plane_kit_interp.Base.Lists.{any}
use control_plane_kit_interp.Effect.{
  Outcome, returned, raised, Eff, pure, raise, lift, ◌>>=◌, ◌>>◌, Exc, control, precondition, other,
  require, ◌then◌,
}
use control_plane_kit_interp.Request.{Request, Material, Grant}
use control_plane_kit_interp.Secrets.{grant_for}
use control_plane_kit_interp.Invocations.{Classes, PortValue, no_port, control_errors, invoke}
use control_plane_kit_interp.Docker.Names.{network_name, container_name}
use control_plane_kit_interp.Docker.Sdk.{Inspection}
use control_plane_kit_interp.Docker.Labels.{label, node_labels, require_owned}
use control_plane_kit_interp.Docker.Endpoints.{runtime_endpoint_observations}
use control_plane_kit_interp.Docker.Result.{
  Context, runtime_private, host_local, public, Endpoint, Kind, succeeded, failed, unsupported,
  Failure,
}
use control_plane_kit_interp.Docker.Interpreter.{
  Interpreter, single_product, private_host_for_runtime,
}
use control_plane_kit_interp.Probes.Security.{
  Address, literal, secret_reference, other_material, Observation, SecurityCode, Network, Target,
  AddressPolicy,
}
use control_plane_kit_interp.Verification.{
  CheckOutcome, passed, timed_out, malformed, rejected, http, CheckPolicy, CheckKind, http_check,
  postgres_check, redis_check, other_check, Authentication, Check as VerificationCheck,
  CheckMaterial, Evidence, http_evidence, Completed, CheckResult, completed, unsupported_check,
  is_passed, check_material, observation_of, pause, step_of, run_attempts,
}
use control_plane_kit_interp.Verification.Http.{HttpAnswer, execute_http}
use control_plane_kit_interp.Verification.Redis.{SocketErrors}
use control_plane_kit_interp.Verification.Postgres.{execute_postgres}

-- The classification of `DockerSdkHttpProbeResult`
pub data Classification : Type 0 where
  probe_completed probe_timed_out response_rejected response_oversized : Classification
  other_classification : String → Classification

-- `DockerSdkHttpProbeResult`
pub record ProbeResult : Type 0 where
  pub status_code : Option ℕ
  pub response_size : ℕ
  pub classification : Classification
  pub body_sha256_matches : Option Bool

-- A child of the port of the invocations: the port, whether its control error is that of the port,
-- and its `credential_grant`, where it has one.
pub record Child (D : Type 0) : Type 1 where
  pub port : PortValue D
  pub same_control : Bool
  pub credential_grant : Option (Option Grant)

-- What the method stands on, beside the interpreter: the checks of a product, the
-- transports of the checks and the probes of the client.
pub record Healing (D : Type 0) : Type 1 where
  pub interpreter : Interpreter D
  pub checks_of : Material → List VerificationCheck
  pub net : Network
  pub classes : Classes
  pub errors : SocketErrors
  pub sleep : Eff D (Unit {0})
  pub security_error : SecurityCode → Exc
  -- `http_transport` and `postgres_transport`, in the forms of verification.py
  pub http_get : String → Option String → Option String → D → HttpAnswer × D
  pub select_one : Target → String → String → String → Eff D Bool
  pub require_authorized : Option (PortValue D → Grant → Eff D String)
  pub require_resolved : Option (String → Eff D String)
  pub permits_password : Grant → String → Bool
  pub postgres_password : String
  -- `client.run_http_probe` of a network, a URL, a bound and an expected digest
  pub run_http_probe : String → String → ℕ → Option String → Eff D ProbeResult

-- The result of `_wait_for_healthy`, with the checks that its evidence and its details describe
pub record HealthResult : Type 0 where
  pub effect_id : String
  pub kind : Kind
  pub evidence : Dict String
  pub failure : Option Failure
  pub checks : List Completed
  pub observations : List Completed

-- An observation of a runtime as the probes read it.
abbrev pub observation_of_endpoint : Endpoint → Observation
observation_of_endpoint endpoint = record {
  subject_id = endpoint.subject_id;
  graph_id = endpoint.graph_id;
  socket_name = endpoint.socket_name;
  protocol = endpoint.protocol;
  context = endpoint.context;
  address = literal endpoint.address;
}

-- The dict of the endpoints by their sockets: a later endpoint takes the place of an earlier one.
unfoldable pub endpoint_named : String → List Observation → Option Observation
endpoint_named socket [] = none
endpoint_named socket (endpoint ∷ endpoints) = elim (endpoint_named socket endpoints) [
  | some later ↦ some later
  | none ↦ if endpoint.socket_name == socket then some endpoint else none
]

-- The outcome of a probe inside the runtime's network.
abbrev is_some_true : Option Bool → Bool
is_some_true none = false
is_some_true (some b) = b

unfoldable pub probe_outcome : List ℕ → Option String → ProbeResult → CheckOutcome
probe_outcome statuses digest probe = elim probe.classification [
  | probe_timed_out ↦ timed_out
  | response_rejected ↦ rejected
  | response_oversized ↦ malformed
  | other_classification text ↦ CheckOutcome.failed
  | probe_completed ↦ elim probe.status_code [
    | none ↦ CheckOutcome.failed
    | some status ↦
        if any (λ s. beq s status) statuses
          && (is_none digest || is_some_true probe.body_sha256_matches)
        then passed
        else CheckOutcome.failed
  ]
]

abbrev evidence_with : Option String → ProbeResult → Option ℕ → Option Evidence
evidence_with digest probe none = none
evidence_with digest probe (some status) =
    some (http_evidence status probe.response_size digest probe.body_sha256_matches)

unfoldable pub probe_evidence : Option String → ProbeResult → Option Evidence
probe_evidence digest probe = elim probe.classification [
  | probe_completed ↦ evidence_with digest probe probe.status_code
  | probe_timed_out ↦ none
  | response_rejected ↦ none
  | response_oversized ↦ none
  | other_classification text ↦ none
]

abbrev pub with_attempts : ℕ → Completed → Completed
with_attempts n result = record result { attempts = n }

-- `AssertionError`
abbrev pub assertion_error : Exc
assertion_error = other (record {
  is_timeout = false;
  is_transport = false;
  is_api = false;
  is_material = false;
  class_name = "AssertionError";
})

-- A result that did not pass is given the number of all attempts.
unfoldable pub exhausted : ℕ → Completed → Completed
exhausted maximum result = if is_passed result.outcome then result else with_attempts maximum result

-- `_optional_secret_resolution_grant`
abbrev grant_or_none : Outcome Grant → Option Grant
grant_or_none (returned grant) = some grant
grant_or_none (raised e) = none

unfoldable pub optional_grant : Request → Option String → String → Option Grant
unfolding grant_for
optional_grant request none intent = none
optional_grant request (some reference) intent =
    grant_or_none (grant_for request.grants reference intent)
