-- ===== src/Docker/Health/Wait.antt =====
-- `_wait_for_healthy` (docker/runtime.py): the checks of a product in order, up to the first that does
-- not pass.
pub mod Passed
use control_plane_kit_interp.Base.{
  String, Bool, true, false, not, ◌&&◌, ◌||◌, List, [], ◌∷◌, ◌++◌, Option, none, some, ◌==◌,
  is_none, text_eq?, map, if◌then◌else◌,
}
use control_plane_kit_interp.Base.Dict.{Dict, get}
use control_plane_kit_interp.Effect.{
  returned, Eff, pure, raise, lift, ◌>>=◌, ◌>>◌, control, precondition, require,
}
use control_plane_kit_interp.Request.{Request, Material}
use control_plane_kit_interp.Invocations.{PortValue, no_port, control_errors, invoke}
use control_plane_kit_interp.Docker.Names.{network_name, container_name}
use control_plane_kit_interp.Docker.Sdk.{Inspection}
use control_plane_kit_interp.Docker.Labels.{label, node_labels, require_owned}
use control_plane_kit_interp.Docker.Endpoints.{runtime_endpoint_observations}
use control_plane_kit_interp.Docker.Result.{Kind, succeeded, failed, unsupported}
use control_plane_kit_interp.Docker.Interpreter.{
  Interpreter, single_product, private_host_for_runtime,
}
use control_plane_kit_interp.Docker.Health.{
  Child, Healing, HealthResult, observation_of_endpoint, endpoint_named,
}
use control_plane_kit_interp.Docker.Health.Run.{http_health_check, postgres_health_check}
use control_plane_kit_interp.Probes.Security.{
  Address, literal, secret_reference, other_material, Observation,
}
use control_plane_kit_interp.Verification.{
  CheckKind, http_check, postgres_check, redis_check, other_check, Check, Completed, CheckResult,
  completed, unsupported_check, is_passed, redis,
}

-- What the loop has so far: the results of HTTP checks and of others, in order.
pub record Progress : Type 0 where
  pub observations : List Completed
  pub checks : List Completed

abbrev pub action_evidence : String → String → Dict String
action_evidence action node_id = ("action", action) ∷ ("node_id", node_id) ∷ []

abbrev pub health_success : Request → String → String → Progress → HealthResult
health_success request action node_id progress = record {
  effect_id = request.effect_id;
  kind = succeeded;
  evidence = action_evidence action node_id;
  failure = none;
  checks = progress.checks;
  observations = progress.observations;
}

abbrev pub health_failure : Request → Kind → String → String → Progress → HealthResult
health_failure request kind code message progress = record {
  effect_id = request.effect_id;
  kind = kind;
  evidence = [];
  failure = some (record { code = code; message = message; details = [] });
  checks = progress.checks;
  observations = progress.observations;
}

abbrev pub no_progress : Progress
no_progress = record { observations = []; checks = [] }

abbrev pub health_failed : Request → String → String → HealthResult
health_failed request code message = health_failure request failed code message no_progress

abbrev pub unsupported_health : Request → HealthResult
unsupported_health request =
    health_failure request unsupported "docker.health-check-unsupported"
      "Docker runtime interpreter does not support request" no_progress

-- Results of HTTP checks are observations, the others are described in the evidence.
unfoldable pub recorded : CheckKind → Completed → Progress → Progress
recorded (http_check path statuses digest) result progress = record progress {
  observations = progress.observations ++ (result ∷ []);
}
recorded _ result progress = record progress { checks = progress.checks ++ (result ∷ []) }

-- `invocations.for_check(check_id)`, where there are invocations
abbrev pub Children : Type 0 → Type 1
Children D = Option (String → Child D)

module _ {D : Type 0} (self : Healing D) where
  open self use {interpreter}

  abbrev graph_labels_match : Dict String → Dict String → Bool
  graph_labels_match observed labels =
      text_eq? (get (label "material-profile") observed) (get (label "material-profile") labels)
      && text_eq? (get (label "desired-graph") observed) (get (label "desired-graph") labels)

  abbrev check_correlated : Dict String → Option Inspection → Eff D (Option Inspection)
  check_correlated labels none = pure none
  check_correlated labels (some inspection) = do
    lift (require_owned inspection.labels labels "container")
    lift (
        require (graph_labels_match inspection.labels labels) (
          precondition "docker.container-ownership-conflict"
            "Docker container is not owned by this runtime effect"))
    pure (some inspection)

  -- `_owned_container_inspection`
  unfoldable pub owned_container_inspection : Request → Material → Eff D (Option Inspection)
  unfolding container_name node_labels require_owned get
  owned_container_inspection request material = do
    inspection ←
        interpreter.client.inspect_container
          (container_name interpreter.hashing request.workspace_id material.node_id)
    check_correlated (node_labels interpreter.hashing request material) inspection

  abbrev private_host : Request → Material → Option Inspection → String
  private_host request material none = material.node_id
  private_host request material (some inspection) =
      private_host_for_runtime
        (network_name interpreter.hashing request.workspace_id material.runtime_id) material
        inspection

  -- `_runtime_private_endpoint_observations`
  unfoldable pub runtime_private_endpoints : Request → Material → Eff D (List Observation)
  unfolding owned_container_inspection network_name private_host_for_runtime
      runtime_endpoint_observations
  runtime_private_endpoints request material = do
    inspection ← owned_container_inspection request material
    pure (
        map observation_of_endpoint (
          runtime_endpoint_observations interpreter.addresses material.node_id
            request.desired_graph_id (private_host request material inspection)
            material.provider_ports []))

  -- The child of the port for a check must be a port with the control error of its parent, and must
  -- say which grant its credential has.
  abbrev child_for : Children D → Check → Option (Child D)
  child_for none check = none
  child_for (some for_check) check = some (for_check check.check_id)

  abbrev admit_child : Option (Child D) → Eff D (Unit {0})
  admit_child none = pure tt
  admit_child (some child) =
      lift (control_errors true child.port)
      >> lift (require (child.same_control && not (is_none child.credential_grant)) control)

  abbrev port_of : Option (Child D) → PortValue D
  port_of none = no_port
  port_of (some child) = child.port

  -- One check against the address of its endpoint.
  unfoldable pub run_check :
      Request → Material → Children D → Check → Observation → String → Eff D CheckResult
  unfolding control_errors invoke http_health_check postgres_health_check
  run_check request material children check endpoint address = elim check.kind [
    | http_check path statuses digest ↦
        admit_child (child_for children check)
        >> invoke self.classes (port_of (child_for children check)) "ordinary-verification-check"
            none
            (http_health_check self endpoint.context material request check endpoint address path
              statuses digest)
    | postgres_check authentication ↦
        admit_child (child_for children check)
        >> postgres_health_check self material request check endpoint address authentication
            (child_for children check)
    | redis_check ↦ pure (unsupported_check redis)
    | other_check ↦ pure (unsupported_check redis)
  ]

  abbrev pub is_executable : CheckKind → Bool
  is_executable (http_check path statuses digest) = true
  is_executable (postgres_check authentication) = true
  is_executable redis_check = false
  is_executable other_check = false

  module _ (request : Request) (material : Material) (children : Children D)
      (endpoints : List Observation) where
    abbrev pub failed_check : Progress → HealthResult
    failed_check progress =
        health_failure request failed "docker.health-check-failed"
          "health verification did not pass" progress

    -- After a check: an unsupported one and one that did not pass end the loop.
    abbrev pub after_check :
        (Progress → Eff D HealthResult) → Check → Progress → CheckResult → Eff D HealthResult
    after_check onward check progress (unsupported_check capability) =
        pure (unsupported_health request)
    after_check onward check progress (completed result) =
        if is_passed result.outcome
        then onward (recorded check.kind result progress)
        else pure (failed_check (recorded check.kind result progress))

    abbrev pub at_address :
        (Progress → Eff D HealthResult)
        → Check
        → Progress
        → Observation
        → String
        → Eff D HealthResult
    at_address onward check progress endpoint address =
        if is_executable check.kind
        then run_check request material children check endpoint address
          >>= after_check onward check progress
        else pure (unsupported_health request)

    abbrev pub unresolved_endpoint : HealthResult
    unresolved_endpoint =
        health_failed request "docker.health-endpoint-unresolved"
          "health endpoint is not literal runtime material"

    abbrev pub at_material :
        (Progress → Eff D HealthResult)
        → Check
        → Progress
        → Observation
        → Address
        → Eff D HealthResult
    at_material onward check progress endpoint (literal address) =
        at_address onward check progress endpoint address
    at_material onward check progress endpoint (secret_reference reference) =
        pure unresolved_endpoint
    at_material onward check progress endpoint other_material = pure unresolved_endpoint

    abbrev pub at_endpoint :
        (Progress → Eff D HealthResult) → Check → Progress → Option Observation → Eff D HealthResult
    at_endpoint onward check progress none = pure (
        health_failed request "docker.health-endpoint-missing"
          "health check provider socket has no runtime endpoint")
    at_endpoint onward check progress (some endpoint) =
        at_material onward check progress endpoint endpoint.address

    -- The loop over the checks.
    unfoldable pub run_checks : List Check → Progress → Eff D HealthResult
    unfolding endpoint_named run_check recorded
    run_checks [] progress =
        pure (health_success request "verified-healthy" material.node_id progress)
    run_checks (check ∷ checks) progress =
        at_endpoint (run_checks checks) check progress
          (endpoint_named check.provider_socket endpoints)

  abbrev pub endpoints_of :
      Request → Material → Option (List Observation) → Eff D (List Observation)
  endpoints_of request material none = runtime_private_endpoints request material
  endpoints_of request material (some endpoints) = pure endpoints

  abbrev pub wait_for_checks :
      Request → Material → Option (List Observation) → Children D → List Check → Eff D HealthResult
  wait_for_checks request material endpoints children [] =
      pure (health_success request "no-verification-contract" material.node_id no_progress)
  wait_for_checks request material endpoints children (check ∷ checks) = do
    found ← endpoints_of request material endpoints
    run_checks request material children found (check ∷ checks) no_progress

  -- `_wait_for_healthy`
  unfoldable pub wait_for_healthy :
      Request → Option (List Observation) → Children D → Eff D HealthResult
  unfolding single_product runtime_private_endpoints run_checks
  wait_for_healthy request endpoints children = do
    material ← single_product request
    wait_for_checks request material endpoints children (self.checks_of material)
