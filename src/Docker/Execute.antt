-- ===== src/Docker/Execute.antt =====
-- `DockerRuntimeInterpreter.execute` (docker/runtime.py) of an interpreter that holds no invocation
-- port of its own: the check of the port that it is given, which method a request reaches, and what
-- becomes of every exception.
pub mod Handlers
use control_plane_kit_interp.Base.{
  ℕ, String, Bool, true, false, not, ◌&&◌, ◌||◌, List, [], ◌∷◌, Option, none, some, is_none, ltb,
  if◌then◌else◌,
}
use control_plane_kit_interp.Base.Lists.{length}
use Prim.Native.String.{◌++◌ as append}
use control_plane_kit_interp.Effect.{
  Eff, pure, raise, lift, ◌>>=◌, ◌>>◌, Outcome, returned, raised, Exc, control, contract,
  precondition, unsupported_authority, uncertain, create_error, observation_unknown,
  material_conflict, volume_in_use, configuration_evidence, secret_file_evidence, secret_resolution,
  other, SecretCode, missing, Phase, image_availability, network, configuration, container_create,
  container_start, final_inspect, Suboperation, Category, handle, catch,
}
use control_plane_kit_interp.Request.{
  Request, Material, Operation, start_runtime, reconcile_runtime, stop_runtime,
  remove_runtime_resource, start_node, reconcile_node, stop_node, remove_node_resource,
  wait_for_healthy, cleanup_configuration, other_operation, EffectKind, realize_activity,
  configuration_activity, other_kind, Delivery, file_delivery,
}
use control_plane_kit_interp.Secrets.Selected.{
  validate_selected_secret_grants, is_start_or_reconcile,
}
use control_plane_kit_interp.Docker.Result.{
  Result, fail, failed, uncertain_kind, unsupported_result, failed_result,
}
use control_plane_kit_interp.Invocations.{
  Port, PortValue, no_port, bad_port, bounded, control_errors,
}
use control_plane_kit_interp.Docker.Interpreter.{Interpreter}
use control_plane_kit_interp.Docker.Networks
use control_plane_kit_interp.Docker.Nodes

-- The values of the three enumerations, as they stand in the evidence.
abbrev phase_text : Phase → String
phase_text image_availability = "image-availability"
phase_text network = "network"
phase_text configuration = "configuration"
phase_text container_create = "container-create"
phase_text container_start = "container-start"
phase_text final_inspect = "final-inspect"

abbrev suboperation_text : Suboperation → String
suboperation_text Suboperation.inspection = "container-inspection"
suboperation_text Suboperation.request = "request-construction"
suboperation_text Suboperation.endpoint = "endpoint-construction"
suboperation_text Suboperation.create = "sdk-create"
suboperation_text Suboperation.unknown = "unknown"

abbrev category_text : Category → String
category_text Category.timeout = "timeout"
category_text Category.transport = "transport"
category_text Category.api = "provider-api"
category_text Category.material = "invalid-request-material"
category_text Category.unexpected = "unexpected"

-- `_bounded_error_message`: the name of the exception's class
abbrev class_name_of : Exc → String
class_name_of control = "InvocationPortError"
class_name_of contract = "RuntimeEffectContractError"
class_name_of (precondition _ _) = "_DockerInterpreterPreconditionError"
class_name_of (unsupported_authority _) = "_DockerInterpreterUnsupportedAuthorityError"
class_name_of (uncertain _ _ _) = "_DockerStartNodeUncertainError"
class_name_of (create_error _ _) = "_DockerContainerCreateError"
class_name_of observation_unknown = "ConfigurationObservationUnknown"
class_name_of material_conflict = "ConfigurationMaterialConflict"
class_name_of volume_in_use = "DockerSdkConfigurationVolumeInUse"
class_name_of configuration_evidence = "DockerSdkConfigurationEvidenceError"
class_name_of secret_file_evidence = "DockerSdkSecretFileEvidenceError"
class_name_of (secret_resolution _) = "SecretResolutionError"
class_name_of (other e) = e.class_name

-- The details of a failure by phase.
abbrev phase_details : Phase → Suboperation → Category → List (String × String)
phase_details container_create s c =
    ("phase", phase_text container_create)
    ∷ ("suboperation", suboperation_text s)
    ∷ ("category", category_text c)
    ∷ []
phase_details phase s c = ("phase", phase_text phase) ∷ []

-- The methods that the dispatch leads to besides those of `Nodes` and `Networks`: `_execute_invoked`
-- with a port, the health checks, the configuration path and the cleanup; and `runtime_effect_intent_for_request` of Core with the
-- reconstruction of the request, which admit it or raise.
pub record Methods (D : Type 0) : Type 1 where
  pub admit_intent : Request → Outcome (Unit {0})
  pub execute_invoked : Port D → Request → Eff D Result
  pub wait_for_healthy_method : Request → Eff D Result
  pub configuration_node : Request → Eff D Result
  pub cleanup : Request → Eff D Result

-- `_has_selected_secrets`
abbrev selects : List Material → Bool
selects (material ∷ []) = elim material.secret_selections [ [] ↦ false | _ ∷ _ ↦ true ]
selects _ = false

unfoldable pub has_selected_secrets : Request → Bool
has_selected_secrets request = is_start_or_reconcile request.operation && selects request.products

abbrev file_count : List Delivery → ℕ
file_count [] = 0
file_count (file_delivery _ _ _ _ _ ∷ ds) = ℕ.suc (file_count ds)
file_count (_ ∷ ds) = file_count ds

abbrev files_of : List Material → ℕ
files_of (material ∷ []) = file_count material.secret_deliveries
files_of _ = 0

-- Is this effect one that the interpreter executes?
abbrev executes_kind : EffectKind → Bool
executes_kind other_kind = false
executes_kind _ = true

abbrev is_configuration : EffectKind → Bool
is_configuration configuration_activity = true
is_configuration _ = false

abbrev is_cleanup : Operation → Bool
is_cleanup cleanup_configuration = true
is_cleanup _ = false

module _ {D : Type 0} where
  -- The `except` clauses: only a control error leaves the interpreter.
  unfoldable pub handlers : Request → Exc → Eff D Result
  handlers request control = raise control
  handlers request contract =
      pure
        (failed_result request "docker.runtime-request-invalid" "Docker runtime request is invalid")
  handlers request (unsupported_authority code) = pure (unsupported_result request code)
  handlers request (precondition code message) = pure (failed_result request code message)
  handlers request (uncertain phase s c) = pure (
      fail uncertain_kind request "docker.effect-uncertain" "Docker runtime effect is uncertain"
        (phase_details phase s c))
  handlers request e =
      pure (fail uncertain_kind request "docker.effect-uncertain" (class_name_of e) [])

module _ {D : Type 0} (self : Interpreter D) (methods : Methods D) where
  abbrev admission_error : Exc → Exc
  admission_error (secret_resolution missing) =
      precondition "docker.secret-resolution-required"
        "selected secret grant coverage is incomplete"
  admission_error (secret_resolution code) =
      precondition (append "docker.secret-resolution-" (self.secret_code_text code))
        "selected secret grant coverage is incomplete"
  admission_error e = e

  abbrev within_slots : Request → Outcome (Unit {0})
  within_slots request =
      if has_selected_secrets request && ltb 32 (files_of request.products)
      then raised (
          precondition "docker.secret-result-capacity"
            "Selected secret file slots exceed the bounded adapter capacity")
      else returned tt

  abbrev admitted_slots : Request → Outcome (Unit {0}) → Outcome (Unit {0})
  admitted_slots request (returned _) = within_slots request
  admitted_slots request (raised e) = raised (admission_error e)

  -- `_admit_selected_secrets`, after the reconstruction by Core
  unfoldable pub admit_selected_secrets : Request → Outcome (Unit {0})
  unfolding has_selected_secrets validate_selected_secret_grants
  admit_selected_secrets request =
      admitted_slots request
        (validate_selected_secret_grants request (is_none self.authorized_secret_resolver))

  -- The `match request.operation`
  unfoldable pub dispatch : Request → Operation → Eff D Result
  dispatch request (start_runtime _) = Networks.start_runtime self request
  dispatch request (reconcile_runtime _) = Networks.reconcile_runtime self request
  dispatch request (stop_runtime _) = Networks.stop_runtime self request
  dispatch request (remove_runtime_resource _) = Networks.remove_runtime self request
  dispatch request start_node = Nodes.start_node self request
  dispatch request reconcile_node = Nodes.reconcile_node self request
  dispatch request wait_for_healthy = methods.wait_for_healthy_method request
  dispatch request stop_node = Nodes.stop_node self request
  dispatch request remove_node_resource = Nodes.remove_node self request
  dispatch request cleanup_configuration = methods.cleanup request
  dispatch request other_operation =
      pure (unsupported_result request "docker.unsupported-activity-operation")

  -- The body of the `try`; a client is bound, so there is no local policy.
  unfoldable pub attempt : Request → Eff D Result
  unfolding dispatch admit_selected_secrets
  attempt request = do
    lift (methods.admit_intent request)
    lift (admit_selected_secrets request)
    if is_cleanup request.operation
        then methods.cleanup request
        else if is_configuration request.kind || has_selected_secrets request
        then methods.configuration_node request
        else dispatch request request.operation

  -- `execute` without a port, after the check of the ports
  unfoldable pub execute_direct : Request → Eff D Result
  unfolding attempt handlers
  execute_direct request =
      if executes_kind request.kind
      then if request.is_docker
        then catch (attempt request) (handlers request)
        else pure (unsupported_result request "docker.unsupported-runtime-kind")
      else pure (unsupported_result request "docker.unsupported-effect-kind")

  abbrev pub after_control : PortValue D → Request → Eff D Result
  after_control no_port request = execute_direct request
  after_control bad_port request = raise control
  after_control (bounded port) request = methods.execute_invoked port request

  -- `execute`, with `require_invocations` and the argument `invocations`. A port that is no port has
  -- raised before.
  unfoldable pub execute : Bool → PortValue D → Request → Eff D Result
  unfolding control_errors execute_direct
  execute require_invocations invocations request =
      lift (control_errors require_invocations invocations) >>= λ controls.
      after_control invocations request
