-- ===== src/Docker/Configuration/Node.antt =====
-- `_execute_configuration_node` and `_configuration_node` (docker/runtime.py): a node with selected
-- configurations or secrets is brought up, and an earlier container is replaced by its exact identity. Here are the labels, the reservation and
-- the checks that come before anything is changed.
pub mod Install
pub mod Execute
pub mod Errors
pub mod Replaced
pub mod Verified
use Prim.Native.Nat.{◌/◌, max}
use Prim.Native.String.{◌++◌ as append, count}
use control_plane_kit_interp.Base.{
  ℕ, zero, suc, ◌+◌, ◌*◌, String, Bool, true, false, not, ◌&&◌, ◌||◌, List, [], ◌∷◌, ◌++◌, map,
  Option, none, some, ◌==◌, text_eq?, is_none, leb, if◌then◌else◌,
}
use control_plane_kit_interp.Base.Dict.{Dict, get, put, update}
use control_plane_kit_interp.Base.Json.{Json, string, array, Items, end, item}
use control_plane_kit_interp.Base.Lists.{length, all, range}
use control_plane_kit_interp.Effect.{
  Eff, pure, raise, lift, catch, ◌>>=◌, ◌>>◌, Outcome, returned, raised, Exc, Check, require,
  ◌then◌, control, contract, precondition, unsupported_authority, observation_unknown,
  material_conflict, configuration_evidence, key_error,
}
use control_plane_kit_interp.Request.{
  Request, Material, Operation, start_node, reconcile_node, Delivery, file_delivery, Artifact,
  ProviderPort, EffectKind, configuration_activity,
}
use control_plane_kit_interp.Secrets.{SecretFile, Deliveries}
use control_plane_kit_interp.Secrets.Selected.{is_start_or_reconcile}
use control_plane_kit_interp.Docker.Names.{volume_name}
use control_plane_kit_interp.Docker.Sdk.{
  Client, Inspection, ImageInspection, ConfigurationMount, SecretMount,
}
use control_plane_kit_interp.Docker.Sdk.ConfigurationVolumes.{is_identity}
use control_plane_kit_interp.Docker.Labels.{
  label, fingerprint_matches, require_node_owner, require_runtime_owner, require_material_evidence,
  require_node_network, require_container_correlation, require_start_node_container,
}
use control_plane_kit_interp.Docker.Authority.{
  DeliveryMaterial, authority_delivery_material, require_container_authority,
}
use control_plane_kit_interp.Docker.Result.{Kind, succeeded, failed, unsupported, Endpoint}
use control_plane_kit_interp.Docker.Endpoints.{runtime_endpoint_observations}
use control_plane_kit_interp.Docker.Interpreter.{
  Interpreter, single_product, private_host_for_runtime,
}
use control_plane_kit_interp.Docker.SecretFiles.{preflight_secret_files, secret_volume_name}
use control_plane_kit_interp.Docker.Images.{image_pull_auth_config, admit_start_node_image}
use control_plane_kit_interp.Docker.Containers.{CreateMaterial, container_spec}
use control_plane_kit_interp.Docker.Nodes.{
  resolve_product_secret_deliveries, container_of, network_of, labels_of, runtime_labels_of,
}
use control_plane_kit_interp.Docker.Configuration.Attempt.{
  Attempt, AttemptPhase, authority_preflight, network_phase, container_preparation,
  container_remove, container_create, container_start, installed_verification, Correlation,
  new_attempt, on, assign,
}
use control_plane_kit_interp.Docker.Configuration.Staging.{
  stage_configuration, installed_configuration_matches,
}
use control_plane_kit_interp.Docker.Configuration.Prepare.{prepare_for_attempt}
use control_plane_kit_interp.Docker.Configuration.Evidence.{
  AttemptResult, Core, attempt_result, uncertain_result, configuration_receipt,
  secret_installation_evidence, failure_of,
}

-- `text * n` and `[value] * n`
unfoldable pub times : ℕ → String → String
times zero s = ""
times (suc n) s = append s (times n s)

unfoldable pub copies : ℕ → Json → Items
copies zero v = end
copies (suc n) v = item v (copies n v)

abbrev is_file : Delivery → Bool
is_file (file_delivery _ _ _ _ _) = true
is_file _ = false

abbrev file_count : List Delivery → ℕ
file_count [] = 0
file_count (d ∷ ds) = if is_file d then suc (file_count ds) else file_count ds

abbrev pub selection_label : String
selection_label = label "configuration.selection"

module _ {D : Type 0} (self : Interpreter D) (core : Core) (request : Request)
    (material : Material) where
  abbrev Node : Type 0 → Type 0
  Node A = Eff (D × Attempt) A

  -- The labels of the container, with the selection of the attempt.
  abbrev pub labels_with : Option Correlation → Dict String
  labels_with none = labels_of self request material
  labels_with (some correlation) =
      put selection_label correlation.selection_fingerprint (labels_of self request material)

  -- `common`
  abbrev common : Dict Json
  common =
      ("node_id", string material.node_id)
      ∷ ("runtime_id", string material.runtime_id)
      ∷ ("container", string (container_of self request material))
      ∷ ("network", string (network_of self request material))
      ∷ ("image", string material.image.execution_reference)
      ∷ []

  abbrev endpoints : String → List Endpoint
  endpoints host =
      runtime_endpoint_observations self.addresses material.node_id request.desired_graph_id host
        material.provider_ports []

  -- The volumes that the earlier container retains.
  abbrev retained : Inspection → List String
  retained inspection =
      core.sorted_set (map (λ mount. mount.volume_name) inspection.readonly_secret_mounts)

  abbrev retain_mounts : Option Inspection → Option Correlation → Node (Unit {0})
  retain_mounts none correlation = pure tt
  retain_mounts (some inspection) none = pure tt
  retain_mounts (some inspection) (some correlation) = do
    lift (
        require
          (leb (length (retained inspection)) 32
            && all (λ name. leb (count name) 256) (retained inspection))
          (precondition "docker.secret-result-capacity"
            "Secret attempt exceeds its bounded resource context"))
    assign (λ a. record a { retained_mounts = retained inspection })

  abbrev config_count : Option Correlation → ℕ
  config_count none = 0
  config_count (some _) = length (core.instances request)

  abbrev files_wanted : ℕ
  files_wanted = file_count material.secret_deliveries

  -- `maximum`: the attempt at its largest
  abbrev maximum : Attempt → Attempt
  maximum a = record a {
    phase = installed_verification;
    attempted_indices = range (config_count a.correlation);
    staged_indices = range (config_count a.correlation);
    secret_attempted_indices = range files_wanted;
    secret_staged_indices = range files_wanted;
    file_owner_uid = if leb 1 files_wanted then some 2147483647 else none;
    old_container_id = some (times 64 "e");
    container_id = some (times 64 "f");
    old_removed = true;
    unknown_created_resource = false;
  }

  abbrev reserve : Json
  reserve =
      array
        (copies ((1024 + 64 * length material.provider_ports + 255) / 256) (string (times 256 "x")))

  abbrev largest_result :
      Attempt → Outcome (Dict Json) → Outcome (Dict Json) → Outcome AttemptResult
  largest_result a (returned secret) (returned configuration) =
      attempt_result core self.hashing request.effect_id
        (record (maximum a) { unknown_created_resource = true }) succeeded none
        (endpoints material.node_id)
        (update common (update (update secret configuration) (("capacity_reserve", reserve) ∷ [])))
  largest_result a (returned secret) (raised e) = raised e
  largest_result a (raised e) o = raised e

  abbrev too_large : Outcome AttemptResult → Check
  too_large (returned _) = returned tt
  too_large (raised contract) = raised (
      precondition "docker.configuration-result-capacity"
        "Configuration result cannot fit its bounded envelope")
  too_large (raised e) = raised e

  -- The reservation of the largest result, before anything is changed.
  unfoldable pub reserve_capacity : Attempt → Check
  unfolding times copies range secret_installation_evidence configuration_receipt attempt_result
  reserve_capacity a = too_large (
      largest_result a
        (secret_installation_evidence core self.hashing request.effect_id (maximum a))
        (configuration_receipt core self.hashing request.effect_id (maximum a)))

  -- Whether a container has the declared material and the selection of the attempt.
  abbrev pub same_selection : Inspection → Option Correlation → Bool
  same_selection inspection none = true
  same_selection inspection (some correlation) =
      text_eq? (get selection_label inspection.labels) (some correlation.selection_fingerprint)

  abbrev has_deliveries : Bool
  has_deliveries = elim request.authority_deliveries [ [] ↦ false | _ ∷ _ ↦ true ]

  -- The earlier container with its identity; the flag says that the installation is the same.
  abbrev pub Earlier : Type 0
  Earlier = Option (Inspection × (String × Bool))

  abbrev check_replaceable : Bool → Inspection → Dict String → Bool → Node (Unit {0})
  check_replaceable false inspection labels same = lift (
      require_container_correlation self.is_space false false inspection labels
        (network_of self request material))
  check_replaceable true inspection labels same =
      if has_deliveries && not same
      then raise (unsupported_authority "docker.runtime-authority-change-unsupported")
      else pure tt

  abbrev examine :
      Bool → Option Correlation → DeliveryMaterial → Inspection → Option String → Node Earlier
  examine reconcile correlation authority inspection none = raise observation_unknown
  examine reconcile correlation authority inspection (some identity) = do
    let labels = labels_with correlation
    assign (λ a. record a { old_container_id = some identity })
    lift (require_node_owner inspection.labels labels "container")
    lift (require_material_evidence self.is_space inspection.labels)
    lift (require_node_network inspection (network_of self request material))
    on (require_container_authority self.client false inspection authority)
    let same = fingerprint_matches inspection.labels labels && same_selection inspection correlation
    check_replaceable reconcile inspection labels same
    pure (some (inspection, (identity, same)))

  -- The checks on the earlier container.
  unfoldable pub examine_earlier :
      Bool → Option Correlation → DeliveryMaterial → Option Inspection → Node Earlier
  examine_earlier reconcile correlation authority none = pure none
  examine_earlier reconcile correlation authority (some inspection) =
      examine reconcile correlation authority inspection inspection.container_id
