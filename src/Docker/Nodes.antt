-- ===== src/Docker/Nodes.antt =====
-- The node operations of docker/runtime.py: a node is a container.
pub mod Started
pub mod Removal
use Prim.Native.String.{◌++◌ as append}
use control_plane_kit_interp.Base.{
  ℕ, String, Bool, true, false, not, ◌&&◌, List, [], ◌∷◌, Option, none, some, is_none,
  if◌then◌else◌,
}
use control_plane_kit_interp.Base.Dict.{Dict}
use control_plane_kit_interp.Effect.{
  Eff, pure, raise, lift, ◌>>=◌, ◌>>◌, catch, Exc, control, precondition, unsupported_authority,
  uncertain, secret_resolution, Phase, network, configuration, container_create, container_start,
  final_inspect, Suboperation, unknown, unexpected,
}
use control_plane_kit_interp.Request.{
  Request, Material, Delivery, Selection, AuthorizedResolver, LegacyResolver,
}
use control_plane_kit_interp.Secrets.{
  Deliveries, resolve_secret_deliveries, resolve_authorized_secret_deliveries,
}
use control_plane_kit_interp.Secrets.Selected.{
  selected_grant_for, resolve_selected_secret_deliveries,
}
use control_plane_kit_interp.Docker.Names.{network_name, container_name}
use control_plane_kit_interp.Docker.Sdk.{Client, Inspection, ImageInspection, AuthConfig}
use control_plane_kit_interp.Docker.Labels.{
  node_labels, runtime_labels, fingerprint_matches, require_label_owner, require_runtime_owner,
  require_node_owner, require_material_evidence, require_node_network,
  require_container_correlation, require_start_node_container,
}
use control_plane_kit_interp.Docker.Authority.{
  DeliveryMaterial, authority_delivery_material, require_container_authority,
}
use control_plane_kit_interp.Docker.Result.{Result, succeed, Endpoint}
use control_plane_kit_interp.Docker.Endpoints.{runtime_endpoint_observations}
use control_plane_kit_interp.Docker.Interpreter.{
  Interpreter, single_product, start_node_provider_call, private_host_for_runtime,
}
use control_plane_kit_interp.Docker.SecretFiles.{preflight_secret_files}
use control_plane_kit_interp.Docker.Images.{image_pull_auth_config, admit_start_node_image}
use control_plane_kit_interp.Docker.Containers.{
  CreateMaterial, prepare_node_container, container_spec, create_node_container,
}

module _ {D : Type 0} (self : Interpreter D) where
  -- The three ways of `_resolve_product_secret_deliveries`; a selected secret with no resolver is an
  -- `AttributeError` once the grant of the first selection is found, which the handler turns into `malformed` as any other exception.
  abbrev malformed_secrets : Exc
  malformed_secrets =
      precondition "docker.secret-resolution-malformed"
        "secret resolver returned malformed material"

  abbrev with_resolver :
      Request → List Delivery → List Selection → Option (AuthorizedResolver D) → Eff D Deliveries
  with_resolver request deliveries [] none =
      resolve_secret_deliveries deliveries self.secret_resolver
  with_resolver request deliveries [] (some resolver) =
      resolve_authorized_secret_deliveries deliveries request.grants resolver
  with_resolver request deliveries (s ∷ ss) none =
      lift (selected_grant_for request.grants s) >>= λ grant. raise malformed_secrets
  with_resolver request deliveries (s ∷ ss) (some resolver) =
      resolve_selected_secret_deliveries deliveries (s ∷ ss) request.grants resolver

  abbrev is_empty : List Delivery → Bool
  is_empty [] = true
  is_empty _ = false

  -- The handlers of `_resolve_product_secret_deliveries`.
  abbrev translate_secrets : List Delivery → Exc → Exc
  translate_secrets deliveries control = control
  translate_secrets deliveries (secret_resolution code) =
      if is_none self.authorized_secret_resolver
        && is_none self.secret_resolver
        && not (is_empty deliveries)
      then precondition "docker.secret-resolution-required"
          "Docker runtime interpreter requires secret resolver"
      else precondition (append "docker.secret-resolution-" (self.secret_code_text code))
          "secret delivery could not be resolved"
  translate_secrets deliveries e = malformed_secrets

  -- `_resolve_product_secret_deliveries`
  unfoldable pub resolve_product_secret_deliveries : Request → Material → Eff D Deliveries
  resolve_product_secret_deliveries request material =
      catch
        (with_resolver request material.secret_deliveries material.secret_selections
          self.authorized_secret_resolver)
        (λ e. raise (translate_secrets material.secret_deliveries e))

  -- The names and labels of one node.
  abbrev pub container_of : Request → Material → String
  container_of request material = container_name self.hashing request.workspace_id material.node_id

  abbrev pub network_of : Request → Material → String
  network_of request material = network_name self.hashing request.workspace_id material.runtime_id

  abbrev pub labels_of : Request → Material → Dict String
  labels_of request material = node_labels self.hashing request material

  abbrev pub runtime_labels_of : Request → Material → Dict String
  runtime_labels_of request material = runtime_labels self.hashing request material.runtime_id

  -- What `_start_node` and `_reconcile_node` report of a node that runs.
  abbrev pub node_result : Request → Material → String → Inspection → Result
  node_result request material action observed =
      succeed request
        (("action", action)
          ∷ ("node_id", material.node_id)
          ∷ ("runtime_id", material.runtime_id)
          ∷ ("container", container_of request material)
          ∷ ("network", network_of request material)
          ∷ ("image", material.image.execution_reference)
          ∷ [])
        (runtime_endpoint_observations self.addresses material.node_id request.desired_graph_id
          (private_host_for_runtime (network_of request material) material observed)
          material.provider_ports [])

  -- The checks of `_start_node` on a container that is there, before anything else happens.
  abbrev pub check_existing :
      Request → Material → DeliveryMaterial → Option Inspection → Eff D (Unit {0})
  check_existing request material authority none = pure tt
  check_existing request material authority (some inspection) = do
    lift (
        require_container_correlation self.is_space false false inspection
          (labels_of request material) (network_of request material))
    require_container_authority self.client false inspection authority

  -- The final checks on the running container.
  unfoldable pub confirm :
      Request
      → Material
      → DeliveryMaterial
      → ImageInspection
      → Bool
      → String
      → Option Inspection
      → Eff D Result
  confirm request material authority image prior action none =
      raise (uncertain final_inspect unknown unexpected)
  confirm request material authority image prior action (some observed) = do
    lift (
        require_start_node_container self.is_space prior prior observed (labels_of request material)
          image (network_of request material) true)
    require_container_authority self.client true observed authority
    pure (node_result request material action observed)

  -- Network, container and start of `_start_node`, each call with its phase.
  abbrev pub start_network : Request → Material → Option Inspection → Eff D (Unit {0})
  start_network request material none = start_node_provider_call network none (
      self.client.create_network (network_of request material) (runtime_labels_of request material))
  start_network request material (some observed) =
      lift (require_runtime_owner observed.labels (runtime_labels_of request material) "network")

  abbrev start_container : Request → Material → Eff D (Unit {0})
  start_container request material =
      start_node_provider_call container_start none
        (self.client.start_container (container_of request material))

  unfoldable pub start_or_create :
      Request
      → Material
      → DeliveryMaterial
      → Deliveries
      → ImageInspection
      → ℕ
      → Option Inspection
      → Eff D String
  start_or_create request material authority secrets image owner_uid none = do
    prepared ← start_node_provider_call configuration none (
        prepare_node_container self request material (labels_of request material) secrets owner_uid)
    start_node_provider_call container_create none (
        self.client.create_container (
          container_spec self request material (labels_of request material)
            (container_of request material) authority prepared))
    start_container request material
    pure "created"
  start_or_create request material authority secrets image owner_uid (some inspection) = do
    lift (
        require_start_node_container self.is_space false false inspection
          (labels_of request material) image (network_of request material) false)
    if inspection.running
        then pure "reused"
        else do start_container request material; pure "started"

  -- `_start_node`
  unfoldable pub start_node : Request → Eff D Result
  start_node request = do
    material ← single_product request
    authority ←
        authority_delivery_material self.client self.socket_group request.authority_deliveries
    existing ←
        start_node_provider_call container_create (some Suboperation.inspection)
          (self.client.inspect_container (container_of request material))
    check_existing request material authority existing
    secrets ← resolve_product_secret_deliveries request material
    auth_config ← image_pull_auth_config self request material
    image ← admit_start_node_image self material auth_config
    owner_uid ← preflight_secret_files self request material secrets image
    observed_network ←
        start_node_provider_call network none
          (self.client.inspect_network (network_of request material))
    start_network request material observed_network
    action ← start_or_create request material authority secrets image owner_uid existing
    observed ←
        start_node_provider_call final_inspect none
          (self.client.inspect_container (container_of request material))
    confirm request material authority image false action observed

  abbrev has_deliveries : Request → Bool
  has_deliveries request = elim request.authority_deliveries [ [] ↦ false | _ ∷ _ ↦ true ]

  -- The checks of `_reconcile_node` on a container that is there.
  unfoldable pub check_reconcilable :
      Request → Material → DeliveryMaterial → Option Inspection → Eff D (Unit {0})
  check_reconcilable request material authority none = pure tt
  check_reconcilable request material authority (some inspection) = do
    lift (require_node_owner inspection.labels (labels_of request material) "container")
    lift (require_material_evidence self.is_space inspection.labels)
    lift (require_node_network inspection (network_of request material))
    require_container_authority self.client false inspection authority
    if fingerprint_matches inspection.labels (labels_of request material)
        then lift (
            require_container_correlation self.is_space true true inspection
              (labels_of request material) (network_of request material))
        else if has_deliveries request
        then raise (unsupported_authority "docker.runtime-authority-change-unsupported")
        else pure tt

  abbrev pub reconcile_network : Request → Material → Option Inspection → Eff D (Unit {0})
  reconcile_network request material none =
      self.client.create_network (network_of request material) (runtime_labels_of request material)
  reconcile_network request material (some observed) =
      lift (require_runtime_owner observed.labels (runtime_labels_of request material) "network")

  abbrev create_again : Request → Material → DeliveryMaterial → Deliveries → ℕ → Eff D (Unit {0})
  create_again request material authority secrets owner_uid =
      create_node_container self request material (labels_of request material)
        (container_of request material) secrets authority owner_uid

  unfoldable pub converge :
      Request
      → Material
      → DeliveryMaterial
      → Deliveries
      → ImageInspection
      → ℕ
      → Option Inspection
      → Eff D String
  converge request material authority secrets image owner_uid none = do
    create_again request material authority secrets owner_uid
    pure "created"
  converge request material authority secrets image owner_uid (some inspection) =
      if fingerprint_matches inspection.labels (labels_of request material)
      then (do
        lift (
            require_start_node_container self.is_space true true inspection
              (labels_of request material) image (network_of request material) false)
        if inspection.running
            then pure "reused"
            else do self.client.start_container (container_of request material); pure "started")
      else do
        lift (require_node_owner inspection.labels (labels_of request material) "container")
        self.client.remove_container (container_of request material)
        create_again request material authority secrets owner_uid
        pure "recreated"

  -- `_reconcile_node`
  unfoldable pub reconcile_node : Request → Eff D Result
  reconcile_node request = do
    material ← single_product request
    authority ←
        authority_delivery_material self.client self.socket_group request.authority_deliveries
    existing ← self.client.inspect_container (container_of request material)
    check_reconcilable request material authority existing
    secrets ← resolve_product_secret_deliveries request material
    auth_config ← image_pull_auth_config self request material
    image ← admit_start_node_image self material auth_config
    owner_uid ← preflight_secret_files self request material secrets image
    observed_network ← self.client.inspect_network (network_of request material)
    reconcile_network request material observed_network
    action ← converge request material authority secrets image owner_uid existing
    observed ← self.client.inspect_container (container_of request material)
    confirm request material authority image true action observed

  abbrev stop_owned : Request → Material → Option Inspection → Eff D String
  stop_owned request material none = pure "absent"
  stop_owned request material (some inspection) = do
    lift (require_node_owner inspection.labels (labels_of request material) "container")
    if inspection.running
        then (do self.client.stop_container (container_of request material); pure "stopped")
        else pure "already-stopped"

  abbrev pub short_result : Request → Material → String → Result
  short_result request material action =
      succeed request
        (("action", action)
          ∷ ("node_id", material.node_id)
          ∷ ("container", container_of request material)
          ∷ [])
        []

  -- `_stop_node`
  unfoldable pub stop_node : Request → Eff D Result
  stop_node request = do
    material ← single_product request
    existing ← self.client.inspect_container (container_of request material)
    action ← stop_owned request material existing
    pure (short_result request material action)

  abbrev remove_owned : Request → Material → Option Inspection → Eff D String
  remove_owned request material none = pure "absent"
  remove_owned request material (some inspection) = do
    lift (require_node_owner inspection.labels (labels_of request material) "container")
    self.client.remove_container (container_of request material)
    pure "removed"

  -- `_remove_node`
  unfoldable pub remove_node : Request → Eff D Result
  remove_node request = do
    material ← single_product request
    existing ← self.client.inspect_container (container_of request material)
    action ← remove_owned request material existing
    pure (short_result request material action)
