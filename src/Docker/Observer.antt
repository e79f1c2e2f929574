-- ===== src/Docker/Observer.antt =====
-- docker/observer.py: what the observer concludes from inspections of the daemon, without changing it.
pub mod Confirmed
pub mod Reads
pub mod Acquired
mod Tests
use Prim.Native.String.{◌++◌ as append}
use control_plane_kit_interp.Base.{
  String, Bool, true, false, not, ◌&&◌, ◌||◌, List, [], ◌∷◌, Option, none, some, ◌==◌, text_eq?,
  is_none, if◌then◌else◌,
}
use control_plane_kit_interp.Base.Dict.{Dict, dict_eq}
use control_plane_kit_interp.Base.Lists.{any}
use control_plane_kit_interp.Effect.{
  Eff, pure, raise, lift, catch, ◌>>=◌, ◌>>◌, Exc, Outcome, returned, raised, precondition,
  unsupported_authority, type_error, index_error,
}
use control_plane_kit_interp.Request.{
  Request, Material, Operation, start_runtime, reconcile_runtime, stop_runtime,
  remove_runtime_resource, start_node, reconcile_node, stop_node, remove_node_resource,
  wait_for_healthy, cleanup_configuration, other_operation, EffectKind, realize_activity,
  configuration_activity, other_kind,
}
use control_plane_kit_interp.Docker.Names.{Hashing, network_name, container_name}
use control_plane_kit_interp.Docker.Labels.{
  runtime_labels, node_labels, node_correlation_labels, only_network,
}
use control_plane_kit_interp.Docker.Sdk.{Client, Inspection, ImageInspection}
use control_plane_kit_interp.Docker.Sdk.References.{
  OciReference, matches_image_reference, is_canonical_sha256_image_id,
}
use control_plane_kit_interp.Docker.Authority.{
  Conformance, conformant, conflict, undecided, DeliveryMaterial, authority_delivery_material,
  docker_authority_conformance,
}

-- `_Postcondition`
pub data Postcondition : Type 0 where
  confirmed absent conflicting unestablished unsupported : Postcondition

-- What the observer asks of values of Core: the node that an operation targets, and whether the
-- runtime contract of a product has verification checks.
pub record Targets : Type 0 where
  pub target_node : Request → String
  pub has_checks : Material → Bool

abbrev has_any {ℓ} : {A : Type ℓ} → List A → Bool
has_any [] = false
has_any (_ ∷ _) = true

abbrev is_realize : EffectKind → Bool
is_realize realize_activity = true
is_realize _ = false

abbrev pub is_reconcile : Operation → Bool
is_reconcile reconcile_node = true
is_reconcile _ = false

-- `operation_type in (StartNode, ReconcileNode)`
abbrev pub is_start : Operation → Bool
is_start start_node = true
is_start reconcile_node = true
is_start _ = false

-- `_RUNTIME_READS` and `_NODE_READS`
abbrev is_runtime_read : Operation → Bool
is_runtime_read (start_runtime _) = true
is_runtime_read (reconcile_runtime _) = true
is_runtime_read (remove_runtime_resource _) = true
is_runtime_read _ = false

abbrev is_node_read : Operation → Bool
is_node_read start_node = true
is_node_read reconcile_node = true
is_node_read stop_node = true
is_node_read remove_node_resource = true
is_node_read _ = false

module _ (targets : Targets) (request : Request) where
  -- What the observer cannot see in a started node.
  abbrev is_opaque : Material → Bool
  is_opaque material =
      has_any material.configuration_artifacts
      || has_any material.secret_deliveries
      || has_any material.retained_data_mounts
      || any not request.authority_deliveries
      || is_reconcile request.operation && targets.has_checks material

  abbrev admit_node : List Material → Option Postcondition
  admit_node (material ∷ []) =
      if material.node_id == targets.target_node request
      then if is_start request.operation && is_opaque material then some unsupported else none
      else some unestablished
  admit_node _ = some unestablished

  -- `_admit`
  unfoldable pub admit : Option Postcondition
  admit =
      if is_realize request.kind && request.is_docker
      then if is_runtime_read request.operation
        then none
        else if is_node_read request.operation
        then admit_node request.products
        else some unsupported
      else some unsupported

-- `_ownership`; the inspection has labels
unfoldable pub ownership : Bool → Bool → Inspection → String → Dict String → Option Postcondition
ownership cpk_labels_only allow_prior_plan inspection name labels =
    let observed =
      if cpk_labels_only
      then node_correlation_labels allow_prior_plan false inspection.labels
      else inspection.labels in
    let expected =
      if cpk_labels_only then node_correlation_labels allow_prior_plan false labels else labels in
    if (inspection.name == name) && dict_eq observed expected then none else some conflicting

module _ {D : Type 0} (hashing : Hashing) (oci : String → String → String → Option OciReference)
    (socket_group : Option String) (client : Client D) (request : Request) where
  abbrev is_removal : Operation → Bool
  is_removal (remove_runtime_resource _) = true
  is_removal _ = false

  abbrev judge_network : String → Option Inspection → Postcondition
  judge_network runtime_id none = absent
  judge_network runtime_id (some network) =
      elim (ownership false false network (network_name hashing request.workspace_id runtime_id)
        (runtime_labels hashing request runtime_id)) [
          | some verdict ↦ verdict
          | none ↦ if is_removal request.operation then unestablished else confirmed
        ]

  -- The runtime operations; a target that is no text has no name.
  unfoldable pub inspect_runtime : Option String → Eff D Postcondition
  inspect_runtime none = raise type_error
  inspect_runtime (some runtime_id) = do
    network ← client.inspect_network (network_name hashing request.workspace_id runtime_id)
    pure (judge_network runtime_id network)

  abbrev pub container_of : Material → String
  container_of material = container_name hashing request.workspace_id material.node_id

  abbrev pub network_of : Material → String
  network_of material = network_name hashing request.workspace_id material.runtime_id

  -- The container's ownership, by the labels of the interpreter.
  abbrev owned : Material → Inspection → Option Postcondition
  owned material container =
      ownership true (is_reconcile request.operation) container (container_of material)
        (node_labels hashing request material)

  -- An owned container of an operation that does not start it.
  abbrev settled : Operation → Bool → Postcondition
  settled stop_node running = if running then unestablished else confirmed
  settled _ running = unestablished

  abbrev judge_existing : Material → Option Inspection → Postcondition
  judge_existing material none = absent
  judge_existing material (some container) = elim (owned material container) [
    | some verdict ↦ verdict
    | none ↦ settled request.operation container.running
  ]

  unfoldable pub inspect_existing : Material → Eff D Postcondition
  inspect_existing material = do
    container ← client.inspect_container (container_of material)
    pure (judge_existing material container)

  -- The image of the container against an inspection of the declared one.
  abbrev has_canonical_image : Option String → Bool
  has_canonical_image none = false
  has_canonical_image (some image_id) = is_canonical_sha256_image_id image_id

  abbrev judge_image : Material → Inspection → Option ImageInspection → Postcondition
  judge_image material container none = unestablished
  judge_image material container (some image) =
      if matches_image_reference oci material.image.execution_reference image.repo_digests
        && has_canonical_image container.image_id
      then if text_eq? container.image_id (some image.image_id)
          && only_network container.network_names (network_of material)
        then confirmed
        else conflicting
      else unestablished

  abbrev after_conformance : Material → Inspection → Conformance → Eff D Postcondition
  after_conformance material container undecided = pure unestablished
  after_conformance material container conflict = pure conflicting
  after_conformance material container conformant = do
    image ← client.inspect_image material.image.execution_reference
    pure (judge_image material container image)

  abbrev judge_started : Material → DeliveryMaterial → Bool → Inspection → Eff D Postcondition
  judge_started material authority networked container =
      if networked && container.running
      then (do
        conformance ← docker_authority_conformance client container authority
        after_conformance material container conformance)
      else pure unestablished

  abbrev with_container :
      Material → DeliveryMaterial → Bool → Option Inspection → Eff D Postcondition
  with_container material authority networked none = pure absent
  with_container material authority networked (some container) = elim (owned material container) [
    | some verdict ↦ pure verdict
    | none ↦ judge_started material authority networked container
  ]

  abbrev look_for_container : Material → DeliveryMaterial → Bool → Eff D Postcondition
  look_for_container material authority networked = do
    container ← client.inspect_container (container_of material)
    with_container material authority networked container

  abbrev with_network : Material → DeliveryMaterial → Option Inspection → Eff D Postcondition
  with_network material authority none = look_for_container material authority false
  with_network material authority (some network) =
      elim (ownership false false network (network_of material)
        (runtime_labels hashing request material.runtime_id)) [
          | some verdict ↦ pure verdict
          | none ↦ look_for_container material authority true
        ]

  -- A started node, once it is known what is delivered to it.
  unfoldable pub inspect_started : Material → DeliveryMaterial → Eff D Postcondition
  inspect_started material authority = do
    network ← client.inspect_network (network_of material)
    with_network material authority network

  abbrev pub refused : Exc → Eff D Postcondition
  refused (unsupported_authority code) = pure unsupported
  refused (precondition code message) = pure unestablished
  refused e = raise e

  -- The `try` covers the delivery only.
  abbrev pub delivered : Outcome DeliveryMaterial → Material → Eff D Postcondition
  delivered (returned authority) material = inspect_started material authority
  delivered (raised e) material = refused e

  abbrev pub after_delivery : Material → Eff D Postcondition
  after_delivery material d =
      let delivery =
        authority_delivery_material client socket_group request.authority_deliveries d in
      delivered delivery.0 material delivery.1

  abbrev pub by_kind : Bool → Material → Eff D Postcondition
  by_kind true material = after_delivery material
  by_kind false material = inspect_existing material

  abbrev pub inspect_node : List Material → Eff D Postcondition
  inspect_node [] = raise index_error
  inspect_node (material ∷ more) = by_kind (is_start request.operation) material

  -- `_inspect`, of an admitted request
  unfoldable pub inspect : Operation → Eff D Postcondition
  unfolding inspect_runtime inspect_existing inspect_started
  inspect (start_runtime id) = inspect_runtime id
  inspect (reconcile_runtime id) = inspect_runtime id
  inspect (remove_runtime_resource id) = inspect_runtime id
  inspect _ = inspect_node request.products
