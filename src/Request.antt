-- ===== src/Request.antt =====
-- Values of control_plane_kit_core, which is another package, with the attributes that the
-- interpreters read. Where the program asks such a value a question that Core answers by a method,
-- the answer is a field.
use control_plane_kit_interp.Base.{ℕ, String, Bool, List, Option}
use control_plane_kit_interp.Effect.{Eff}

-- `SecretReference` by its `reference_id`, and `SecretUseIntent` by its value.
abbrev pub Reference : Type 0
Reference = String

abbrev pub Intent : Type 0
Intent = String

pub record Selection : Type 0 where
  pub reference : Reference
  pub intent : Intent
  pub version_id : String

-- A grant is a `SecretResolutionGrant`, which knows what it permits, or a
-- `SecretVersionResolutionGrant`, which carries the selection that it is for.
pub data Grant : Type 0 where
  operational : String → (Reference → Intent → Bool) → Grant
  versioned : String → Selection → Grant

-- `SecretDelivery`
pub data Delivery : Type 0 where
  environment_delivery : String → Reference → Intent → Delivery
  reference_delivery : String → Reference → Delivery
  -- the target path, the mode and the name of the variable that holds the path
  file_delivery : String → Reference → Intent → String → Option String → Delivery

-- What a resolver answers: `SecretResolved`, `SecretMissing`, `SecretDenied` or something else.
pub data Resolution : Type 0 where
  resolved : Reference → String → Resolution
  absent refused malformed : Resolution

-- `SecretResolver` through Core's `require_resolved_secret`, and `AuthorizedSecretResolver` through
-- Core's `require_authorized_secret` and its own `resolve`.
pub record LegacyResolver (D : Type 0) : Type 0 where
  pub require_resolved : Reference → Eff D String

pub record AuthorizedResolver (D : Type 0) : Type 0 where
  pub require_authorized : Grant → Eff D String
  pub resolve : Grant → Eff D Resolution

-- An environment binding with the JSON text of its descriptor.
pub record Binding : Type 0 where
  pub name : String
  pub value : String
  pub descriptor : String

pub record Artifact : Type 0 where
  pub artifact_id : String
  pub content_digest : String
  pub target_path : String
  pub file_mode : String

pub record RetainedMount : Type 0 where
  pub resource_id : String
  pub mount_path : String

-- `OciImageReference`
pub record Image : Type 0 where
  pub execution_reference : String
  pub digest : String

-- A provider port with the provider socket that Core's `sockets.provider` finds for it.
pub record ProviderPort : Type 0 where
  pub socket_name : String
  pub protocol : String
  pub container_port : ℕ

-- `RuntimeProductMaterial`
pub record Material : Type 0 where
  pub node_id : String
  pub runtime_id : String
  pub product_key : String
  pub descriptor_sha256 : String
  pub image : Image
  -- `repr(product.runtime_contract.descriptor())`
  pub contract_repr : String
  pub public_environment : List Binding
  pub socket_environment : List Binding
  -- the JSON texts of the descriptors of `runtime_authority_deliveries`
  pub authority_descriptors : List String
  pub configuration_artifacts : List Artifact
  pub retained_data_mounts : List RetainedMount
  pub secret_deliveries : List Delivery
  pub secret_selections : List Selection
  -- the JSON texts of the descriptors of `secret_selections`
  pub selection_descriptors : List String
  pub provider_ports : List ProviderPort
  -- the credential reference of `pull_authority`, and whether it permits the image
  pub pull_authority : Option (Reference × Bool)

-- The operation of a request; the text is the `runtime_id` of its target, if that is a text.
pub data Operation : Type 0 where
  start_runtime reconcile_runtime stop_runtime remove_runtime_resource : Option String → Operation
  start_node reconcile_node stop_node remove_node_resource : Operation
  wait_for_healthy cleanup_configuration other_operation : Operation

-- `RuntimeEffectKind`
pub data EffectKind : Type 0 where
  realize_activity configuration_activity other_kind : EffectKind

-- `RuntimeEffectRequest`
pub record Request : Type 0 where
  pub effect_id : String
  pub workspace_id : String
  pub plan_id : String
  pub desired_graph_id : String
  pub kind : EffectKind
  -- whether `runtime_kind` is `RuntimeKind.DOCKER`
  pub is_docker : Bool
  pub operation : Operation
  pub products : List Material
  pub grants : List Grant
  -- for each authority delivery, whether it is a `LOCAL_DOCKER_SOCKET_MOUNT`
  pub authority_deliveries : List Bool
