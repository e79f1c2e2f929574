-- ===== src/Docker/Interpreter.antt =====
-- The interpreter object of docker/runtime.py with what it stands on, and the helpers that its
-- methods share.
pub mod Calls
use Prim.Native.Char.{Char}
use control_plane_kit_interp.Base.{
  String, Bool, true, false, ◌==◌, List, [], ◌∷◌, Option, none, some, if◌then◌else◌,
}
use control_plane_kit_interp.Base.Dict.{Dict, get}
use control_plane_kit_interp.Effect.{
  Outcome, returned, raised, Eff, pure, raise, catch, Exc, control, contract, precondition,
  unsupported_authority, uncertain, create_error, other, Phase, image_availability, network,
  configuration, container_create, container_start, final_inspect, Suboperation, unknown, Category,
  unexpected, SecretCode,
}
use control_plane_kit_interp.Request.{
  Material, Request, Operation, start_runtime, reconcile_runtime, stop_runtime,
  remove_runtime_resource, AuthorizedResolver, LegacyResolver, Reference, Intent,
}
use control_plane_kit_interp.Docker.Names.{Hashing, network_name, container_name, volume_name}
use control_plane_kit_interp.Docker.Sdk.{Client, Inspection, AuthConfig}
use control_plane_kit_interp.Docker.Sdk.Failures.{failure_category}
use control_plane_kit_interp.Docker.Sdk.References.{OciReference}
use control_plane_kit_interp.Docker.Endpoints.{Addresses}

-- `ImagePullCredentialResolution`
pub data PullCredential : Type 0 where
  credential_resolved : AuthConfig → PullCredential
  credential_missing credential_denied credential_malformed : PullCredential

-- `DockerRuntimeInterpreter` with the parts of Python's library and of Core that its methods use.
pub record Interpreter (D : Type 0) : Type 0 where
  pub hashing : Hashing
  pub addresses : Addresses
  -- `str.isspace` of one character, for `str.strip()`
  pub is_space : Char → Bool
  pub oci : String → String → String → Option OciReference
  -- the group of the local socket by `os.stat`, or `none` for an `OSError`
  pub socket_group : Option String
  pub client : Client D
  pub authorized_secret_resolver : Option (AuthorizedResolver D)
  pub secret_resolver : Option (LegacyResolver D)
  pub image_pull_credentials : Option (Reference → Eff D PullCredential)
  -- the `value` of a `SecretResolutionCode` of Core
  pub secret_code_text : SecretCode → String
  -- `SecretUseIntent.OCI_PULL_CREDENTIAL` of Core
  pub pull_intent : Intent
  -- `parse_image_pull_credential` of a resolved text
  pub parse_credential : String → Outcome AuthConfig

-- The category that `_docker_failure_category` gives to an exception.
abbrev pub category_of : Exc → Suboperation → Category
category_of (other e) s = failure_category e s
category_of _ s = unexpected

-- What `_start_node_provider_call` raises instead of an exception of the operation.
abbrev pub with_suboperation : Option Suboperation → Exc → Exc
with_suboperation (some s) e = uncertain container_create s (category_of e s)
with_suboperation none (create_error s c) = uncertain container_create s c
with_suboperation none e = uncertain container_create unknown unexpected

abbrev translated_plain : Phase → Option Suboperation → Exc → Exc
translated_plain container_create s e = with_suboperation s e
translated_plain phase s e = uncertain phase unknown unexpected

unfoldable pub translated : Phase → Option Suboperation → Exc → Exc
unfolding failure_category
translated phase s (precondition code message) = precondition code message
translated phase s e = translated_plain phase s e

-- `_start_node_provider_call`
unfoldable pub start_node_provider_call :
    {D A : Type 0} → Phase → Option Suboperation → Eff D A → Eff D A
unfolding translated
start_node_provider_call phase s operation = catch operation (λ e. raise (translated phase s e))

-- `_single_product`
unfoldable pub single_product : {D : Type 0} → Request → Eff D Material
single_product request = elim request.products [
  | [] ↦ raise (
      precondition "docker.product-material-required"
        "Docker node activity requires exactly one product material")
  | material ∷ more ↦ elim more [
    | [] ↦ pure material
    | _ ↦ raise (
        precondition "docker.product-material-required"
          "Docker node activity requires exactly one product material")
  ]
]

-- `_runtime_target`
abbrev pub target_of : Operation → Option String
target_of (start_runtime id) = id
target_of (reconcile_runtime id) = id
target_of (stop_runtime id) = id
target_of (remove_runtime_resource id) = id
target_of _ = none

abbrev no_target : {D : Type 0} → Eff D String
no_target = raise (
    precondition "docker.runtime-target-required"
      "Docker runtime activity requires a runtime target")

unfoldable pub runtime_target : {D : Type 0} → Operation → Eff D String
runtime_target operation = elim (target_of operation) [
  | none ↦ no_target
  | some id ↦ if id == "" then no_target else pure id
]

-- `_private_host_for_runtime`
unfoldable pub private_host_for_runtime : String → Material → Inspection → String
unfolding get
private_host_for_runtime network_name material inspection =
    elim (get network_name inspection.private_addresses) [
      | none ↦ material.node_id
      | some address ↦ address
    ]
