-- ===== src/Docker/Authority.antt =====
-- docker/authority.py: does what a container shows of its mounts and groups conform to what the
-- request delivers? And the delivery material that the interpreter derives from a request
-- (docker/runtime.py, `_authority_delivery_material`, `_require_node_container_authority`).
pub mod Meaning
use control_plane_kit_interp.Base.{
  String, Bool, true, false, not, ◌&&◌, ◌||◌, List, [], ◌∷◌, ◌++◌, Option, none, some, ◌==◌,
  if◌then◌else◌,
}
use control_plane_kit_interp.Effect.{
  Eff, pure, raise, lift, ◌>>=◌, ◌>>◌, Outcome, returned, raised, Exc, unsupported_authority,
  uncertain, precondition, final_inspect, container_create, unknown, unexpected, Phase, handle,
  continue,
}
use control_plane_kit_interp.Docker.Sdk.{
  BindMount, ConfiguredBindMount, Inspection, ProviderFacts, Client,
}

-- `DockerAuthorityConformance`
pub data Conformance : Type 0 where
  conformant conflict undecided : Conformance

abbrev pub socket : String
socket = "/var/run/docker.sock"

abbrev pub desktop_proxy : String
desktop_proxy = "/run/host-services/docker.proxy.sock"

-- `_CANONICAL`, `_DESKTOP_OBSERVED`, `_DESKTOP_PROVIDER`
abbrev pub canonical : List BindMount
canonical = record { source_path = socket; target_path = socket; read_only = false } ∷ []

abbrev pub desktop_observed : List BindMount
desktop_observed =
    record { source_path = desktop_proxy; target_path = socket; read_only = false } ∷ []

abbrev pub desktop_provider : ProviderFacts
desktop_provider = record {
  platform_name = "Docker Desktop";
  os_type = "linux";
  engine_version = "29.7.2";
  api_version = "1.55";
}

-- The equalities of dataclasses and tuples.
abbrev pub bool_eq : Bool → Bool → Bool
bool_eq true b = b
bool_eq false b = not b

abbrev pub mount_eq : BindMount → BindMount → Bool
mount_eq a b =
    a.source_path == b.source_path
    && a.target_path == b.target_path
    && bool_eq a.read_only b.read_only

unfoldable pub mounts_eq : List BindMount → List BindMount → Bool
mounts_eq [] [] = true
mounts_eq [] (_ ∷ _) = false
mounts_eq (_ ∷ _) [] = false
mounts_eq (a ∷ ms) (b ∷ ns) = mount_eq a b && mounts_eq ms ns

unfoldable pub texts_eq : List String → List String → Bool
texts_eq [] [] = true
texts_eq [] (_ ∷ _) = false
texts_eq (_ ∷ _) [] = false
texts_eq (a ∷ ss) (b ∷ ts) = a == b && texts_eq ss ts

abbrev pub facts_eq : ProviderFacts → ProviderFacts → Bool
facts_eq a b =
    a.platform_name == b.platform_name
    && a.os_type == b.os_type
    && a.engine_version == b.engine_version
    && a.api_version == b.api_version

abbrev pub not_read_only : Option Bool → Bool
not_read_only none = true
not_read_only (some b) = not b

-- The test of the one configured mount.
abbrev pub is_desktop_mount : ConfiguredBindMount → Bool
is_desktop_mount mount =
    mount.source_path == desktop_proxy
    && mount.target_path == socket
    && not_read_only mount.read_only

-- `_AuthorityDeliveryMaterial`
pub record DeliveryMaterial : Type 0 where
  pub mounts : List BindMount
  pub supplementary_groups : List String

-- `_local_docker_socket_group`
abbrev pub socket_group : {D : Type 0} → Option String → Eff D String
socket_group none = raise (
    precondition "docker.local-socket-delivery-unavailable"
      "local Docker socket delivery requires an accessible Docker socket")
socket_group (some gid) = pure gid

abbrev pub decide_facts : Option ProviderFacts → Conformance
decide_facts none = undecided
decide_facts (some facts) = if facts_eq facts desktop_provider then conformant else conflict

module _ {D : Type 0} (client : Client D) where
  -- The part that asks the provider. Any exception of the two calls makes the answer unknown.
  abbrev pub ask_facts : Bool → Eff D Conformance
  ask_facts false = pure conflict
  ask_facts true = do facts ← client.inspect_authority_provider_facts; pure (decide_facts facts)

  abbrev pub never_raises : Eff D Conformance → Eff D Conformance
  never_raises m d = handle (m d).0 (λ _. pure undecided) (m d).1

  unfoldable pub ask_provider : Eff D Conformance
  ask_provider = never_raises (do local ← client.uses_local_socket socket; ask_facts local)

  abbrev pub configured_case : Option (List ConfiguredBindMount) → Eff D Conformance
  configured_case none = pure undecided
  configured_case (some (mount ∷ [])) =
      if is_desktop_mount mount then ask_provider else pure conflict
  configured_case (some _) = pure conflict

  abbrev pub known_case :
      List BindMount
      → List String
      → DeliveryMaterial
      → Option (List ConfiguredBindMount)
      → Eff D Conformance
  known_case mounts groups expected configured =
      if mounts_eq mounts expected.mounts && texts_eq groups expected.supplementary_groups
      then pure conformant
      else if not (texts_eq groups expected.supplementary_groups)
          || not (mounts_eq expected.mounts canonical)
          || not (mounts_eq mounts desktop_observed)
      then pure conflict
      else configured_case configured

  -- `docker_authority_conformance`
  unfoldable pub docker_authority_conformance : Inspection → DeliveryMaterial → Eff D Conformance
  unfolding ask_provider mounts_eq texts_eq
  docker_authority_conformance inspection expected = elim inspection.bind_mounts [
    | none ↦ pure undecided
    | some mounts ↦ elim inspection.supplementary_groups [
      | none ↦ pure undecided
      | some groups ↦ known_case mounts groups expected inspection.configured_bind_mounts
    ]
  ]

  -- `_require_node_container_authority`
  abbrev pub judge : Bool → Conformance → Eff D (Unit {0})
  judge final conformant = pure tt
  judge final undecided =
      raise (uncertain (if final then final_inspect else container_create) unknown unexpected)
  judge final conflict =
      if final
      then raise (
          precondition "docker.container-authority-conflict"
            "Docker container authority does not match the declared delivery")
      else raise (unsupported_authority "docker.runtime-authority-delivery-conflict")

  unfoldable pub require_container_authority :
      Bool → Inspection → DeliveryMaterial → Eff D (Unit {0})
  unfolding docker_authority_conformance
  require_container_authority final inspection delivery = do
    conformance ← docker_authority_conformance inspection delivery
    judge final conformance

  -- `_authority_delivery_material`; `group` is what `os.stat` says of the socket's group, and
  -- `none` is its `OSError`
  unfoldable pub authority_delivery_material : Option String → List Bool → Eff D DeliveryMaterial
  authority_delivery_material group [] = pure (record { mounts = []; supplementary_groups = [] })
  authority_delivery_material group (false ∷ rest) =
      raise (unsupported_authority "docker.runtime-authority-delivery-unsupported")
  authority_delivery_material group (true ∷ rest) = do
    local ← client.uses_local_socket socket
    (if local
        then pure tt
        else raise (unsupported_authority "docker.runtime-authority-delivery-unsupported"))
    gid ← socket_group group
    later ← authority_delivery_material group rest
    pure (record {
      mounts =
          record { source_path = socket; target_path = socket; read_only = false } ∷ later.mounts;
      supplementary_groups = gid ∷ later.supplementary_groups;
    })
