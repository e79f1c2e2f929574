-- ===== src/Docker/Containers.antt =====
-- Volumes and environment of a node's container, and its creation (docker/runtime.py,
-- `_prepare_node_container` as `_start_node` and `_reconcile_node` call it, with no configuration
-- attempt and no mounts prepared before; `_create_node_container`, `_container_environment`).
pub mod Environment
use control_plane_kit_interp.Base.{
  ℕ, String, true, false, List, [], ◌∷◌, Option, none, some, ◌==◌, text_eq?,
}
use control_plane_kit_interp.Base.Dict.{Dict, get, put, keys}
use control_plane_kit_interp.Effect.{
  Eff, pure, raise, lift, ◌>>=◌, ◌>>◌, precondition, observation_unknown, Outcome, returned, raised,
  require,
}
use control_plane_kit_interp.Request.{Request, Material, Binding, Artifact, RetainedMount}
use control_plane_kit_interp.Secrets.{SecretFile, Deliveries}
use control_plane_kit_interp.Docker.Names.{volume_name, network_name}
use control_plane_kit_interp.Docker.Sdk.{Inspection, SecretMount, ConfigurationMount, ContainerSpec}
use control_plane_kit_interp.Docker.Labels.{label, require_node_owner}
use control_plane_kit_interp.Docker.Authority.{DeliveryMaterial}
use control_plane_kit_interp.Docker.SecretFiles.{
  secret_volume_name, require_selected_secret_identity, selected_secret_identity, secret_labels,
  require_secret_file,
}
use control_plane_kit_interp.Docker.Interpreter.{Interpreter}

-- `_NodeContainerCreateMaterial`
pub record CreateMaterial : Type 0 where
  pub environment : Dict String
  pub volumes : Dict String
  pub configuration_mounts : List ConfigurationMount
  pub secret_mounts : List SecretMount

-- `{binding.name: binding.value for binding in bindings}`
unfoldable pub bindings_dict : Dict String → List Binding → Dict String
unfolding put
bindings_dict d [] = d
bindings_dict d (b ∷ bs) = bindings_dict (put b.name b.value d) bs

-- One part of `_container_environment`: `setdefault`, and an error where values differ.
unfoldable pub merge_part : Dict String → Dict String → Outcome (Dict String)
unfolding get put
merge_part values [] = returned values
merge_part values ((name, value) ∷ part) = elim (get name values) [
  | none ↦ merge_part (put name value values) part
  | some previous ↦ elim (previous == value) [
    | true ↦ merge_part values part
    | false ↦ raised (
        precondition "docker.environment-binding-conflict"
          "container environment bindings conflict")
  ]
]

unfoldable pub merge_parts : Dict String → List (Dict String) → Outcome (Dict String)
unfolding merge_part
merge_parts values [] = returned values
merge_parts values (part ∷ parts) = elim (merge_part values part) [
  | returned values' ↦ merge_parts values' parts
  | raised e ↦ raised e
]

-- `_container_environment`
unfoldable pub container_environment : List (Dict String) → Outcome (Dict String)
unfolding merge_parts
container_environment parts = merge_parts [] parts

module _ {D : Type 0} (self : Interpreter D) (request : Request) (material : Material)
    (labels : Dict String) where
  -- The volume of a configuration artifact and its digest.
  abbrev artifact_labels : Artifact → Dict String
  artifact_labels artifact = put (label "artifact.digest") artifact.content_digest (
      put (label "artifact") artifact.artifact_id
        (put (label "volume.kind") "configuration" labels))

  abbrev written : String → Artifact → Eff D (Option String)
  written volume artifact = do
    self.client.materialize_configuration_artifact volume artifact
    self.client.configuration_artifact_digest volume

  abbrev written_if : String → Artifact → Option String → Eff D (Option String)
  written_if volume artifact none = written volume artifact
  written_if volume artifact (some digest) = pure (some digest)

  abbrev artifact_digest : String → Artifact → Option Inspection → Eff D (Option String)
  artifact_digest volume artifact none = do
    self.client.create_volume volume (artifact_labels artifact)
    written volume artifact
  artifact_digest volume artifact (some inspection) = do
    lift (require_node_owner inspection.labels (artifact_labels artifact) "configuration volume")
    digest ← self.client.configuration_artifact_digest volume
    written_if volume artifact digest

  -- The loop over configuration artifacts.
  unfoldable pub prepare_artifacts : List Artifact → Eff D (List ConfigurationMount)
  prepare_artifacts [] = pure []
  prepare_artifacts (artifact ∷ artifacts) = do
    let volume = volume_name self.hashing request.workspace_id material.node_id artifact.artifact_id
    inspection ← self.client.inspect_volume volume
    digest ← artifact_digest volume artifact inspection
    lift (
        require (text_eq? digest (some artifact.content_digest)) (
          precondition "docker.configuration-digest-conflict"
            "owned configuration volume has unexpected digest"))
    mounts ← prepare_artifacts artifacts
    pure (record { artifact = artifact; volume_name = volume } ∷ mounts)

  -- `retained_volumes`
  unfoldable pub retained_volumes : Dict String → List RetainedMount → Dict String
  unfolding put
  retained_volumes d [] = d
  retained_volumes d (m ∷ ms) =
      retained_volumes
        (put (volume_name self.hashing request.workspace_id material.node_id m.resource_id)
          m.mount_path d)
        ms

  abbrev retained_labels : Dict String
  retained_labels = put (label "volume.kind") "retained-data" labels

  abbrev retain : String → Option Inspection → Eff D (Unit {0})
  retain volume none = self.client.create_volume volume retained_labels
  retain volume (some inspection) =
      lift (require_node_owner inspection.labels retained_labels "retained volume")

  -- The loop over retained volumes.
  unfoldable pub prepare_retained : List String → Eff D (Unit {0})
  prepare_retained [] = pure tt
  prepare_retained (volume ∷ volumes) = do
    inspection ← self.client.inspect_volume volume
    retain volume inspection
    prepare_retained volumes

  -- The labels of a secret's volume, with the identity of a selected secret.
  abbrev pub identity_labels : SecretFile → ℕ → Outcome (Dict String)
  identity_labels secret owner_uid = elim secret.selection [
    | none ↦ returned (secret_labels labels secret)
    | some selection ↦
        elim (selected_secret_identity self.hashing request material secret selection owner_uid) [
          | returned identity ↦
              returned (put (label "secret.identity") identity (secret_labels labels secret))
          | raised e ↦ raised e
        ]
  ]

  abbrev pub require_volume : SecretFile → ℕ → Dict String → Option Inspection → Eff D (Unit {0})
  require_volume secret owner_uid expected none = raise observation_unknown
  require_volume secret owner_uid expected (some volume) = do
    lift (require_node_owner volume.labels expected "secret volume")
    lift (
        require_selected_secret_identity self.hashing request material volume.labels secret
          owner_uid)

  abbrev fill_volume : SecretFile → ℕ → String → Dict String → Option Inspection → Eff D (Unit {0})
  fill_volume secret owner_uid volume expected none = do
    self.client.create_volume volume expected
    created ← self.client.inspect_volume volume
    require_volume secret owner_uid expected created
    self.client.materialize_secret_file volume secret.value secret.file_mode owner_uid
  fill_volume secret owner_uid volume expected (some inspection) =
      require_volume secret owner_uid expected (some inspection)

  -- The loop over secret files.
  unfoldable pub prepare_secrets : ℕ → List SecretFile → Eff D (List SecretMount)
  unfolding secret_volume_name require_selected_secret_identity require_secret_file
  prepare_secrets owner_uid [] = pure []
  prepare_secrets owner_uid (secret ∷ secrets) = do
    volume ← lift (secret_volume_name self.hashing request material secret owner_uid)
    expected ← lift (identity_labels secret owner_uid)
    inspection ← self.client.inspect_volume volume
    fill_volume secret owner_uid volume expected inspection
    require_secret_file self volume secret owner_uid
    observed ← self.client.inspect_volume volume
    require_volume secret owner_uid expected observed
    mounts ← prepare_secrets owner_uid secrets
    pure (record { target_path = secret.target_path; volume_name = volume } ∷ mounts)

  -- `_prepare_node_container`
  unfoldable pub prepare_node_container : Deliveries → ℕ → Eff D CreateMaterial
  unfolding prepare_artifacts retained_volumes prepare_retained prepare_secrets
      container_environment bindings_dict keys
  prepare_node_container secrets owner_uid = do
    let volumes = retained_volumes [] material.retained_data_mounts
    configuration_mounts ← prepare_artifacts material.configuration_artifacts
    prepare_retained (keys volumes)
    secret_mounts ← prepare_secrets owner_uid secrets.files
    environment ← lift (
        container_environment (
          bindings_dict [] material.public_environment
          ∷ bindings_dict [] material.socket_environment
          ∷ secrets.environment
          ∷ []))
    pure (record {
      environment = environment;
      volumes = volumes;
      configuration_mounts = configuration_mounts;
      secret_mounts = secret_mounts;
    })

  -- The arguments that both creations give to the client.
  abbrev pub container_spec : String → DeliveryMaterial → CreateMaterial → ContainerSpec
  container_spec container_name authority prepared = record {
    name = container_name;
    image = material.image.execution_reference;
    environment = prepared.environment;
    labels = labels;
    volumes = prepared.volumes;
    configuration_mounts = prepared.configuration_mounts;
    secret_mounts = prepared.secret_mounts;
    bind_mounts = authority.mounts;
    supplementary_groups = authority.supplementary_groups;
    network = network_name self.hashing request.workspace_id material.runtime_id;
    aliases = material.node_id ∷ [];
  }

  -- `_create_node_container`
  unfoldable pub create_node_container :
      String → Deliveries → DeliveryMaterial → ℕ → Eff D (Unit {0})
  unfolding prepare_node_container
  create_node_container container_name secrets authority owner_uid = do
    prepared ← prepare_node_container secrets owner_uid
    self.client.run_container (container_spec container_name authority prepared)
