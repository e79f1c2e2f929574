-- ===== src/Docker/Configuration/Node/Install.antt =====
-- The middle part of `_configuration_node` (docker/runtime.py): the container is kept, or created in the
-- place of an earlier one, which is removed by its identity.
use control_plane_kit_interp.Base.{
  ℕ, String, Bool, true, false, List, [], ◌∷◌, Option, none, some, is_none, if◌then◌else◌,
}
use control_plane_kit_interp.Base.Lists.{length, range}
use control_plane_kit_interp.Effect.{pure, raise, lift, ◌>>=◌, ◌>>◌, require, observation_unknown}
use control_plane_kit_interp.Request.{Request, Material, Artifact}
use control_plane_kit_interp.Secrets.{Deliveries}
use control_plane_kit_interp.Docker.Names.{volume_name}
use control_plane_kit_interp.Docker.Sdk.{Inspection, ImageInspection, ConfigurationMount}
use control_plane_kit_interp.Docker.Sdk.ConfigurationVolumes.{is_identity}
use control_plane_kit_interp.Docker.Labels.{require_runtime_owner, require_start_node_container}
use control_plane_kit_interp.Docker.Authority.{DeliveryMaterial}
use control_plane_kit_interp.Docker.Interpreter.{Interpreter}
use control_plane_kit_interp.Docker.Containers.{container_spec}
use control_plane_kit_interp.Docker.Nodes.{container_of, network_of, runtime_labels_of}
use control_plane_kit_interp.Docker.Configuration.Attempt.{
  AttemptPhase, container_preparation, container_remove, container_create, container_start,
  installed_verification, Correlation, on, assign,
}
use control_plane_kit_interp.Docker.Configuration.Staging.{
  stage_configuration, installed_configuration_matches,
}
use control_plane_kit_interp.Docker.Configuration.Prepare.{prepare_for_attempt}
use control_plane_kit_interp.Docker.Configuration.Evidence.{Core}
use control_plane_kit_interp.Docker.Configuration.Node.{Node, Earlier, labels_with}

module _ {D : Type 0} (self : Interpreter D) (core : Core) (request : Request)
    (material : Material) where
  abbrev pub enter : AttemptPhase → Node self core request material (Unit {0})
  enter phase = assign (λ a. record a { phase = phase })

  abbrev pub ensure_network : Option Inspection → Node self core request material (Unit {0})
  ensure_network none = on (
      self.client.create_network (network_of self request material)
        (runtime_labels_of self request material))
  ensure_network (some network) =
      lift
        (require_runtime_owner network.labels (runtime_labels_of self request material) "network")

  abbrev declared_mounts : List Artifact → List ConfigurationMount
  declared_mounts [] = []
  declared_mounts (artifact ∷ artifacts) =
      record {
        artifact = artifact;
        volume_name =
            volume_name self.hashing request.workspace_id material.node_id artifact.artifact_id;
      }
      ∷ declared_mounts artifacts

  abbrev pub select_mounts :
      Option Correlation → Node self core request material (List ConfigurationMount)
  select_mounts none = pure (declared_mounts material.configuration_artifacts)
  select_mounts (some _) =
      stage_configuration self.hashing self.client material.configuration_artifacts
        (core.instances request)

  abbrev pub require_container :
      Bool
      → Bool
      → ImageInspection
      → Option Correlation
      → Inspection
      → Node self core request material (Unit {0})
  require_container reconcile running image correlation inspection = lift (
      require_start_node_container self.is_space reconcile reconcile inspection
        (labels_with self core request material correlation) image
        (network_of self request material) running)

  abbrev start_if : Bool → String → Node self core request material (Unit {0})
  start_if true identity = assign (λ a. record a { action = "reused" })
  start_if false identity = do
    enter container_start
    on (self.client.start_container identity)
    assign (λ a. record a { action = "started" })

  -- The container with the same installation is kept.
  unfoldable pub keep :
      Bool
      → ImageInspection
      → Option Correlation
      → Deliveries
      → List ConfigurationMount
      → Inspection
      → String
      → Node self core request material (Unit {0})
  keep reconcile image correlation secrets mounts inspection identity = do
    assign (λ a. record a {
      container_id = some identity;
      secret_staged_indices = range (length secrets.files);
    })
    require_container reconcile false image correlation inspection
    enter installed_verification
    on (installed_configuration_matches self.client (some identity) mounts)
    start_if inspection.running identity

  abbrev same_container : Inspection → Option Inspection → Bool
  same_container inspection none = false
  same_container inspection (some current) = core.equal_inspections current inspection

  -- The earlier container is removed by its identity, after it was seen to be the same.
  unfoldable pub remove_earlier :
      Earlier self core request material → Node self core request material (Unit {0})
  remove_earlier none = pure tt
  remove_earlier (some (inspection, (identity, same))) = do
    current ← on (self.client.inspect_container identity)
    lift (require (same_container inspection current) observation_unknown)
    enter container_remove
    on (self.client.remove_container identity)
    left ← on (self.client.inspect_container identity)
    lift (require (is_none left) observation_unknown)
    assign (λ a. record a { old_removed = true })

  abbrev start_created : Bool → Option String → Node self core request material String
  start_created first none = raise observation_unknown
  start_created first (some identity) = do
    lift (require (is_identity (some identity)) observation_unknown)
    assign (λ a. record a {
      container_id = some identity;
      unknown_created_resource = false;
      phase = container_start;
    })
    on (self.client.start_container identity)
    assign (λ a. record a { action = if first then "created" else "recreated" })
    pure identity

  abbrev mounts_prepared :
      Option Correlation → List ConfigurationMount → Option (List ConfigurationMount)
  mounts_prepared none mounts = none
  mounts_prepared (some _) mounts = some mounts

  -- The container is created, in the place of an earlier one.
  unfoldable pub recreate :
      Option Correlation
      → DeliveryMaterial
      → Deliveries
      → ℕ
      → List ConfigurationMount
      → Earlier self core request material
      → Node self core request material (String × List ConfigurationMount)
  unfolding remove_earlier
  recreate correlation authority secrets owner_uid mounts earlier = do
    enter container_preparation
    let labels = labels_with self core request material correlation
    prepared ←
        prepare_for_attempt self request material labels secrets owner_uid
          (mounts_prepared correlation mounts)
    remove_earlier earlier
    assign (λ a. record a { phase = container_create; unknown_created_resource = true })
    identity ← on (
        self.client.create_container (
          container_spec self request material labels (container_of self request material) authority
            prepared))
    started ← start_created (is_none earlier) identity
    pure (started, prepared.configuration_mounts)

  -- Which of the two, by what the earlier container is.
  unfoldable pub install :
      Bool
      → Option Correlation
      → DeliveryMaterial
      → ImageInspection
      → Deliveries
      → ℕ
      → List ConfigurationMount
      → Earlier self core request material
      → Node self core request material (String × List ConfigurationMount)
  unfolding keep recreate
  install reconcile correlation authority image secrets owner_uid mounts
        (some (inspection, (identity, true))) =
      do
        keep reconcile image correlation secrets mounts inspection identity
        pure (identity, mounts)
  install reconcile correlation authority image secrets owner_uid mounts earlier =
      recreate correlation authority secrets owner_uid mounts earlier
