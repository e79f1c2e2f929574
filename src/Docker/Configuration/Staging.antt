-- ===== src/Docker/Configuration/Staging.antt =====
-- `stage_configuration` and `installed_configuration_matches` (docker/configuration.py): each selected
-- configuration is written to its own volume, once, and is looked for in the container that runs.
pub mod Indices
pub mod Written
use control_plane_kit_interp.Base.{
  ℕ, suc, String, Bool, true, false, not, ◌&&◌, List, [], ◌∷◌, ◌++◌, Option, none, some, ◌==◌,
  text_eq?, if◌then◌else◌,
}
use control_plane_kit_interp.Base.Dict.{Dict, get, put}
use control_plane_kit_interp.Effect.{
  Eff, pure, raise, lift, ◌>>=◌, ◌>>◌, Outcome, returned, raised, require, key_error,
  observation_unknown, material_conflict,
}
use control_plane_kit_interp.Request.{Artifact}
use control_plane_kit_interp.Docker.Names.{Hashing}
use control_plane_kit_interp.Docker.Sdk.{
  Client, Inspection, ConfigurationMount, FileInspection, MountInspection,
}
use control_plane_kit_interp.Docker.Configuration.{
  Instance, configuration_volume_name, configuration_volume_labels, require_configuration_owner,
  require_configuration_file,
}
use control_plane_kit_interp.Docker.Configuration.Attempt.{
  Attempt, configuration_staging, on, assign,
}

-- `{item.artifact_id: item for item in configuration_artifacts}`
unfoldable pub artifacts_by_id : Dict Artifact → List Artifact → Dict Artifact
unfolding put
artifacts_by_id d [] = d
artifacts_by_id d (artifact ∷ artifacts) =
    artifacts_by_id (put artifact.artifact_id artifact d) artifacts

-- `artifacts[artifact_id]`
unfoldable pub artifact_for : Dict Artifact → String → Outcome Artifact
unfolding get
artifact_for artifacts artifact_id = elim (get artifact_id artifacts) [
  | none ↦ raised key_error
  | some artifact ↦ returned artifact
]

abbrev pub labels_seen : Option Inspection → Option (Dict String)
labels_seen none = none
labels_seen (some inspection) = some inspection.labels

abbrev pub attempted : ℕ → Attempt → Attempt
attempted index a = record a { attempted_indices = a.attempted_indices ++ index ∷ [] }

abbrev pub staged : ℕ → Attempt → Attempt
staged index a = record a { staged_indices = a.staged_indices ++ index ∷ [] }

module _ {D : Type 0} (h : Hashing) (client : Client D) where
  abbrev require_owner : Instance → Option Inspection → Eff (D × Attempt) (Unit {0})
  require_owner reference inspection =
      lift (require_configuration_owner h (labels_seen inspection) reference)

  -- The volume is made, or is there already, and has its owner's labels.
  abbrev pub claim_volume : ℕ → String → Instance → Option Inspection → Eff (D × Attempt) (Unit {0})
  claim_volume index name reference none = do
    assign (attempted index)
    on (client.create_volume name (configuration_volume_labels h reference))
    made ← on (client.inspect_volume name)
    require_owner reference made
  claim_volume index name reference (some inspection) = do
    require_owner reference (some inspection)
    assign (attempted index)

  -- The file is written where there is none.
  abbrev pub file_written :
      String → Artifact → Option FileInspection → Eff (D × Attempt) (Option FileInspection)
  file_written name artifact none = do
    on (client.materialize_configuration_artifact name artifact)
    on (client.inspect_configuration_file name)
  file_written name artifact (some observed) = pure (some observed)

  -- One turn of the loop.
  unfoldable pub stage_one : Dict Artifact → ℕ → Instance → Eff (D × Attempt) ConfigurationMount
  stage_one artifacts index reference = do
    artifact ← lift (artifact_for artifacts reference.artifact_id)
    let name = configuration_volume_name h reference
    inspection ← on (client.inspect_volume name)
    claim_volume index name reference inspection
    found ← on (client.inspect_configuration_file name)
    observed ← file_written name artifact found
    lift (require_configuration_file observed artifact)
    again ← on (client.inspect_volume name)
    require_owner reference again
    assign (staged index)
    pure (record { artifact = artifact; volume_name = name })

  unfoldable pub stage_from :
      Dict Artifact → ℕ → List Instance → Eff (D × Attempt) (List ConfigurationMount)
  stage_from artifacts index [] = pure []
  stage_from artifacts index (reference ∷ rest) = do
    mount ← stage_one artifacts index reference
    mounts ← stage_from artifacts (suc index) rest
    pure (mount ∷ mounts)

  -- `stage_configuration`
  unfoldable pub stage_configuration :
      List Artifact → List Instance → Eff (D × Attempt) (List ConfigurationMount)
  unfolding artifacts_by_id
  stage_configuration artifacts instances = do
    assign (λ a. record a { phase = configuration_staging })
    stage_from (artifacts_by_id [] artifacts) 0 instances

module _ {D : Type 0} (client : Client D) where
  -- The checks of `installed_configuration_matches` on what a mount shows.
  abbrev shows_mount : ConfigurationMount → MountInspection → Bool
  shows_mount mount observed =
      (observed.volume_name == mount.volume_name)
      && (observed.target_path == mount.artifact.target_path)
      && (observed.subpath == "content")
      && observed.read_only

  abbrev check_mount : String → ConfigurationMount → Option MountInspection → Outcome (Unit {0})
  check_mount identity mount none = raised observation_unknown
  check_mount identity mount (some observed) = elim (observed.container_id == identity) [
    | false ↦ raised observation_unknown
    | true ↦ elim (shows_mount mount observed) [
      | false ↦ raised material_conflict
      | true ↦ require_configuration_file (some observed.file) mount.artifact
    ]
  ]

  unfoldable pub mounts_match : String → List ConfigurationMount → Eff D (Unit {0})
  mounts_match identity [] = pure tt
  mounts_match identity (mount ∷ mounts) = do
    observed ← client.inspect_configuration_mount identity mount
    lift (check_mount identity mount observed)
    mounts_match identity mounts

  -- `installed_configuration_matches`
  unfoldable pub installed_configuration_matches :
      Option String → List ConfigurationMount → Eff D (Unit {0})
  unfolding mounts_match
  installed_configuration_matches none mounts = raise observation_unknown
  installed_configuration_matches (some identity) mounts = mounts_match identity mounts
