-- ===== src/Docker/Configuration.antt =====
-- docker/configuration.py: the names and labels of the volumes that hold configurations, and what a
-- volume and a file must show before they are used.
pub mod Attempt
pub mod Staging
pub mod Receipts
pub mod Prepare
pub mod Node
pub mod Evidence
pub mod Cleanup
mod Tests
use Prim.Native.String.{◌++◌ as append}
use control_plane_kit_interp.Base.{
  ℕ, String, Bool, true, false, ◌&&◌, List, [], ◌∷◌, Option, none, some, ◌==◌, beq, text_eq?,
  if◌then◌else◌,
}
use control_plane_kit_interp.Base.Dict.{Dict, get}
use control_plane_kit_interp.Base.Text.{take}
use control_plane_kit_interp.Effect.{Check, Outcome, returned, raised, require, material_conflict}
use control_plane_kit_interp.Request.{Artifact}
use control_plane_kit_interp.Docker.Names.{Hashing}
use control_plane_kit_interp.Docker.Labels.{label}
use control_plane_kit_interp.Docker.SecretFiles.{octal}
use control_plane_kit_interp.Docker.Sdk.{FileInspection}

-- `ConfigurationInstanceRef` of Core, with the bytes of its canonical encoding
pub record Instance : Type 0 where
  pub workspace_id : String
  pub runtime_id : String
  pub node_id : String
  pub allocation_id : String
  pub artifact_id : String
  pub content_digest : String
  pub canonical_bytes : List ℕ

module _ (h : Hashing) where
  -- `configuration_volume_name`
  unfoldable pub configuration_volume_name : Instance → String
  unfolding take
  configuration_volume_name reference = append "cpk-cfg-" (
      take 55 (
        h.sha256 (
          h.utf8 (
            h.json_texts (
              reference.workspace_id ∷ reference.runtime_id ∷ reference.node_id
              ∷ reference.allocation_id ∷ [])))))

  -- `configuration_volume_labels`
  unfoldable pub configuration_volume_labels : Instance → Dict String
  configuration_volume_labels reference =
      (label "kind", "configuration-volume")
      ∷ (label "volume.kind", "configuration")
      ∷ (label "workspace", reference.workspace_id)
      ∷ (label "runtime", reference.runtime_id)
      ∷ (label "node", reference.node_id)
      ∷ (label "allocation", reference.allocation_id)
      ∷ (label "configuration.profile", "configuration-instance.v1")
      ∷ (label "configuration.reference", h.sha256 reference.canonical_bytes)
      ∷ (label "artifact", reference.artifact_id)
      ∷ (label "artifact.digest", reference.content_digest)
      ∷ []

  -- Every expected label is there with the expected value; other labels are not looked at.
  unfoldable pub has_labels : Dict String → Dict String → Bool
  unfolding get
  has_labels observed [] = true
  has_labels observed ((key, value) ∷ expected) =
      text_eq? (get key observed) (some value) && has_labels observed expected

  -- `require_configuration_owner`, of the labels of an inspection
  unfoldable pub require_configuration_owner : Option (Dict String) → Instance → Check
  require_configuration_owner none reference = raised material_conflict
  require_configuration_owner (some labels) reference =
      require (has_labels labels (configuration_volume_labels reference)) material_conflict

-- `require_configuration_file`
unfoldable pub require_configuration_file : Option FileInspection → Artifact → Check
unfolding octal
require_configuration_file none artifact = raised material_conflict
require_configuration_file (some observed) artifact =
    require
      (observed.regular_file
        && (observed.content_digest == artifact.content_digest)
        && beq observed.mode (octal 0 artifact.file_mode))
      material_conflict
