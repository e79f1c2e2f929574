-- ===== src/Docker/Configuration/Tests.antt =====
-- The cleanup of configurations at concrete values: a daemon with one volume, which may be gone.
pub mod Node
use control_plane_kit_interp.Base.{
  String, Bool, true, false, ◌≡◌, refl, List, [], ◌∷◌, ◌++◌, map, Option, none, some, inl, inr,
}
use control_plane_kit_interp.Base.Dict.{Dict}
use control_plane_kit_interp.Base.Json.{
  Json, null, string, array, object, Items, end, Fields, stop, field,
}
use control_plane_kit_interp.Base.Lists.{Any}
use control_plane_kit_interp.Effect.{
  Exc, Outcome, returned, raised, configuration_evidence, observation_unknown, Eff,
}
use control_plane_kit_interp.Docker.Configuration.{
  Instance, configuration_volume_name, configuration_volume_labels,
}
use control_plane_kit_interp.Docker.Configuration.Cleanup.{
  Status, removed, unknown, cleanup_configuration, cleanup_rows, attempt, Row,
}
use control_plane_kit_interp.Docker.Configuration.Cleanup.Careful.{
  IsCareful, IsCleared, traced, cleanup_configuration-IsCareful,
}
use control_plane_kit_interp.Docker.Configuration.Cleanup.Order.{
  IsStopped, skipped, cleanup_configuration-IsStopped, cleanup_rows-append,
}
use control_plane_kit_interp.Docker.Configuration.Cleanup.Fates.{Shows, attempt-Shows}
use control_plane_kit_interp.Docker.Sdk.ConfigurationVolumes.{Volumes}
use control_plane_kit_interp.Docker.Tests.World.{hashing}

abbrev pub instance_of : String → Instance
instance_of artifact_id = record {
  workspace_id = "ws";
  runtime_id = "rt";
  node_id = "web";
  allocation_id = "a1";
  artifact_id = artifact_id;
  content_digest = "d";
  canonical_bytes = [];
}

abbrev pub settings : Instance
settings = instance_of "settings"

abbrev json_labels : Dict String → Fields
json_labels [] = stop
json_labels ((k, v) ∷ d) = field k (string v) (json_labels d)

abbrev volume_of : Instance → Json
volume_of reference = object (
    field "Name" (string (configuration_volume_name hashing reference)) (
      field "CreatedAt" (string "2024-01-01") (
        field "Driver" (string "local") (
          field "Scope" (string "local") (
            field "Labels" (object (json_labels (configuration_volume_labels hashing reference)))
              stop)))))

-- A daemon that has the volume of `settings`, or not.
abbrev described : Bool → Outcome Json
described true = returned (volume_of settings)
described false = raised observation_unknown

abbrev is_missing : Exc → Bool
is_missing observation_unknown = true
is_missing _ = false

abbrev daemon : Volumes Bool
daemon = record {
  get_volume = λ name there. (described there, there);
  remove_volume = λ name there. (returned tt, false);
  containers_with = λ name there. (returned (array end), there);
  is_not_found = is_missing;
  is_conflict = λ e. false;
}

-- A daemon that does not answer.
abbrev silent : Volumes Bool
silent = record daemon { get_volume = λ name there. (raised configuration_evidence, there) }

abbrev references : List Instance
references = settings ∷ settings ∷ []

cleanup_configuration-IsCareful_example :
    IsCareful
      (λ name past. Any (λ reference. IsCleared hashing reference name past) references)
      (cleanup_configuration hashing (traced daemon) (λ rows. rows) references (true, [])).1.1
cleanup_configuration-IsCareful_example =
    cleanup_configuration-IsCareful hashing daemon references true

cleanup_configuration-IsStopped_example :
    (map (λ row. row.0) (cleanup_configuration hashing daemon (λ rows. rows) references true).0
      ≡ references)
    × IsStopped (cleanup_configuration hashing daemon (λ rows. rows) references true).0
cleanup_configuration-IsStopped_example =
    cleanup_configuration-IsStopped hashing daemon references true

cleanup_rows-append_example : cleanup_rows hashing silent false (references ++ references) true ≡ (
  (cleanup_rows hashing silent false references true).0 ++ map skipped references,
  (cleanup_rows hashing silent false references true).1,
)
unfolding cleanup_rows
    control_plane_kit_interp.Docker.Sdk.ConfigurationVolumes.inspect_configuration_volume
cleanup_rows-append_example =
    cleanup_rows-append hashing silent references references true (inl refl)

attempt-Shows_example :
    Shows hashing daemon settings
      (attempt hashing (traced daemon) settings (true, [])).0.0
      (attempt hashing (traced daemon) settings (true, [])).1.1
attempt-Shows_example = attempt-Shows hashing daemon settings true
