-- ===== src/Docker/Sdk.antt =====
-- docker/sdk.py: what inspections report, the classification of failures, the comparison of image
-- references, and the client's methods as an interface for the interpreter.
pub mod Failures
pub mod References
pub mod ConfigurationVolumes
use control_plane_kit_interp.Base.{ℕ, String, Bool, List, Option}
use control_plane_kit_interp.Base.Dict.{Dict}
use control_plane_kit_interp.Effect.{Eff}
use control_plane_kit_interp.Request.{Artifact, ProviderPort}
use control_plane_kit_interp.Secrets.{SecretFile}

-- `DockerSdkSecretMount`, `DockerSdkBindMount`, `DockerSdkConfiguredBindMount`
pub record SecretMount : Type 0 where
  pub target_path : String
  pub volume_name : String

pub record BindMount : Type 0 where
  pub source_path : String
  pub target_path : String
  pub read_only : Bool

-- `read_only` is `None` where the provider omitted it.
pub record ConfiguredBindMount : Type 0 where
  pub source_path : String
  pub target_path : String
  pub read_only : Option Bool

-- `DockerSdkPublishedPort`
pub record PublishedPort : Type 0 where
  pub container_port : ℕ
  pub transport : String
  pub host_address : String
  pub host_port : ℕ

-- `DockerSdkResourceInspection`, the fields that the interpreter reads; `none` is unknown.
pub record Inspection : Type 0 where
  pub name : String
  pub running : Bool
  pub labels : Dict String
  pub published_ports : List PublishedPort
  pub private_addresses : Dict String
  pub image_id : Option String
  pub network_names : List String
  pub configured_user : Option String
  pub readonly_secret_mounts : List SecretMount
  pub bind_mounts : Option (List BindMount)
  pub supplementary_groups : Option (List String)
  pub configured_bind_mounts : Option (List ConfiguredBindMount)
  pub container_id : Option String

-- `DockerSdkImageInspection`
pub record ImageInspection : Type 0 where
  pub image_id : String
  pub repo_digests : List String
  pub configured_user : Option String

-- `DockerAuthorityProviderFacts`
pub record ProviderFacts : Type 0 where
  pub platform_name : String
  pub os_type : String
  pub engine_version : String
  pub api_version : String

-- `DockerRegistryAuthConfig`
pub record AuthConfig : Type 0 where
  pub username : Option String
  pub password : Option String
  pub identitytoken : Option String

-- `DockerSdkSecretFileInspection`
pub record SecretFileInspection : Type 0 where
  pub content_digest : String
  pub uid : ℕ
  pub mode : ℕ
  pub regular_file : Bool

-- `DockerSdkConfigurationMount`
pub record ConfigurationMount : Type 0 where
  pub artifact : Artifact
  pub volume_name : String

-- `DockerSdkConfigurationFileInspection` and `DockerSdkConfigurationMountInspection`
pub record FileInspection : Type 0 where
  pub content_digest : String
  pub mode : ℕ
  pub regular_file : Bool

pub record MountInspection : Type 0 where
  pub container_id : String
  pub volume_name : String
  pub target_path : String
  pub subpath : String
  pub read_only : Bool
  pub file : FileInspection

-- The arguments of `create_container` and `run_container`
pub record ContainerSpec : Type 0 where
  pub name : String
  pub image : String
  pub environment : Dict String
  pub labels : Dict String
  pub volumes : Dict String
  pub configuration_mounts : List ConfigurationMount
  pub secret_mounts : List SecretMount
  pub bind_mounts : List BindMount
  pub supplementary_groups : List String
  pub network : String
  pub aliases : List String

-- The methods of `DockerSdkClient` that the interpreter calls. The world `D` holds the daemon.
pub record Client (D : Type 0) : Type 0 where
  pub uses_local_socket : String → Eff D Bool
  pub inspect_authority_provider_facts : Eff D (Option ProviderFacts)
  pub inspect_network : String → Eff D (Option Inspection)
  pub create_network : String → Dict String → Eff D (Unit {0})
  pub remove_network : String → Eff D (Unit {0})
  pub inspect_volume : String → Eff D (Option Inspection)
  pub create_volume : String → Dict String → Eff D (Unit {0})
  pub inspect_image : String → Eff D (Option ImageInspection)
  pub pull_image : String → Option AuthConfig → Eff D (Unit {0})
  pub inspect_container : String → Eff D (Option Inspection)
  pub create_container : ContainerSpec → Eff D (Option String)
  pub run_container : ContainerSpec → Eff D (Unit {0})
  pub start_container : String → Eff D (Unit {0})
  pub stop_container : String → Eff D (Unit {0})
  pub remove_container : String → Eff D (Unit {0})
  pub materialize_configuration_artifact : String → Artifact → Eff D (Unit {0})
  pub configuration_artifact_digest : String → Eff D (Option String)
  -- the volume, the value, the file mode and the owner
  pub materialize_secret_file : String → String → String → ℕ → Eff D (Unit {0})
  pub inspect_secret_file : String → Eff D (Option SecretFileInspection)
  pub inspect_configuration_file : String → Eff D (Option FileInspection)
  pub inspect_configuration_mount : String → ConfigurationMount → Eff D (Option MountInspection)
  -- the container, its environment, the mounts, the files, the admitted image and the owner
  pub verify_secret_recipient :
      String
      → Dict String
      → List SecretMount
      → List SecretFile
      → ImageInspection
      → Option ℕ
      → Eff D (Unit {0})
