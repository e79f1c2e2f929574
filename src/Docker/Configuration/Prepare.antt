-- ===== src/Docker/Configuration/Prepare.antt =====
-- `_prepare_node_container` (docker/runtime.py) for an attempt: it records which secret files it
-- attempted and staged, and whether the provider may hold something that it does not know.
use control_plane_kit_interp.Base.{
  ℕ, suc, String, true, false, List, [], ◌∷◌, ◌++◌, Option, none, some, is_none, if◌then◌else◌,
}
use control_plane_kit_interp.Base.Dict.{Dict, keys}
use control_plane_kit_interp.Effect.{Eff, pure, lift, ◌>>=◌, ◌>>◌}
use control_plane_kit_interp.Request.{Request, Material}
use control_plane_kit_interp.Secrets.{SecretFile, Deliveries}
use control_plane_kit_interp.Docker.Sdk.{Inspection, SecretMount, ConfigurationMount}
use control_plane_kit_interp.Docker.SecretFiles.{secret_volume_name, require_secret_file}
use control_plane_kit_interp.Docker.Interpreter.{Interpreter}
use control_plane_kit_interp.Docker.Containers.{
  CreateMaterial, bindings_dict, container_environment, prepare_artifacts, prepare_retained,
  retained_volumes, identity_labels, require_volume,
}
use control_plane_kit_interp.Docker.Configuration.Attempt.{Attempt, on, assign}

module _ {D : Type 0} (self : Interpreter D) (request : Request) (material : Material)
    (labels : Dict String) where
  -- the assignments that are made for selected secrets only
  abbrev assign_selected : (Attempt → Attempt) → Eff (D × Attempt) (Unit {0})
  assign_selected f = assign (λ a. if is_none a.secret_correlation then a else f a)

  abbrev secret_attempted : ℕ → Attempt → Attempt
  secret_attempted index a = record a {
    secret_attempted_indices = a.secret_attempted_indices ++ index ∷ [];
  }

  abbrev secret_staged : ℕ → Attempt → Attempt
  secret_staged index a = record a {
    unknown_materialization = false;
    secret_staged_indices = a.secret_staged_indices ++ index ∷ [];
  }

  abbrev checked : SecretFile → ℕ → Dict String → Option Inspection → Eff (D × Attempt) (Unit {0})
  checked secret owner_uid expected volume =
      on (require_volume self request material labels secret owner_uid expected volume)

  abbrev fill_attempted :
      SecretFile → ℕ → String → Dict String → Option Inspection → Eff (D × Attempt) (Unit {0})
  fill_attempted secret owner_uid volume expected none = do
    assign (λ a. record a { unknown_created_resource = true })
    on (self.client.create_volume volume expected)
    made ← on (self.client.inspect_volume volume)
    checked secret owner_uid expected made
    assign (λ a. record a { unknown_created_resource = false; unknown_materialization = true })
    on (self.client.materialize_secret_file volume secret.value secret.file_mode owner_uid)
  fill_attempted secret owner_uid volume expected (some inspection) =
      checked secret owner_uid expected (some inspection)

  -- One turn of the loop over secret files.
  unfoldable pub prepare_secret : ℕ → ℕ → SecretFile → Eff (D × Attempt) SecretMount
  prepare_secret owner_uid index secret = do
    volume ← lift (secret_volume_name self.hashing request material secret owner_uid)
    expected ← lift (identity_labels self request material labels secret owner_uid)
    assign_selected (secret_attempted index)
    inspection ← on (self.client.inspect_volume volume)
    fill_attempted secret owner_uid volume expected inspection
    on (require_secret_file self volume secret owner_uid)
    observed ← on (self.client.inspect_volume volume)
    checked secret owner_uid expected observed
    assign_selected (secret_staged index)
    pure (record { target_path = secret.target_path; volume_name = volume })

  unfoldable pub prepare_secrets_from :
      ℕ → ℕ → List SecretFile → Eff (D × Attempt) (List SecretMount)
  unfolding prepare_secret
  prepare_secrets_from owner_uid index [] = pure []
  prepare_secrets_from owner_uid index (secret ∷ secrets) = do
    mount ← prepare_secret owner_uid index secret
    mounts ← prepare_secrets_from owner_uid (suc index) secrets
    pure (mount ∷ mounts)

  abbrev mounts_or_artifacts :
      Option (List ConfigurationMount) → Eff (D × Attempt) (List ConfigurationMount)
  mounts_or_artifacts none =
      on (prepare_artifacts self request material labels material.configuration_artifacts)
  mounts_or_artifacts (some mounts) = pure mounts

  -- `_prepare_node_container` with an attempt, and with mounts that may be prepared already
  unfoldable pub prepare_for_attempt :
      Deliveries → ℕ → Option (List ConfigurationMount) → Eff (D × Attempt) CreateMaterial
  unfolding prepare_secrets_from
  prepare_for_attempt secrets owner_uid configuration_mounts = do
    let volumes = retained_volumes self request material labels [] material.retained_data_mounts
    mounts ← mounts_or_artifacts configuration_mounts
    on (prepare_retained self request material labels (keys volumes))
    secret_mounts ← prepare_secrets_from owner_uid 0 secrets.files
    environment ← lift (
        container_environment (
          bindings_dict [] material.public_environment
          ∷ bindings_dict [] material.socket_environment
          ∷ secrets.environment
          ∷ []))
    pure (record {
      environment = environment;
      volumes = volumes;
      configuration_mounts = mounts;
      secret_mounts = secret_mounts;
    })
