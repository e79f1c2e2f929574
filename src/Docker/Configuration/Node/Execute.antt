-- ===== src/Docker/Configuration/Node/Execute.antt =====
-- `_configuration_node` and `_execute_configuration_node` (docker/runtime.py) as a whole.
use Prim.Native.Nat.{max}
use Prim.Native.String.{count}
use control_plane_kit_interp.Base.{
  ℕ, String, Bool, true, false, not, ◌&&◌, ◌||◌, List, [], ◌∷◌, Option, none, some, text_eq?,
  is_none, leb, if◌then◌else◌,
}
use control_plane_kit_interp.Base.Dict.{update}
use control_plane_kit_interp.Effect.{
  Eff, pure, raise, lift, ◌>>=◌, ◌>>◌, Outcome, returned, raised, Exc, require, control,
  precondition, unsupported_authority, observation_unknown, material_conflict,
  configuration_evidence, index_error,
}
use control_plane_kit_interp.Request.{Request, Material, EffectKind, configuration_activity}
use control_plane_kit_interp.Secrets.{SecretFile, Deliveries}
use control_plane_kit_interp.Secrets.Selected.{is_start_or_reconcile}
use control_plane_kit_interp.Docker.Sdk.{
  Inspection, ImageInspection, ConfigurationMount, SecretMount,
}
use control_plane_kit_interp.Docker.Authority.{
  DeliveryMaterial, authority_delivery_material, require_container_authority,
}
use control_plane_kit_interp.Docker.Result.{succeeded, failed, unsupported}
use control_plane_kit_interp.Docker.Interpreter.{
  Interpreter, single_product, private_host_for_runtime,
}
use control_plane_kit_interp.Docker.SecretFiles.{
  preflight_secret_files, secret_volume_name, is_reconcile,
}
use control_plane_kit_interp.Docker.Images.{image_pull_auth_config, admit_start_node_image}
use control_plane_kit_interp.Docker.Nodes.{
  resolve_product_secret_deliveries, container_of, network_of,
}
use control_plane_kit_interp.Docker.Configuration.Attempt.{
  Attempt, AttemptPhase, authority_preflight, network_phase, installed_verification, Correlation,
  new_attempt, on, assign,
}
use control_plane_kit_interp.Docker.Configuration.Staging.{installed_configuration_matches}
use control_plane_kit_interp.Docker.Configuration.Evidence.{
  AttemptResult, Core, attempt_result, uncertain_result, configuration_receipt,
  secret_installation_evidence, failure_of,
}
use control_plane_kit_interp.Docker.Configuration.Node.{
  Node, common, endpoints, retain_mounts, reserve_capacity, examine_earlier,
}
use control_plane_kit_interp.Docker.Configuration.Node.Install.{
  enter, ensure_network, select_mounts, require_container, install,
}

module _ {D : Type 0} (self : Interpreter D) (core : Core) (request : Request)
    (material : Material) where
  abbrev recipient_mounts : ℕ → List SecretFile → Outcome (List SecretMount)
  recipient_mounts owner_uid [] = returned []
  recipient_mounts owner_uid (secret ∷ secrets) =
      elim (secret_volume_name self.hashing request material secret owner_uid) [
        | raised e ↦ raised e
        | returned volume ↦ elim (recipient_mounts owner_uid secrets) [
          | raised e ↦ raised e
          | returned mounts ↦
              returned (record { target_path = secret.target_path; volume_name = volume } ∷ mounts)
        ]
      ]

  abbrev verify_recipient :
      Option Correlation
      → String
      → Deliveries
      → ImageInspection
      → ℕ
      → Node self core request material (Unit {0})
  verify_recipient none identity secrets image owner_uid = pure tt
  verify_recipient (some _) identity secrets image owner_uid = do
    mounts ← lift (recipient_mounts owner_uid secrets.files)
    a ← (λ s. (returned s.1, s))
    on (
        self.client.verify_secret_recipient identity secrets.environment mounts secrets.files image
          a.file_owner_uid)

  abbrev pub confirmed :
      Bool
      → Option Correlation
      → DeliveryMaterial
      → ImageInspection
      → String
      → List ConfigurationMount
      → Option Inspection
      → Node self core request material Inspection
  confirmed reconcile correlation authority image identity mounts none = raise observation_unknown
  confirmed reconcile correlation authority image identity mounts (some observed) = do
    lift (require (text_eq? observed.container_id (some identity)) observation_unknown)
    require_container self core request material reconcile true image correlation observed
    on (require_container_authority self.client true observed authority)
    on (installed_configuration_matches self.client (some identity) mounts)
    pure observed

  -- From the last look at the container on.
  unfoldable pub verify :
      Bool
      → Option Correlation
      → Option Correlation
      → DeliveryMaterial
      → ImageInspection
      → Deliveries
      → ℕ
      → String
      → List ConfigurationMount
      → Node self core request material AttemptResult
  verify reconcile correlation secret_correlation authority image secrets owner_uid identity
        mounts =
      do
        enter self core request material installed_verification
        found ← on (self.client.inspect_container identity)
        observed ← confirmed reconcile correlation authority image identity mounts found
        verify_recipient secret_correlation identity secrets image owner_uid
        let host = private_host_for_runtime (network_of self request material) material observed
        lift (require (leb (count host) (max 64 (count material.node_id))) observation_unknown)
        a ← (λ s. (returned s.1, s))
        secret ← lift (secret_installation_evidence core self.hashing request.effect_id a)
        configuration ← lift (configuration_receipt core self.hashing request.effect_id a)
        lift (
            attempt_result core self.hashing request.effect_id a succeeded none
              (endpoints self core request material host)
              (update (common self core request material) (update secret configuration)))

  abbrev owner_if : List SecretFile → ℕ → Option ℕ
  owner_if [] owner_uid = none
  owner_if (_ ∷ _) owner_uid = some owner_uid

  -- `_configuration_node`, for the single product
  unfoldable pub configuration_node :
      Option Correlation → Option Correlation → Node self core request material AttemptResult
  unfolding verify
  configuration_node correlation secret_correlation = do
    inspection ← on (self.client.inspect_container (container_of self request material))
    retain_mounts self core request material inspection secret_correlation
    before ← (λ s. (returned s.1, s))
    lift (reserve_capacity self core request material before)
    enter self core request material authority_preflight
    authority ←
        on (authority_delivery_material self.client self.socket_group request.authority_deliveries)
    let reconcile = is_reconcile self request.operation
    earlier ← examine_earlier self core request material reconcile correlation authority inspection
    secrets ← on (resolve_product_secret_deliveries self request material)
    auth_config ← on (image_pull_auth_config self request material)
    image ← on (admit_start_node_image self material auth_config)
    owner_uid ← on (preflight_secret_files self request material secrets image)
    assign
        (λ a. record a { file_owner_uid = owner_if secrets.files owner_uid; phase = network_phase })
    network ← on (self.client.inspect_network (network_of self request material))
    ensure_network self core request material network
    mounts ← select_mounts self core request material correlation
    installed ←
        install self core request material reconcile correlation authority image secrets owner_uid
          mounts earlier
    verify reconcile correlation secret_correlation authority image secrets owner_uid installed.0
        installed.1

module _ {D : Type 0} (self : Interpreter D) (core : Core) (request : Request) where
  abbrev pub is_installed : AttemptPhase → Bool
  is_installed installed_verification = true
  is_installed _ = false

  -- Whether an expected error is reported as uncertain all the same.
  abbrev pub is_doubtful : Attempt → Bool
  is_doubtful a =
      not (is_none a.secret_correlation)
      && (is_installed a.phase || a.unknown_materialization || a.unknown_created_resource)

  abbrev failed_with : Attempt → String → String → Outcome AttemptResult
  failed_with a code message =
      attempt_result core self.hashing request.effect_id a failed
        (failure_of core self.hashing request.effect_id code message) [] []

  abbrev uncertain : Attempt → Outcome AttemptResult
  uncertain a = uncertain_result core self.hashing request.effect_id a

  -- The `except` clauses of `_execute_configuration_node`.
  unfoldable pub handle_attempt : Attempt → Exc → Outcome AttemptResult
  unfolding attempt_result uncertain_result
  handle_attempt a control = raised control
  handle_attempt a (unsupported_authority code) =
      attempt_result core self.hashing request.effect_id a unsupported
        (failure_of core self.hashing request.effect_id code
          "Docker runtime authority does not support this replacement")
        [] []
  handle_attempt a material_conflict =
      if is_doubtful a
      then uncertain a
      else failed_with a "docker.configuration-material-conflict"
          "selected configuration material does not match owned provider evidence"
  handle_attempt a (precondition code message) =
      if is_doubtful a then uncertain a else failed_with a code message
  handle_attempt a configuration_evidence =
      if is_installed a.phase
      then uncertain a
      else failed_with a "docker.configuration-evidence-invalid"
          "Selected configuration evidence is invalid"
  handle_attempt a e = uncertain a

  abbrev pub is_configuration : EffectKind → Bool
  is_configuration configuration_activity = true
  is_configuration _ = false

  abbrev some_of : Outcome Correlation → Outcome (Option Correlation)
  some_of (returned correlation) = returned (some correlation)
  some_of (raised e) = raised e

  -- The two correlations of a new attempt, each with its fingerprint.
  unfoldable pub correlation_of : Outcome (Option Correlation)
  correlation_of =
      if is_configuration request.kind
      then some_of (core.invocation_correlation request)
      else returned none

  unfoldable pub secret_correlation_of : Material → Outcome (Option Correlation)
  secret_correlation_of material = elim material.secret_selections [
    | [] ↦ returned none
    | _ ∷ _ ↦ some_of (core.secret_installation_correlation request)
  ]

  abbrev with_secret :
      Option Correlation
      → Outcome (Option Correlation)
      → Outcome (Option Correlation × Option Correlation)
  with_secret correlation (returned secret_correlation) = returned (correlation, secret_correlation)
  with_secret correlation (raised e) = raised e

  abbrev with_first :
      Outcome (Option Correlation)
      → List Material
      → Outcome (Option Correlation × Option Correlation)
  with_first (raised e) products = raised e
  with_first (returned correlation) [] = raised index_error
  with_first (returned correlation) (material ∷ more) =
      with_secret correlation (secret_correlation_of material)

  -- `ConfigurationAttempt.__post_init__`
  unfoldable pub correlations : Outcome (Option Correlation × Option Correlation)
  unfolding correlation_of secret_correlation_of
  correlations = with_first correlation_of request.products

  abbrev pub finish : Outcome AttemptResult × (D × Attempt) → Outcome AttemptResult × D
  finish (returned result, s) = (returned result, s.0)
  finish (raised e, s) = (handle_attempt s.1 e, s.0)

  abbrev pub attempt_node :
      Option Correlation → Option Correlation → Eff (D × Attempt) AttemptResult
  attempt_node correlation secret_correlation = do
    only ← single_product request
    configuration_node self core request only correlation secret_correlation

  -- The attempt is made before the `try`.
  abbrev pub run : Outcome (Option Correlation × Option Correlation) → Eff D AttemptResult
  run (raised e) d = raise e d
  run (returned (correlation, secret_correlation)) d =
      finish (
        attempt_node correlation secret_correlation (d, new_attempt correlation secret_correlation))

  abbrev pub unsupported_operation : AttemptResult
  unsupported_operation = record {
    effect_id = request.effect_id;
    kind = unsupported;
    evidence = [];
    failure =
        failure_of core self.hashing request.effect_id "docker.unsupported-activity-operation"
          "Docker runtime interpreter does not support request";
    observations = [];
  }

  -- `_execute_configuration_node`
  unfoldable pub execute_configuration_node : Eff D AttemptResult
  unfolding handle_attempt single_product correlations
  execute_configuration_node =
      if is_start_or_reconcile request.operation
      then run correlations
      else pure unsupported_operation
