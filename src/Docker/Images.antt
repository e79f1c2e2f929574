-- ===== src/Docker/Images.antt =====
-- Image credentials and image admission (docker/runtime.py, `_image_pull_auth_config` and
-- `_admit_start_node_image`).
pub mod Admitted
use control_plane_kit_interp.Base.{
  String, Bool, true, false, ◌&&◌, List, [], ◌∷◌, Option, none, some, if◌then◌else◌,
}
use control_plane_kit_interp.Effect.{
  Eff, pure, raise, lift, ◌>>=◌, ◌>>◌, catch, Exc, precondition, secret_resolution, SecretCode,
  missing, denied, image_availability, returned, raised,
}
use control_plane_kit_interp.Request.{Request, Material, Reference, AuthorizedResolver}
use control_plane_kit_interp.Secrets.{grant_for, authorized_value}
use control_plane_kit_interp.Docker.Sdk.{Client, ImageInspection, AuthConfig}
use control_plane_kit_interp.Docker.Sdk.References.{matches_image_reference}
use control_plane_kit_interp.Docker.Interpreter.{
  Interpreter, PullCredential, credential_resolved, credential_missing, credential_denied,
  credential_malformed, start_node_provider_call,
}

credential_error : SecretCode → Exc
credential_error missing =
    precondition "docker.image-pull-credential-missing"
      "image pull credential could not be resolved"
credential_error denied =
    precondition "docker.image-pull-credential-denied"
      "image pull credential is outside interpreter authority"
credential_error _ =
    precondition "docker.image-pull-credential-malformed"
      "image pull credential resolver returned malformed result"

abbrev translate_credential : Exc → Exc
translate_credential (secret_resolution code) = credential_error code
translate_credential e = e

image_conflict : Exc
image_conflict =
    precondition "docker.image-reference-conflict"
      "Docker image does not match the declared immutable reference"

module _ {D : Type 0} (self : Interpreter D) where
  abbrev from_resolver : PullCredential → Eff D (Option AuthConfig)
  from_resolver (credential_resolved credential) = pure (some credential)
  from_resolver credential_missing = raise (credential_error missing)
  from_resolver credential_denied = raise (credential_error denied)
  from_resolver credential_malformed = raise (credential_error SecretCode.invalid_resolver_result)

  abbrev without_authorized :
      Option (Reference → Eff D PullCredential) → Reference → Eff D (Option AuthConfig)
  without_authorized none reference = raise (
      precondition "docker.image-pull-authority-required"
        "image pull authority requires a configured credential resolver")
  without_authorized (some resolve) reference = do answer ← resolve reference; from_resolver answer

  abbrev with_authorized : Request → AuthorizedResolver D → Reference → Eff D (Option AuthConfig)
  with_authorized request resolver reference =
      catch
        (do
          text ← authorized_value request.grants resolver reference self.pull_intent
          credential ← lift (self.parse_credential text)
          pure (some credential))
        (λ e. raise (translate_credential e))

  abbrev permitted_pull : Request → Reference → Bool → Eff D (Option AuthConfig)
  permitted_pull request reference false = raise (
      precondition "docker.image-pull-authority-scope-mismatch"
        "image pull authority does not cover product image")
  permitted_pull request reference true = elim self.authorized_secret_resolver [
    | some resolver ↦ with_authorized request resolver reference
    | none ↦ without_authorized self.image_pull_credentials reference
  ]

  -- `_image_pull_auth_config`
  unfoldable pub image_pull_auth_config : Request → Material → Eff D (Option AuthConfig)
  unfolding credential_error grant_for
  image_pull_auth_config request material = elim material.pull_authority [
    | none ↦ pure none
    | some (reference, permits) ↦ permitted_pull request reference permits
  ]

  abbrev available : {A : Type 0} → Eff D A → Eff D A
  available = start_node_provider_call image_availability none

  -- An image that is not there is pulled, and inspected again.
  unfoldable pub inspect_or_pull : String → Option AuthConfig → Eff D (Option ImageInspection)
  unfolding start_node_provider_call
  inspect_or_pull reference auth_config = do
    inspection ← available (self.client.inspect_image reference)
    elim inspection [
      | some image ↦ pure (some image)
      | none ↦ do
        available (self.client.pull_image reference auth_config)
        available (self.client.inspect_image reference)
    ]

  abbrev admitted : String → Option ImageInspection → Eff D ImageInspection
  admitted reference none = raise image_conflict
  admitted reference (some image) =
      if matches_image_reference self.oci reference image.repo_digests
      then pure image
      else raise image_conflict

  -- `_admit_start_node_image`
  unfoldable pub admit_start_node_image : Material → Option AuthConfig → Eff D ImageInspection
  unfolding inspect_or_pull image_conflict
  admit_start_node_image material auth_config = do
    inspection ← inspect_or_pull material.image.execution_reference auth_config
    admitted material.image.execution_reference inspection
