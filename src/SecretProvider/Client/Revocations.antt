-- ===== src/SecretProvider/Client/Revocations.antt =====
-- `revoke` and `revoke_version` of `ControlPlaneKitSecretsClient` (secret_provider/client.py).
use Prim.Native.String.{◌++◌ as append}
use control_plane_kit_interp.Base.{
  ℕ, String, Bool, ◌&&◌, List, [], ◌∷◌, Option, none, some, ◌==◌, leb, beq, if◌then◌else◌,
}
use control_plane_kit_interp.Base.Dict.{Dict}
use control_plane_kit_interp.Base.Lists.{all}
use control_plane_kit_interp.Base.Json.{Json, number, string, as_array, member}
use control_plane_kit_interp.Request.{Reference}
use control_plane_kit_interp.SecretProvider.Call.{
  malformed_request, uncertain, Answer, ok, failed, Call, settle, ◌>>=◌, ◌>>◌, demand, ◌then◌,
  certain,
}
use control_plane_kit_interp.SecretProvider.Exchange.{Client}
use control_plane_kit_interp.SecretProvider.Exchange.Bounded.{request_json}
use control_plane_kit_interp.SecretProvider.Metadata.{
  is_identifier, request_identity, canonical_provider_secret_id, secret_path, VersionMetadata,
  metadata,
}
use control_plane_kit_interp.SecretProvider.Client.{is_shaped, doubtful, malformed}

-- `SecretProviderRevoked`
pub record Revoked : Type 0 where
  pub reference : Reference
  pub version_ids : List String

-- `SecretProviderRevoked(…)` with its `__post_init__`, whose error has the default certainty
unfoldable pub revoked_of : Reference → List String → Answer Revoked
unfolding is_identifier
revoked_of reference [] = failed malformed
revoked_of reference (v ∷ vs) =
    demand (all is_identifier (v ∷ vs)) malformed
    then ok (record { reference = reference; version_ids = v ∷ vs })

abbrev pub and_more : Answer VersionMetadata → Answer (List String) → Answer (List String)
and_more (failed x) rest = failed x
and_more (ok found) (failed x) = failed x
and_more (ok found) (ok rest) = ok (found.version_id ∷ rest)

-- The identifiers of the versions of the response, in order.
unfoldable pub revoked_ids : String → String → Reference → List Json → Answer (List String)
unfolding metadata
revoked_ids workspace_id secret_id reference [] = ok []
revoked_ids workspace_id secret_id reference (item ∷ items) =
    and_more (metadata workspace_id secret_id reference "revoked" uncertain item)
      (revoked_ids workspace_id secret_id reference items)

abbrev pub collected : Reference → Answer (List String) → Answer Revoked
collected reference (failed x) = failed x
collected reference (ok ids) = revoked_of reference ids

abbrev pub all_revoked : String → String → Reference → Option (List Json) → Answer Revoked
all_revoked workspace_id secret_id reference none = failed doubtful
all_revoked workspace_id secret_id reference (some []) = failed doubtful
all_revoked workspace_id secret_id reference (some (item ∷ items)) =
    collected reference (revoked_ids workspace_id secret_id reference (item ∷ items))

unfoldable pub revocation : String → String → Reference → Dict Json → Answer Revoked
unfolding is_shaped member as_array revoked_of revoked_ids
revocation workspace_id secret_id reference response =
    demand (is_shaped ("metadata" ∷ []) "revoked" response) doubtful
    then all_revoked workspace_id secret_id reference (as_array (member "metadata" response))

abbrev pub is_exactly : String → ℕ → Answer VersionMetadata → Answer VersionMetadata
is_exactly version_id version_number (failed x) = failed x
is_exactly version_id version_number (ok found) =
    if (found.version_id == version_id) && beq found.version_number version_number
    then ok found
    else failed doubtful

unfoldable pub version_revocation :
    String → String → Reference → String → ℕ → Dict Json → Answer VersionMetadata
unfolding is_shaped member metadata
version_revocation workspace_id secret_id reference version_id version_number response =
    demand (is_shaped ("metadata" ∷ []) "revoked" response) doubtful
    then is_exactly version_id version_number
        (metadata workspace_id secret_id reference "revoked" uncertain (member "metadata" response))

abbrev pub caller_payload : String → String → Dict Json
caller_payload caller_subject correlation_id =
    ("caller_subject", string caller_subject) ∷ ("correlation_id", string correlation_id) ∷ []

abbrev pub version_payload : ℕ → String → String → Dict Json
version_payload version_number caller_subject correlation_id =
    ("version_number", number version_number) ∷ caller_payload caller_subject correlation_id

module _ {D : Type 0} (self : Client D) where
  open self use {python}

  -- `revoke`
  unfoldable pub revoke : String → Reference → String → String → Call D Revoked
  unfolding request_identity canonical_provider_secret_id request_json secret_path revocation
  revoke workspace_id reference caller_subject correlation_id = do
    settle (request_identity workspace_id caller_subject correlation_id)
    secret_id ← settle (canonical_provider_secret_id python reference)
    response ←
        request_json self Bool.true "POST"
          (append (secret_path python workspace_id secret_id) "/revoke")
          (some (caller_payload caller_subject correlation_id)) none
    settle (revocation workspace_id secret_id reference response)

  -- `revoke_version`; the number of a version is not negative by its type
  unfoldable pub revoke_version :
      String → Reference → String → ℕ → String → String → Call D VersionMetadata
  unfolding request_identity is_identifier canonical_provider_secret_id request_json secret_path
      version_revocation
  revoke_version workspace_id reference version_id version_number caller_subject correlation_id = do
    settle (request_identity workspace_id caller_subject correlation_id)
    settle (demand (is_identifier version_id && leb 1 version_number) (certain malformed_request))
    secret_id ← settle (canonical_provider_secret_id python reference)
    response ←
        request_json self Bool.true "POST"
          (append (secret_path python workspace_id secret_id)
            (append "/versions/" (append (python.quote version_id) "/revoke")))
          (some (version_payload version_number caller_subject correlation_id)) none
    settle (version_revocation workspace_id secret_id reference version_id version_number response)
