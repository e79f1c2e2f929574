-- ===== src/SecretProvider/Client.antt =====
-- The operations of `ControlPlaneKitSecretsClient` (secret_provider/client.py) on secret values. The
-- classes of their arguments are their types here.
pub mod Keys
pub mod Revocations
pub mod Values
use Prim.Native.String.{◌++◌ as append}
use control_plane_kit_interp.Base.{
  ℕ, String, Bool, true, false, not, ◌&&◌, ◌||◌, List, [], ◌∷◌, Option, none, some, ◌==◌, ltb, beq,
  if◌then◌else◌,
}
use control_plane_kit_interp.Base.Dict.{Dict, get}
use control_plane_kit_interp.Base.Lists.{length}
use control_plane_kit_interp.Base.Json.{
  Json, null, string, object, stop, as_object, as_text, member, is_text,
}
use control_plane_kit_interp.Request.{Reference, Intent}
use control_plane_kit_interp.SecretProvider.Base64.{standard, encode, decode}
use control_plane_kit_interp.SecretProvider.Call.{
  malformed_request, malformed_response, Certainty, definite, uncertain, Failure, client_error,
  Answer, ok, failed, Call, give, settle, ◌>>=◌, ◌>>◌, demand, ◌then◌, certain,
}
use control_plane_kit_interp.SecretProvider.Wire.{Python}
use control_plane_kit_interp.SecretProvider.Exchange.{Client, has_keys}
use control_plane_kit_interp.SecretProvider.Exchange.Bounded.{request_json}
use control_plane_kit_interp.SecretProvider.Metadata.{
  is_identifier, request_identity, canonical_provider_secret_id, secret_path, VersionMetadata,
  metadata, metadata_of_object,
}

-- `SecretProviderResolved`, with the value that `SecretValue` holds
pub record Resolved : Type 0 where
  pub metadata : VersionMetadata
  pub value : String

abbrev pub doubtful : Failure
doubtful = client_error malformed_response uncertain

abbrev pub malformed : Failure
malformed = client_error malformed_response definite

-- `set(response) == {"outcome", …} and response.get("outcome") == outcome`
unfoldable pub is_shaped : List String → String → Dict Json → Bool
unfolding has_keys member is_text
is_shaped names outcome response =
    has_keys ("outcome" ∷ names) response && is_text (member "outcome" response) outcome

abbrev is_optional_identifier : Option String → Bool
is_optional_identifier none = true
is_optional_identifier (some version_id) = is_identifier version_id

abbrev pub text_or_null : Option String → Json
text_or_null none = null
text_or_null (some s) = string s

-- A selected version is the one that was answered, with the intent of the selection.
abbrev pub is_selected : Option String → Intent → VersionMetadata → Bool
is_selected none intent found = true
is_selected (some version_id) intent found =
    (found.version_id == version_id)
    && (elim (get "intent" found.labels) [ none ↦ false | some label ↦ label == intent ])

unfoldable pub written : String → String → Reference → Dict Json → Answer VersionMetadata
unfolding is_shaped member metadata
written workspace_id secret_id reference response =
    demand (is_shaped ("metadata" ∷ []) "stored" response) doubtful
    then metadata workspace_id secret_id reference "active" uncertain (member "metadata" response)

module _ (python : Python) where
  -- `base64.b64encode(value.reveal().encode("utf-8")).decode("ascii")`
  unfoldable pub value_base64 : String → String
  unfolding encode
  value_base64 value = encode standard (python.utf8 value)

  abbrev text_of_material : List ℕ → Option String → Answer String
  text_of_material material none = failed malformed
  text_of_material material (some value) =
      if beq (length material) 0 || ltb 65536 (length material) then failed malformed else ok value

  abbrev text_of_bytes : Option (List ℕ) → Answer String
  text_of_bytes none = failed malformed
  text_of_bytes (some material) = text_of_material material (python.decode_utf8 material)

  -- The value of a response: a text in base64 of at most 64 KB of UTF-8, not empty.
  unfoldable pub decoded_value : Json → Answer String
  unfolding as_text decode
  decoded_value encoded = elim (as_text encoded) [
    | none ↦ failed malformed
    | some s ↦ text_of_bytes (decode s)
  ]

  abbrev known : Answer String → Answer (Unit {0})
  known (ok secret_id) = ok tt
  known (failed x) = failed x

  -- `_metadata_request`; a reference is valid by its type
  unfoldable pub metadata_request : String → Reference → String → Answer (Unit {0})
  unfolding is_identifier canonical_provider_secret_id
  metadata_request workspace_id reference version_id =
      demand (is_identifier workspace_id && is_identifier version_id) (certain malformed_request)
      then known (canonical_provider_secret_id python reference)

module _ {D : Type 0} (self : Client D) where
  open self use {python}

  unfoldable pub write_payload : String → Intent → String → String → Dict Json
  unfolding value_base64
  write_payload value intent caller_subject correlation_id =
      ("value_base64", string (value_base64 python value))
      ∷ ("intent", string intent)
      ∷ ("labels", object stop)
      ∷ ("caller_subject", string caller_subject)
      ∷ ("correlation_id", string correlation_id)
      ∷ []

  -- `write`
  unfoldable pub write :
      String → Reference → String → Intent → String → String → Call D VersionMetadata
  unfolding request_identity canonical_provider_secret_id request_json secret_path write_payload
      written
  write workspace_id reference value intent caller_subject correlation_id = do
    settle (request_identity workspace_id caller_subject correlation_id)
    settle (
        demand (not (ltb 65536 (length (python.utf8 value))))
          (client_error malformed_request definite))
    secret_id ← settle (canonical_provider_secret_id python reference)
    response ←
        request_json self true "POST" (secret_path python workspace_id secret_id)
          (some (write_payload value intent caller_subject correlation_id)) none
    settle (written workspace_id secret_id reference response)

  abbrev finished : VersionMetadata → Answer String → Answer Resolved
  finished found (failed x) = failed x
  finished found (ok value) = ok (record { metadata = found; value = value })

  abbrev with_metadata :
      Option String → Intent → Dict Json → Answer VersionMetadata → Answer Resolved
  with_metadata version_id intent response (failed x) = failed x
  with_metadata version_id intent response (ok found) =
      demand (is_selected version_id intent found) malformed
      then finished found (decoded_value python (member "value_base64" response))

  unfoldable pub resolution :
      String → String → Reference → Option String → Intent → Dict Json → Answer Resolved
  unfolding is_shaped member metadata decoded_value
  resolution workspace_id secret_id reference version_id intent response =
      demand (is_shaped ("metadata" ∷ "value_base64" ∷ []) "resolved" response) malformed
      then with_metadata version_id intent response
          (metadata workspace_id secret_id reference "active" definite (member "metadata" response))

  -- `resolve`
  unfoldable pub resolve :
      String → Reference → Intent → String → String → Option String → Call D Resolved
  unfolding request_identity is_identifier canonical_provider_secret_id request_json secret_path
      resolution
  resolve workspace_id reference intent caller_subject correlation_id version_id = do
    settle (request_identity workspace_id caller_subject correlation_id)
    settle (demand (is_optional_identifier version_id) (certain malformed_request))
    secret_id ← settle (canonical_provider_secret_id python reference)
    response ←
        request_json self false "POST"
          (append (secret_path python workspace_id secret_id) "/resolve")
          (some (
            ("intent", string intent)
            ∷ ("caller_subject", string caller_subject)
            ∷ ("correlation_id", string correlation_id)
            ∷ ("version_id", text_or_null version_id)
            ∷ []))
          none
    settle (resolution workspace_id secret_id reference version_id intent response)

  abbrev same_version : String → Answer VersionMetadata → Answer VersionMetadata
  same_version version_id (failed x) = failed x
  same_version version_id (ok found) =
      if found.version_id == version_id then ok found else failed malformed

  abbrev with_status :
      String → String → Reference → String → Option (Dict Json) → Answer VersionMetadata
  with_status workspace_id secret_id reference version_id none = failed malformed
  with_status workspace_id secret_id reference version_id (some document) =
      if is_text (member "status" document) "active"
      then same_version version_id
          (metadata_of_object workspace_id secret_id reference "active" malformed document)
      else if is_text (member "status" document) "revoked"
      then same_version version_id
          (metadata_of_object workspace_id secret_id reference "revoked" malformed document)
      else failed malformed

  unfoldable pub observed_version :
      String → String → Reference → String → Dict Json → Answer VersionMetadata
  unfolding is_shaped member is_text as_object metadata_of_object
  observed_version workspace_id secret_id reference version_id response =
      demand (is_shaped ("metadata" ∷ []) "metadata" response) malformed
      then with_status workspace_id secret_id reference version_id
          (as_object (member "metadata" response))

  -- `read_metadata`
  unfoldable pub read_metadata : String → Reference → String → Call D VersionMetadata
  unfolding metadata_request canonical_provider_secret_id request_json secret_path observed_version
  read_metadata workspace_id reference version_id = do
    settle (metadata_request python workspace_id reference version_id)
    secret_id ← settle (canonical_provider_secret_id python reference)
    response ←
        request_json self false "GET"
          (append (secret_path python workspace_id secret_id)
            (append "/metadata?version_id=" (python.quote version_id)))
          none none
    settle (observed_version workspace_id secret_id reference version_id response)
