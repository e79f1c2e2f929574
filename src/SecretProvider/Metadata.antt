-- ===== src/SecretProvider/Metadata.antt =====
-- The values of secret_provider/client.py: identifiers, the names of secrets in paths, and the
-- metadata of a version, read from the JSON that the provider answered.
use Prim.Native.Char.{Char, code}
use Prim.Native.String.{[] as nil, ◌∷◌ as cons, ◌++◌ as append, count}
use control_plane_kit_interp.Base.{
  ℕ, String, Bool, true, false, not, ◌&&◌, ◌||◌, List, [], ◌∷◌, Option, none, some, ◌==◌, ltb, leb,
  beq, if◌then◌else◌,
}
use control_plane_kit_interp.Base.Dict.{Dict}
use control_plane_kit_interp.Base.Lists.{length, all}
use control_plane_kit_interp.Base.Text.{all_chars}
use control_plane_kit_interp.Base.Json.{
  Json, number, null, string, as_object, as_text, as_texts, member, is_text,
}
use control_plane_kit_interp.Request.{Reference}
use control_plane_kit_interp.SecretProvider.Base64.Stripped.{stripped}
use control_plane_kit_interp.SecretProvider.Call.{
  malformed_request, malformed_response, Certainty, Failure, client_error, Answer, ok, failed,
  demand, ◌then◌, certain,
}
use control_plane_kit_interp.SecretProvider.Wire.{Python}
use control_plane_kit_interp.SecretProvider.Exchange.{has_keys}

abbrev is_alphanumeric : Char → Bool
is_alphanumeric c =
    leb b'A' (code c) && leb (code c) b'Z'
    || leb b'a' (code c) && leb (code c) b'z'
    || leb b'0' (code c) && leb (code c) b'9'

abbrev is_identifier_char : Char → Bool
is_identifier_char c =
    is_alphanumeric c
    || beq (code c) b'.'
    || beq (code c) b'_'
    || beq (code c) b':'
    || beq (code c) b'-'

-- `_IDENTIFIER.fullmatch(value)`
unfoldable pub is_identifier : String → Bool
unfolding all_chars
is_identifier nil = false
is_identifier (cons c s) = is_alphanumeric c && all_chars is_identifier_char s && leb (count s) 199

-- `_request_identity`
unfoldable pub request_identity : String → String → String → Answer (Unit {0})
unfolding is_identifier
request_identity workspace_id caller_subject correlation_id =
    demand
      (is_identifier workspace_id && is_identifier caller_subject && is_identifier correlation_id)
      (certain malformed_request)

module _ (python : Python) where
  -- `canonical_provider_secret_id`
  unfoldable pub canonical_provider_secret_id : Reference → Answer String
  unfolding stripped
  canonical_provider_secret_id reference =
      if ltb 1024 (length (python.utf8 reference))
      then failed (certain malformed_request)
      else ok (append "cpk1_" (stripped (python.utf8 reference)))

  unfoldable pub secret_path : String → String → String
  secret_path workspace_id secret_id =
      append "/v1/workspaces/"
        (append (python.quote workspace_id) (append "/secrets/" (python.quote secret_id)))

  unfoldable pub delegation_key_path : String → String → String
  delegation_key_path workspace_id secret_id = append "/v1/workspaces/" (
      append (python.quote workspace_id)
        (append "/delegation-keys/" (append (python.quote secret_id) "/generate")))

-- `SecretProviderVersionMetadata`
pub record VersionMetadata : Type 0 where
  pub reference : Reference
  pub version_id : String
  pub version_number : ℕ
  pub status : String
  pub labels : Dict String

abbrev short_texts : Dict String → Bool
short_texts [] = true
short_texts ((k, v) ∷ d) = leb (count k) 64 && leb (count v) 256 && short_texts d

abbrev bounded_texts : Option (Dict String) → Option (Dict String)
bounded_texts none = none
bounded_texts (some d) = if leb (length d) 16 && short_texts d then some d else none

abbrev texts_of : Option (Dict Json) → Option (Dict String)
texts_of none = none
texts_of (some d) = bounded_texts (as_texts d)

-- `_string_mapping`
unfoldable pub string_mapping : Json → Option (Dict String)
unfolding as_object as_texts
string_mapping value = texts_of (as_object value)

abbrev pub identifier_of : Json → Option String
identifier_of (string s) = if is_identifier s then some s else none
identifier_of _ = none

abbrev pub positive_of : Json → Option ℕ
positive_of (number n) = if leb 1 n then some n else none
positive_of _ = none

abbrev pub joined :
    Reference → String → Option String → Option ℕ → Option (Dict String) → Option VersionMetadata
joined reference status (some version_id) (some version_number) (some labels) =
    if status == "active" || status == "revoked"
    then some (record {
      reference = reference;
      version_id = version_id;
      version_number = version_number;
      status = status;
      labels = labels;
    })
    else none
joined reference status _ _ _ = none

-- `SecretProviderVersionMetadata(…)` with its `__post_init__`
unfoldable pub version_metadata : Reference → Json → Json → String → Json → Option VersionMetadata
unfolding is_identifier string_mapping
version_metadata reference version_id version_number status labels =
    joined reference status (identifier_of version_id) (positive_of version_number)
      (string_mapping labels)

-- `_METADATA_KEYS`
abbrev pub metadata_keys : List String
metadata_keys =
    "workspace_id" ∷ "secret_id" ∷ "version_id" ∷ "version_number" ∷ "status" ∷ "algorithm"
    ∷ "key_fingerprint" ∷ "key_version" ∷ "labels" ∷ "created_at" ∷ "revoked_at" ∷ []

abbrev is_filled : Option String → Bool
is_filled none = false
is_filled (some s) = not (s == "")

abbrev is_null_or_text : Json → Bool
is_null_or_text null = true
is_null_or_text (string s) = true
is_null_or_text _ = false

abbrev pub present : Failure → Option VersionMetadata → Answer VersionMetadata
present x none = failed x
present x (some m) = ok m

-- The document of a version, and the text that every failure to read it ends with.
unfoldable pub metadata_of_object :
    String → String → Reference → String → Failure → Dict Json → Answer VersionMetadata
unfolding has_keys member is_text as_text version_metadata
metadata_of_object workspace_id secret_id reference expected_status x value =
    demand (has_keys metadata_keys value) x
    then demand
        (is_text (member "workspace_id" value) workspace_id
          && is_text (member "secret_id" value) secret_id
          && is_text (member "status" value) expected_status)
        x
    then demand
        (all (λ key. is_filled (as_text (member key value)))
          ("algorithm" ∷ "key_fingerprint" ∷ "key_version" ∷ "created_at" ∷ []))
        x
    then demand (is_null_or_text (member "revoked_at" value)) x
    then present x (
        version_metadata reference (member "version_id" value) (member "version_number" value)
          expected_status (member "labels" value))

-- `_metadata` of a dict, and of any value
unfoldable pub metadata :
    String → String → Reference → String → Certainty → Json → Answer VersionMetadata
unfolding as_object metadata_of_object
metadata workspace_id secret_id reference expected_status certainty value = elim (as_object value) [
  | none ↦ failed (client_error malformed_response certainty)
  | some d ↦
      metadata_of_object workspace_id secret_id reference expected_status
        (client_error malformed_response certainty) d
]
