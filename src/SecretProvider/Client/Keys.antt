-- ===== src/SecretProvider/Client/Keys.antt =====
-- `generate_delegation_key` of `ControlPlaneKitSecretsClient` (secret_provider/client.py). The kinds
-- of keys and their public halves are Core's.
use control_plane_kit_interp.Base.{
  String, Bool, true, false, not, ◌&&◌, [], ◌∷◌, Option, none, some, ◌==◌, is_none, if◌then◌else◌,
}
use control_plane_kit_interp.Base.Dict.{Dict, get}
use control_plane_kit_interp.Base.Json.{Json, boolean, string, member, is_text, is_true}
use control_plane_kit_interp.Request.{Reference, Intent}
use control_plane_kit_interp.SecretProvider.Call.{
  malformed_request, uncertain, Answer, ok, failed, Call, settle, ◌>>=◌, ◌>>◌, demand, ◌then◌,
  certain,
}
use control_plane_kit_interp.SecretProvider.Exchange.{Client}
use control_plane_kit_interp.SecretProvider.Exchange.Bounded.{request_json}
use control_plane_kit_interp.SecretProvider.Metadata.{
  is_identifier, request_identity, canonical_provider_secret_id, delegation_key_path,
  VersionMetadata, metadata,
}
use control_plane_kit_interp.SecretProvider.Client.{is_shaped, doubtful}

-- `DelegationKeyPurpose`: the families that the client knows, and any other by its value
pub data Purpose : Type 0 where
  gateway_probe gateway_node_control_transit workload_node_control : Purpose
  workload_node_control_surface_read gateway_node_health_read_transit : Purpose
  workload_node_health_read : Purpose
  other_purpose : String → Purpose

-- `DelegationPublicKey`
pub record PublicKey : Type 0 where
  pub key_id : String
  pub fingerprint_sha256 : String

-- What Core gives: the value of a purpose, the values of three intents and the intents of health
-- keys, and `DelegationPublicKey(key_id=…, algorithm=…, public_key_pem=…)`, where it does not raise.
pub record Core : Type 0 where
  pub purpose_value : Purpose → String
  pub gateway_probe_signing_key : Intent
  pub gateway_node_control_transit_signing_key : Intent
  pub workload_node_control_signing_key : Intent
  pub health_signing_intent_for : Purpose → Intent
  pub public_key : Json → Json → Json → Option PublicKey

-- `SecretProviderGeneratedDelegationKey`
pub record GeneratedKey : Type 0 where
  pub reference : Reference
  pub metadata : VersionMetadata
  pub purpose : Purpose
  pub issuer : String
  pub correlation_id : String
  pub public_key : PublicKey
  pub replayed : Bool

abbrev has_label : String → String → VersionMetadata → Bool
has_label key value found = elim (get key found.labels) [
  | none ↦ false
  | some label ↦ label == value
]

module _ (core : Core) where
  -- `_generation_intent` with `_GENERATION_INTENTS`
  unfoldable pub generation_intent : Purpose → Option Intent
  generation_intent gateway_probe = some core.gateway_probe_signing_key
  generation_intent gateway_node_control_transit =
      some core.gateway_node_control_transit_signing_key
  generation_intent workload_node_control = some core.workload_node_control_signing_key
  generation_intent workload_node_control_surface_read = some core.gateway_probe_signing_key
  generation_intent gateway_node_health_read_transit =
      some (core.health_signing_intent_for gateway_node_health_read_transit)
  generation_intent workload_node_health_read =
      some (core.health_signing_intent_for workload_node_health_read)
  generation_intent (other_purpose value) = none

  abbrev has_intent : Option Intent → VersionMetadata → Bool
  has_intent none found = false
  has_intent (some intent) found = has_label "intent" intent found

  -- `SecretProviderGeneratedDelegationKey.__post_init__`
  unfoldable pub generated_key : GeneratedKey → Answer GeneratedKey
  unfolding generation_intent is_identifier get
  generated_key key =
      demand
        ((key.metadata.reference == key.reference)
          && is_identifier key.issuer
          && is_identifier key.correlation_id
          && has_intent (generation_intent key.purpose) key.metadata
          && has_label "purpose" (core.purpose_value key.purpose) key.metadata
          && has_label "issuer" key.issuer key.metadata
          && has_label "key_id" key.public_key.key_id key.metadata)
        doubtful
      then ok key

  abbrev is_boolean : Json → Bool
  is_boolean (boolean b) = true
  is_boolean _ = false

  -- The response is for the request that was sent.
  unfoldable pub is_echo : Reference → Purpose → String → String → Dict Json → Bool
  unfolding is_shaped member is_text
  is_echo reference purpose issuer correlation_id response =
      is_shaped
        ("secret_reference" ∷ "metadata" ∷ "purpose" ∷ "issuer" ∷ "correlation_id" ∷ "key_id"
          ∷ "algorithm" ∷ "public_key_pem" ∷ "fingerprint_sha256" ∷ "replayed" ∷ [])
        "generated" response
      && is_text (member "secret_reference" response) reference
      && is_text (member "purpose" response) (core.purpose_value purpose)
      && is_text (member "issuer" response) issuer
      && is_text (member "correlation_id" response) correlation_id
      && is_boolean (member "replayed" response)

  abbrev pub with_key :
      Reference
      → Purpose
      → String
      → String
      → Dict Json
      → VersionMetadata
      → Option PublicKey
      → Answer GeneratedKey
  with_key reference purpose issuer correlation_id response found none = failed doubtful
  with_key reference purpose issuer correlation_id response found (some public_key) =
      demand (is_text (member "fingerprint_sha256" response) public_key.fingerprint_sha256) doubtful
      then generated_key (record {
        reference = reference;
        metadata = found;
        purpose = purpose;
        issuer = issuer;
        correlation_id = correlation_id;
        public_key = public_key;
        replayed = is_true (member "replayed" response);
      })

  abbrev pub with_metadata :
      Reference
      → Purpose
      → String
      → String
      → Dict Json
      → Answer VersionMetadata
      → Answer GeneratedKey
  with_metadata reference purpose issuer correlation_id response (failed x) = failed x
  with_metadata reference purpose issuer correlation_id response (ok found) =
      with_key reference purpose issuer correlation_id response found (
        core.public_key (member "key_id" response) (member "algorithm" response)
          (member "public_key_pem" response))

  unfoldable pub generated :
      String → String → Reference → Purpose → String → String → Dict Json → Answer GeneratedKey
  unfolding is_echo member is_text is_true generated_key metadata
  generated workspace_id secret_id reference purpose issuer correlation_id response =
      demand (is_echo reference purpose issuer correlation_id response) doubtful
      then with_metadata reference purpose issuer correlation_id response (
          metadata workspace_id secret_id reference "active" uncertain (member "metadata" response))

  abbrev pub key_payload : Reference → Purpose → String → String → String → Dict Json
  key_payload reference purpose issuer caller_subject correlation_id =
      ("secret_reference", string reference)
      ∷ ("purpose", string (core.purpose_value purpose))
      ∷ ("issuer", string issuer)
      ∷ ("caller_subject", string caller_subject)
      ∷ ("correlation_id", string correlation_id)
      ∷ []

module _ {D : Type 0} (core : Core) (self : Client D) where
  open self use {python}

  -- `generate_delegation_key`
  unfoldable pub generate_delegation_key :
      String → Reference → Purpose → String → String → String → Call D GeneratedKey
  unfolding request_identity generation_intent is_identifier canonical_provider_secret_id
      request_json delegation_key_path generated
  generate_delegation_key workspace_id reference purpose issuer caller_subject correlation_id = do
    settle (request_identity workspace_id caller_subject correlation_id)
    settle (
        demand (not (is_none (generation_intent core purpose)) && is_identifier issuer)
          (certain malformed_request))
    secret_id ← settle (canonical_provider_secret_id python reference)
    response ←
        request_json self true "POST" (delegation_key_path python workspace_id secret_id)
          (some (key_payload core reference purpose issuer caller_subject correlation_id)) none
    settle (generated core workspace_id secret_id reference purpose issuer correlation_id response)
