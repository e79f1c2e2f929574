-- ===== src/SecretProvider/Resolver.antt =====
-- secret_provider/resolver.py, custody.py and metadata.py: what the interpreters ask of the client of
-- the provider, one grant at a time.
use Prim.Native.String.{◌++◌ as append}
use control_plane_kit_interp.Base.{ℕ, String, Bool, false, Option, none, some, ◌==◌}
use control_plane_kit_interp.Base.Dict.{get}
use control_plane_kit_interp.Request.{Reference, Intent, Resolution, resolved, absent, refused}
use control_plane_kit_interp.Url.{Split}
use control_plane_kit_interp.SecretProvider.Call.{
  malformed_request, denied, missing, revoked, Failure, client_error, mismatched_reference, Answer,
  ok, failed, Call, give, fail, settle, rescue, ◌>>=◌, ◌>>◌, demand, certain,
}
use control_plane_kit_interp.SecretProvider.Wire.{Python, Wire}
use control_plane_kit_interp.SecretProvider.Exchange.{Client, Configuration, Policy}
use control_plane_kit_interp.SecretProvider.Metadata.{VersionMetadata}
use control_plane_kit_interp.SecretProvider.Bootstrap.{Registry, configuration_for}
use control_plane_kit_interp.SecretProvider.Client.{
  Resolved, metadata_request, resolve, read_metadata, write,
}
use control_plane_kit_interp.SecretProvider.Client.Revocations.{Revoked, revoke, revoke_version}

-- The fields that the resolver, the custodian and the reader share, with what Python gives them.
pub record Provider (D : Type 0) : Type 1 where
  pub bootstrap_registry : Registry
  pub policy : Policy
  pub python : Python
  pub wire : Wire D
  pub urlsplit : String → Option Split

-- `ResolutionGrant`: for a reference and an intent, or for one version
pub record ResolutionGrant : Type 0 where
  pub endpoint_reference : String
  pub credential_reference : String
  pub workspace_id : String
  pub actor_subject : String
  pub correlation_id : String
  pub reference : Reference
  pub intent : Intent
  pub version_id : Option String

-- `SecretCustodyGrant`
pub record CustodyGrant : Type 0 where
  pub custody_id : String
  pub provider_registration_id : String
  pub endpoint_reference : String
  pub credential_reference : String
  pub workspace_id : String
  pub actor_subject : String
  pub correlation_id : String
  pub reference : Reference
  pub intent : Intent

-- `SecretVersionRevocationGrant`
pub record RevocationGrant : Type 0 where
  pub revocation_id : String
  pub provider_registration_id : String
  pub endpoint_reference : String
  pub credential_reference : String
  pub workspace_id : String
  pub actor_subject : String
  pub correlation_id : String
  pub reference : Reference
  pub version_id : String
  pub version_number : ℕ

-- `SecretCustodyReceipt` and `SecretVersionRevocationReceipt`, whose first field is the id of the
-- custody or of the revocation
pub record Receipt : Type 0 where
  pub receipt_id : String
  pub provider_registration_id : String
  pub reference : Reference
  pub version_id : String
  pub version_number : ℕ
  pub status : String

abbrev receipt_of : String → String → VersionMetadata → Receipt
receipt_of receipt_id registration found = record {
  receipt_id = receipt_id;
  provider_registration_id = registration;
  reference = found.reference;
  version_id = found.version_id;
  version_number = found.version_number;
  status = found.status;
}

module _ {D : Type 0} (self : Provider D) where
  open self use {urlsplit, bootstrap_registry, policy, python, wire}

  -- `_client_for`
  abbrev client_for : Configuration → Client D
  client_for configuration = record {
    configuration = configuration;
    policy = policy;
    python = python;
    wire = wire;
  }

  abbrev configured_client : String → String → Call D Configuration
  configured_client endpoint credential =
      settle (configuration_for urlsplit bootstrap_registry endpoint credential)

  abbrev resolved_value : Resolved → Resolution
  resolved_value found = resolved found.metadata.reference found.value

  -- `except SecretProviderClientError`
  unfoldable pub resolution_failure : Failure → Call D Resolution
  resolution_failure (client_error missing c) = give absent
  resolution_failure (client_error denied c) = give refused
  resolution_failure (client_error revoked c) = give refused
  resolution_failure x = fail x

  -- `ControlPlaneKitSecretsResolver.resolve`; the answer of Core's `validate_resolution_grant` is
  -- the first argument
  unfoldable pub resolve_grant : Bool → ResolutionGrant → Call D Resolution
  unfolding configuration_for resolve resolution_failure demand
  resolve_grant valid grant = do
    settle (demand valid (certain malformed_request))
    configuration ← configured_client grant.endpoint_reference grant.credential_reference
    rescue
        (resolve (client_for configuration) grant.workspace_id grant.reference grant.intent
            grant.actor_subject grant.correlation_id grant.version_id
          >>= λ found. give (resolved_value found))
        resolution_failure

  -- `ControlPlaneKitSecretsCustodian.store`
  unfoldable pub store : CustodyGrant → String → Call D Receipt
  unfolding configuration_for write
  store grant value = do
    configuration ← configured_client grant.endpoint_reference grant.credential_reference
    found ←
        write (client_for configuration) grant.workspace_id grant.reference value grant.intent
          grant.actor_subject grant.correlation_id
    give (receipt_of grant.custody_id grant.provider_registration_id found)

  abbrev check_revoked : Reference → Revoked → Call D (Unit {0})
  unfolding demand
  check_revoked reference found =
      settle (demand (found.reference == reference) mismatched_reference)

  abbrev missing_is_done : Failure → Call D (Unit {0})
  missing_is_done (client_error missing c) = give tt
  missing_is_done x = fail x

  -- The `try` holds the call only, the comparison comes after it.
  abbrev after_revoke : Reference → Answer Revoked → Call D (Unit {0})
  after_revoke reference (ok found) = check_revoked reference found
  after_revoke reference (failed x) = missing_is_done x

  abbrev revoked_with : Client D → CustodyGrant → Call D (Unit {0})
  unfolding revoke
  revoked_with client grant d = after_revoke grant.reference (run d).0 (run d).1
    where
      run : Call D Revoked
      run =
          revoke client grant.workspace_id grant.reference grant.actor_subject
            (append grant.correlation_id ":revoke")

  -- `ControlPlaneKitSecretsCustodian.revoke`
  unfoldable pub revoke_custody : CustodyGrant → Call D (Unit {0})
  unfolding configuration_for revoke demand
  revoke_custody grant = do
    configuration ← configured_client grant.endpoint_reference grant.credential_reference
    revoked_with (client_for configuration) grant

  -- `ControlPlaneKitSecretsCustodian.revoke_version`
  unfoldable pub revoke_custody_version : RevocationGrant → Call D Receipt
  unfolding configuration_for revoke_version
  revoke_custody_version grant = do
    configuration ← configured_client grant.endpoint_reference grant.credential_reference
    found ←
        revoke_version (client_for configuration) grant.workspace_id grant.reference
          grant.version_id grant.version_number grant.actor_subject grant.correlation_id
    give (receipt_of grant.revocation_id grant.provider_registration_id found)

  abbrev pub has_intent : Intent → VersionMetadata → Bool
  unfolding get
  has_intent intent found = elim (get "intent" found.labels) [
    | none ↦ false
    | some label ↦ label == intent
  ]

  -- `ControlPlaneKitSecretsMetadataReader.read_version`
  unfoldable pub read_version :
      String → String → String → Reference → String → Intent → Call D VersionMetadata
  unfolding metadata_request configuration_for read_metadata demand
  read_version workspace_id endpoint credential reference version_id intent = do
    settle (metadata_request python workspace_id reference version_id)
    configuration ← configured_client endpoint credential
    found ← read_metadata (client_for configuration) workspace_id reference version_id
    settle (demand (found.status == "active") (certain revoked))
    settle (demand (has_intent intent found) (certain denied))
    give found
