-- ===== src/SecretProvider/Trace/Mutations.antt =====
-- The operations of secret_provider/client.py that change the provider, and their definite errors.
use Prim.Native.String.{◌++◌ as append}
use control_plane_kit_interp.Base.{ℕ, String, some, none, not, ◌&&◌, ltb, leb, is_none, true, ◌≡◌}
use control_plane_kit_interp.Base.Lists.{length}
use control_plane_kit_interp.SecretProvider.Call.{malformed_request, Answer, demand, certain}
use control_plane_kit_interp.SecretProvider.Exchange.{Client}
use control_plane_kit_interp.SecretProvider.Metadata.{
  is_identifier, request_identity, canonical_provider_secret_id, secret_path, delegation_key_path,
}
use control_plane_kit_interp.SecretProvider.Client.{write, write_payload}
use control_plane_kit_interp.SecretProvider.Client.Keys.{
  Core, Purpose, key_payload, generation_intent, generate_delegation_key,
}
use control_plane_kit_interp.SecretProvider.Client.Revocations.{
  caller_payload, version_payload, revoke, revoke_version,
}
use control_plane_kit_interp.SecretProvider.Trace.{traced, is_honest, IsHonest, IsHonest-is_honest}
use control_plane_kit_interp.SecretProvider.Trace.Requests.{
  settle-IsHonest, IsHonest-settle, request_json-IsHonest,
}
use control_plane_kit_interp.SecretProvider.Trace.Judgements.{
  written-uncertain, generated-uncertain, revocation-uncertain, version_revocation-uncertain,
}

module _ {D : Type 0} (core : Core) (self : Client D) where
  each-IsHonest :
      (workspace_id reference caller_subject correlation_id : String)
      → ((value intent : String)
          → IsHonest (
              write
                (traced self)
                workspace_id
                reference
                value
                intent
                caller_subject
                correlation_id))
        × ((purpose : Purpose) (issuer : String)
            → IsHonest (
                generate_delegation_key core
                  (traced self)
                  workspace_id
                  reference
                  purpose
                  issuer
                  caller_subject
                  correlation_id))
        × IsHonest (revoke (traced self) workspace_id reference caller_subject correlation_id)
        × ((version_id : String) (number : ℕ)
            → IsHonest (
                revoke_version
                  (traced self)
                  workspace_id
                  reference
                  version_id
                  number
                  caller_subject
                  correlation_id))
  unfolding write generate_delegation_key revoke revoke_version
  each-IsHonest workspace_id reference caller_subject correlation_id = (
    λ value intent. settle-IsHonest identity _ λ _.
        settle-IsHonest
          (demand (not (ltb 65536 (length (python.utf8 value)))) (certain malformed_request)) _
          λ _. settle-IsHonest named _ λ secret_id.
            IsHonest-settle _ _
              (request_json-IsHonest self "POST" (secret_path python workspace_id secret_id)
                (some (write_payload self value intent caller_subject correlation_id)) none)
              (written-uncertain workspace_id secret_id reference),
    λ purpose issuer. settle-IsHonest identity _ λ _.
        settle-IsHonest
          (demand (not (is_none (generation_intent core purpose)) && is_identifier issuer)
            (certain malformed_request))
          _
          λ _. settle-IsHonest named _ λ secret_id.
            IsHonest-settle _ _
              (request_json-IsHonest self "POST" (delegation_key_path python workspace_id secret_id)
                (some (key_payload core reference purpose issuer caller_subject correlation_id))
                none)
              (generated-uncertain core workspace_id secret_id reference purpose issuer
                correlation_id),
    settle-IsHonest identity _ λ _. settle-IsHonest named _ λ secret_id.
        IsHonest-settle _ _
          (request_json-IsHonest self "POST"
            (append (secret_path python workspace_id secret_id) "/revoke")
            (some (caller_payload caller_subject correlation_id)) none)
          (revocation-uncertain workspace_id secret_id reference),
    λ version_id number. settle-IsHonest identity _ λ _.
        settle-IsHonest
          (demand (is_identifier version_id && leb 1 number) (certain malformed_request)) _
          λ _. settle-IsHonest named _ λ secret_id.
            IsHonest-settle _ _
              (request_json-IsHonest self "POST"
                (append (secret_path python workspace_id secret_id)
                  (append "/versions/" (append (python.quote version_id) "/revoke")))
                (some (version_payload number caller_subject correlation_id)) none)
              (version_revocation-uncertain workspace_id secret_id reference version_id number),
  )
    where
      open self use {python}

      identity : Answer (Unit {0})
      identity = request_identity workspace_id caller_subject correlation_id

      named : Answer String
      named = canonical_provider_secret_id python reference

  -- Whatever the wire does, a call of `write`, `generate_delegation_key`, `revoke` or `revoke_version`
  -- does not end with an error that is marked as definite unless it sent no request, or sent one that
  -- was answered with a status that refuses it: below 500, and neither a success nor a redirection.
  pub mutations-is_honest :
      (workspace_id reference caller_subject correlation_id value intent issuer version_id : String)
      (purpose : Purpose) (version : ℕ) (d : D)
      → (is_honest
            (write (traced self) workspace_id reference value intent caller_subject correlation_id)
            d
          ≡ true)
        × (is_honest
              (generate_delegation_key core
                (traced self)
                workspace_id
                reference
                purpose
                issuer
                caller_subject
                correlation_id)
              d
            ≡ true)
        × (is_honest (revoke (traced self) workspace_id reference caller_subject correlation_id) d
            ≡ true)
        × (is_honest
              (revoke_version
                (traced self)
                workspace_id
                reference
                version_id
                version
                caller_subject
                correlation_id)
              d
            ≡ true)
  mutations-is_honest workspace_id reference caller_subject correlation_id value intent issuer
        version_id purpose version d =
      let (of_write, of_generate, of_revoke, of_version) =
        each-IsHonest workspace_id reference caller_subject correlation_id in
      (
        IsHonest-is_honest _ d (of_write value intent),
        IsHonest-is_honest _ d (of_generate purpose issuer),
        IsHonest-is_honest _ d of_revoke,
        IsHonest-is_honest _ d (of_version version_id version),
      )
