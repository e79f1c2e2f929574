-- ===== src/SecretProvider/Policy.antt =====
-- secret_provider/policy.py: the transport of the provider's policy. Its requests, grants and results
-- are Core's.
pub mod Pages
use Prim.Native.Char.{Char, code}
use Prim.Native.String.{[] as nil, ◌∷◌ as cons, ◌++◌ as append, count}
use control_plane_kit_interp.Base.{
  ℕ, String, Bool, true, false, not, ◌&&◌, ◌||◌, List, [], ◌∷◌, ◌++◌, Option, none, some, ◌==◌, leb,
  if◌then◌else◌,
}
use control_plane_kit_interp.Base.Dict.{Dict, update}
use control_plane_kit_interp.Base.Json.{Json, string, number, member, as_object}
use control_plane_kit_interp.Effect.{Raised}
use control_plane_kit_interp.SecretProvider.Call.{
  Code, malformed_configuration, malformed_request, denied, missing, conflict, unavailable,
  integrity_failure, redirected, timed_out, transport_failed, Certainty, definite, uncertain,
  Failure, client_error, Answer, ok, failed, Call,
}
use control_plane_kit_interp.SecretProvider.Exchange.{Client, has_keys}
use control_plane_kit_interp.SecretProvider.Exchange.Bounded.{request_json}

-- `ProviderPolicyErrorCode`
pub data PolicyCode : Type 0 where
  invalid access_denied absent conflicting provider_unavailable transport malformed_result :
      PolicyCode

-- How a call ends: with a value, with a `ProviderPolicyFailure(code, effect_may_have_occurred)`, or
-- with another exception.
pub data PolicyAnswer (A : Type 0) : Type 0 where
  accepted : A → PolicyAnswer A
  policy_failure : PolicyCode → Bool → PolicyAnswer A
  escaped : Failure → PolicyAnswer A

abbrev pub PolicyCall : Type 0 → Type 0 → Type 0
PolicyCall D A = D → PolicyAnswer A × D

-- The codes after which the effect may have occurred
abbrev pub may_follow_effect : PolicyCode → Bool
may_follow_effect provider_unavailable = true
may_follow_effect transport = true
may_follow_effect malformed_result = true
may_follow_effect invalid = false
may_follow_effect access_denied = false
may_follow_effect absent = false
may_follow_effect conflicting = false

-- `_failure`
unfoldable pub failure : {A : Type 0} → PolicyCode → Bool → PolicyAnswer A
failure code mutation = policy_failure code (mutation && may_follow_effect code)

-- `_ERRORS.get(code, MALFORMED_RESULT)`
unfoldable pub policy_code : Code → PolicyCode
policy_code malformed_configuration = provider_unavailable
policy_code malformed_request = invalid
policy_code denied = access_denied
policy_code missing = absent
policy_code conflict = conflicting
policy_code unavailable = provider_unavailable
policy_code integrity_failure = provider_unavailable
policy_code redirected = transport
policy_code timed_out = transport
policy_code transport_failed = transport
policy_code _ = malformed_result

abbrev is_uncertain : Certainty → Bool
is_uncertain definite = false
is_uncertain uncertain = true

abbrev is_malformed : PolicyCode → Bool
is_malformed malformed_result = true
is_malformed invalid = false
is_malformed access_denied = false
is_malformed absent = false
is_malformed conflicting = false
is_malformed provider_unavailable = false
is_malformed transport = false

-- What `_request` makes of the end of an exchange.
unfoldable pub judged :
    {A : Type 0} → Bool → (Dict Json → Option A) → Answer (Dict Json) → PolicyAnswer A
unfolding failure policy_code
judged mutation decode (ok raw) = elim (decode raw) [
  | none ↦ failure malformed_result mutation
  | some value ↦ accepted value
]
judged mutation decode (failed (client_error code certainty)) =
    failure (policy_code code)
      (mutation && (is_uncertain certainty || is_malformed (policy_code code)))
judged mutation decode (failed x) = escaped x

-- `ProviderPolicyCoordinate`
pub record Coordinate : Type 0 where
  pub subject : String
  pub workspace_id : String
  pub action : String
  pub intent : Option String

-- `ProviderPolicyGrantRecord`, by what the client reads of it
pub record GrantRecord : Type 0 where
  pub grant_id : String
  pub provider_id : String
  pub coordinate : Coordinate
  pub revoked_at : Option String

-- `ProviderPolicyCommandResult`, by what the client reads of it
pub record CommandResult : Type 0 where
  pub provider_id : String
  pub correlation_id : String
  pub descriptor : Dict Json

-- `ProviderPolicyGrantCommand` and `ProviderPolicyRevokeCommand`: a revocation has a grant id
pub record Command : Type 0 where
  pub logical_provider_id : String
  pub provider_id : String
  pub provider_correlation : String
  -- `coordinate.descriptor()`
  pub coordinate : Dict Json
  pub expected_revision : Json
  pub grant_id : Option String

-- Core's constructors, where they do not raise, `result.matches(command)`, and the text of a fresh
-- `uuid4`.
pub record PolicyCore : Type 0 where
  pub command_result : Dict Json → Option CommandResult
  pub grant_record : Dict Json → Option GrantRecord
  pub matches : CommandResult → Command → Bool
  pub fresh : String

abbrev pub coordinate_fields : List String
coordinate_fields = "subject" ∷ "workspace_id" ∷ "action" ∷ "intent" ∷ []

-- `_RESULT_FIELDS` and `_GRANT_FIELDS`
abbrev pub result_fields : List String
result_fields =
    coordinate_fields
    ++ ("provider_id" ∷ "correlation_id" ∷ "operation" ∷ "expected_revision" ∷ "outcome" ∷ "code"
        ∷ "grant_id" ∷ "resulting_revision" ∷ "actor" ∷ "occurred_at" ∷ [])

abbrev pub grant_fields : List String
grant_fields =
    coordinate_fields
    ++ ("grant_id" ∷ "provider_id" ∷ "origin" ∷ "granted_by" ∷ "grant_correlation_id" ∷ "granted_at"
        ∷ "revoked_by" ∷ "revoke_correlation_id" ∷ "revoked_at" ∷ [])

module _ (core : PolicyCore) where
  -- `_result` and `_grant`
  unfoldable pub result_of : Dict Json → Option CommandResult
  unfolding has_keys
  result_of value = if has_keys result_fields value then core.command_result value else none

  abbrev grant_in : Option (Dict Json) → Option GrantRecord
  grant_in none = none
  grant_in (some value) = if has_keys grant_fields value then core.grant_record value else none

  unfoldable pub grant_of : Json → Option GrantRecord
  unfolding has_keys as_object
  grant_of value = grant_in (as_object value)

  abbrev matching : Command → Option CommandResult → Option CommandResult
  matching command none = none
  matching command (some result) = if core.matches result command then some result else none

  unfoldable pub decode_command : Command → Dict Json → Option CommandResult
  unfolding result_of
  decode_command command raw = matching command (result_of raw)

-- `ControlPlaneKitSecretsPolicyClient`, with the client that its requests make
pub record PolicyClient (D : Type 0) : Type 1 where
  pub logical_provider_id : String
  pub provider_id : String
  pub client : Client D

module _ {D : Type 0} (core : PolicyCore) (self : PolicyClient D) where
  open self use {client}

  -- `_request`
  unfoldable pub request :
      {A : Type 0}
      → Bool
      → String
      → String
      → Option (Dict Json)
      → (Dict Json → Option A)
      → PolicyCall D A
  unfolding request_json judged
  request mutation method path payload decode d = (judged mutation decode (sent d).0, (sent d).1)
    where
      sent : Call D (Dict Json)
      sent =
          request_json client mutation method path payload
            (if mutation then none else some (append "cpk-policy-read." core.fresh))

  -- `_validate` of a command
  unfoldable pub is_valid : Command → Bool
  is_valid command =
      (command.logical_provider_id == self.logical_provider_id)
      && (command.provider_id == self.provider_id)
      && leb (count command.provider_correlation) 128

  abbrev pub path_of : Option String → String
  path_of none = "/v1/provider-policy/grants"
  path_of (some grant_id) =
      append "/v1/provider-policy/grants/" (append (client.python.quote grant_id) "/revoke")

  unfoldable pub command_payload : Command → Dict Json
  unfolding update
  command_payload command = update command.coordinate (
      ("expected_revision", command.expected_revision)
      ∷ ("correlation_id", string command.provider_correlation)
      ∷ [])

  -- `_mutation`, which `grant` and `revoke` are
  unfoldable pub mutation : Command → PolicyCall D CommandResult
  unfolding is_valid request decode_command failure
  mutation command d =
      if is_valid command
      then request true "POST" (path_of command.grant_id) (some (command_payload command))
          (decode_command core command) d
      else (failure invalid false, d)

  -- `command_result`, for a logical provider and a correlation
  abbrev pub same_command : String → Option CommandResult → Option CommandResult
  same_command correlation none = none
  same_command correlation (some result) =
      if (result.provider_id == self.provider_id) && (result.correlation_id == correlation)
      then some result
      else none

  unfoldable pub command_result : String → String → PolicyCall D CommandResult
  unfolding request result_of failure
  command_result logical_provider_id correlation d =
      if logical_provider_id == self.logical_provider_id
      then request false "GET"
          (append "/v1/provider-policy/commands/" (client.python.quote correlation)) none
          (λ raw. same_command correlation (result_of core raw)) d
      else (failure invalid false, d)
