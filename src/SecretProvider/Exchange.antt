-- ===== src/SecretProvider/Exchange.antt =====
-- `ControlPlaneKitSecretsClient._request_json` and what it calls (secret_provider/client.py): one
-- bounded exchange with the provider, which ends with a JSON object or with an error that says
-- whether the provider may have acted.
pub mod Bounded
use Prim.Native.Char.{Char, code}
use Prim.Native.String.{[] as nil, ◌∷◌ as cons, count}
use control_plane_kit_interp.Base.{
  ℕ, zero, suc, String, Bool, true, false, not, ◌&&◌, ◌||◌, List, [], ◌∷◌, ◌++◌, Option, none, some,
  ◌==◌, ltb, leb, beq, is_none, if◌then◌else◌,
}
use control_plane_kit_interp.Base.Dict.{Dict, get, keys}
use control_plane_kit_interp.Base.Lists.{length, all, any}
use control_plane_kit_interp.Base.Text.{all_chars, strip}
use control_plane_kit_interp.Base.Json.{Json, as_object, as_text, member}
use control_plane_kit_interp.SecretProvider.Call.{
  Code, malformed_configuration, malformed_request, denied, missing, revoked, already_exists,
  conflict, redirected, timed_out, transport_failed, response_too_large, malformed_response,
  integrity_failure, unavailable, Certainty, definite, Failure, client_error, foreign, Answer, ok,
  failed, Call, give, fail, settle, next, ◌>>=◌, ◌>>◌, demand, ◌then◌, certain, certainty,
}
use control_plane_kit_interp.SecretProvider.Wire.{
  Integer, pos, negsuc, Python, Broken, timeout, http_error, other_error, Piece, chunk, broke,
  Response, Sending, no_response, answered, Sent, Wire,
}

-- `SecretProviderClientConfiguration`, with the references as texts
pub record Configuration : Type 0 where
  pub endpoint_reference : String
  pub base_url : String
  pub credential_reference : String
  pub credential_file : String

-- The sizes of `SecretProviderClientPolicy`; its times are for httpx and for `Wire.late`.
pub record Policy : Type 0 where
  pub maximum_request_bytes : ℕ
  pub maximum_response_bytes : ℕ

pub record Client (D : Type 0) : Type 1 where
  pub configuration : Configuration
  pub policy : Policy
  pub python : Python
  pub wire : Wire D

-- `set(value) == names`
unfoldable pub has_keys : List String → Dict Json → Bool
unfolding keys
has_keys names d =
    all (λ k. any (λ n. n == k) names) (keys d) && all (λ n. any (λ k. n == k) (keys d)) names

abbrev is_printable : Char → Bool
is_printable c = leb 0x20 (code c) && ltb (code c) 0x7F

abbrev is_space : Char → Bool
is_space c = beq (code c) 0x20

-- The audit correlation of a read. Among printable characters only the space is stripped.
unfoldable pub audit_allowed : Option String → Bool
unfolding all_chars
audit_allowed none = true
audit_allowed (some s) = not (all_chars is_space s) && leb (count s) 128 && all_chars is_printable s

-- `removesuffix("\n")`
unfoldable pub without_newline : String → String
without_newline nil = nil
without_newline (cons c nil) = if beq (code c) 0x0A then nil else cons c nil
without_newline (cons c (cons d s)) = cons c (without_newline (cons d s))

abbrev is_visible : Char → Bool
is_visible c = leb 0x21 (code c) && leb (code c) 0x7E

-- A token of visible characters has nothing to strip.
unfoldable pub token_of : Option String → Answer String
unfolding without_newline all_chars
token_of none = failed (certain malformed_configuration)
token_of (some value) =
    let token = without_newline value in
    if not (token == "") && all_chars is_visible token
    then ok token
    else failed (certain malformed_configuration)

unfoldable pub credential_of : Python → Option (List ℕ) → Answer String
unfolding token_of
credential_of python none = failed (certain malformed_configuration)
credential_of python (some value) =
    if ltb 4096 (length value)
    then failed (certain malformed_configuration)
    else token_of (python.decode_ascii value)

-- What `_request_json` raises for an exchange that broke.
unfoldable pub broken : Bool → Broken → Failure
unfolding certainty
broken mutation timeout = client_error timed_out (certainty mutation)
broken mutation http_error = client_error transport_failed (certainty mutation)
broken mutation (other_error e) = foreign e

unfoldable pub exceeds : Integer → ℕ → Bool
exceeds (pos n) m = ltb m n
exceeds (negsuc n) m = false

abbrev pub judge_length : Bool → ℕ → Option Integer → Answer (Unit {0})
judge_length mutation limit none = failed (client_error malformed_response (certainty mutation))
judge_length mutation limit (some n) =
    demand (not (exceeds n limit)) (client_error response_too_large (certainty mutation))

unfoldable pub declared_fits : Python → Bool → ℕ → Option String → Answer (Unit {0})
unfolding exceeds certainty
declared_fits python mutation limit none = ok tt
declared_fits python mutation limit (some declared) =
    judge_length mutation limit (python.to_int declared)

-- `_raise_provider_error`: the code for a status with its outcome and code
unfoldable pub refusal_code : ℕ → String → String → Code
refusal_code status outcome code =
    if (beq status 401 || beq status 403) && outcome == "denied"
    then denied
    else if beq status 404 && outcome == "missing"
    then missing
    else if beq status 409 && outcome == "revoked"
    then revoked
    else if beq status 409 && outcome == "already-exists"
    then already_exists
    else if beq status 409 && outcome == "conflict"
    then conflict
    else if (beq status 400 || beq status 422) && outcome == "malformed"
    then malformed_request
    else if beq status 503 && code == "integrity-failure"
    then integrity_failure
    else if leb 500 status
    then unavailable
    else malformed_response

abbrev pub refusal_with : ℕ → Bool → Option String → Option String → Failure
refusal_with status mutation (some outcome) (some code) =
    client_error (refusal_code status outcome code) (certainty (mutation && leb 500 status))
refusal_with status mutation _ _ = client_error malformed_response (certainty mutation)

abbrev pub refusal_of : ℕ → Bool → Option (Dict Json) → Failure
refusal_of status mutation none = client_error malformed_response (certainty mutation)
refusal_of status mutation (some detail) =
    if has_keys ("outcome" ∷ "code" ∷ []) detail
    then refusal_with status mutation (as_text (member "outcome" detail))
        (as_text (member "code" detail))
    else client_error malformed_response (certainty mutation)

unfoldable pub provider_error : ℕ → Dict Json → Bool → Failure
unfolding refusal_code certainty has_keys member as_text as_object
provider_error status payload mutation =
    if has_keys ("detail" ∷ []) payload
    then refusal_of status mutation (as_object (member "detail" payload))
    else client_error malformed_response (certainty mutation)
