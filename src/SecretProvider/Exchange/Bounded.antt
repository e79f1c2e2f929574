-- ===== src/SecretProvider/Exchange/Bounded.antt =====
-- `_request_json` itself: the request is bounded, the response is read up to its bound and its time.
use Prim.Native.Char.{Char, code}
use Prim.Native.String.{[] as nil, ◌∷◌ as cons}
use control_plane_kit_interp.Base.{
  ℕ, String, Bool, not, ◌&&◌, ◌||◌, List, [], ◌∷◌, ◌++◌, Option, none, some, ◌==◌, ltb, leb, beq,
  if◌then◌else◌,
}
use control_plane_kit_interp.Base.Dict.{Dict}
use control_plane_kit_interp.Base.Lists.{length}
use control_plane_kit_interp.Base.Text.{strip}
use control_plane_kit_interp.Base.Json.{Json, as_object}
use control_plane_kit_interp.SecretProvider.Call.{
  malformed_request, redirected, timed_out, response_too_large, malformed_response, client_error,
  Answer, ok, failed, Call, fail, settle, ◌>>=◌, ◌>>◌, demand, ◌then◌, certain, certainty,
}
use control_plane_kit_interp.SecretProvider.Wire.{
  Python, Broken, Piece, chunk, broke, Response, Sending, no_response, answered, Sent,
}
use control_plane_kit_interp.SecretProvider.Exchange.{
  Client, audit_allowed, credential_of, broken, declared_fits, provider_error,
}

abbrev pub body_of : Python → Option (Dict Json) → Option (List ℕ)
body_of python none = some []
body_of python (some payload) = python.dumps payload

abbrev pub bounded_body : ℕ → Option (List ℕ) → Answer (List ℕ)
bounded_body limit none = failed (certain malformed_request)
bounded_body limit (some body) =
    if ltb limit (length body) then failed (certain malformed_request) else ok body

-- `_content_type`: what stands before the first `;`, stripped of white space
unfoldable pub is_white : Char → Bool
is_white c =
    leb 0x09 (code c) && leb (code c) 0x0D
    || leb 0x1C (code c) && leb (code c) 0x20
    || beq (code c) 0x85
    || beq (code c) 0xA0

unfoldable pub before_semicolon : String → String
before_semicolon nil = nil
before_semicolon (cons c s) =
    let rest = before_semicolon s in if beq (code c) b';' then nil else cons c rest

abbrev pub text_or_empty : Option String → String
text_or_empty none = nil
text_or_empty (some value) = value

unfoldable pub content_type : Response → String
unfolding is_white before_semicolon strip
content_type response = strip is_white (before_semicolon (text_or_empty response.content_type))

unfoldable pub decoded : Bool → Option Json → Answer (Dict Json)
unfolding as_object certainty
decoded mutation none = failed (client_error malformed_response (certainty mutation))
decoded mutation (some value) = elim (as_object value) [
  | none ↦ failed (client_error malformed_response (certainty mutation))
  | some d ↦ ok d
]

module _ {D : Type 0} (self : Client D) (mutation : Bool) where
  open self use {wire, python, policy}

  abbrev check_time : wire.Time → wire.Time → Answer (Unit {0})
  check_time started now =
      demand (not (wire.late started now)) (client_error timed_out (certainty mutation))

  -- The loop over `iter_bytes()` and the check of the time after it.
  unfoldable pub read_pieces : wire.Time → List ℕ → List Piece → Call D (List ℕ)
  unfolding certainty broken
  read_pieces started content [] d =
      (check_time started (wire.now d).0 then ok content, (wire.now d).1)
  read_pieces started content (broke b ∷ rest) d = (failed (broken mutation b), d)
  read_pieces started content (chunk bytes ∷ rest) d =
      let more = content ++ bytes in
      let onward = read_pieces started more rest (wire.now d).1 in
      if ltb policy.maximum_response_bytes (length more)
      then (failed (client_error response_too_large (certainty mutation)), d)
      else if wire.late started (wire.now d).0
      then (failed (client_error timed_out (certainty mutation)), (wire.now d).1)
      else onward

  -- `finally: response.close()`: what the close raises takes the place of the outcome.
  abbrev pub closing : Answer (List ℕ) → Option Broken × D → Answer (List ℕ) × D
  closing answer (none, d) = (answer, d)
  closing answer (some b, d) = (failed (broken mutation b), d)

  unfoldable pub read_response : wire.Time → Response → Call D (List ℕ)
  unfolding read_pieces broken
  read_response started response d =
      closing (read_pieces started [] response.pieces d).0
        (wire.close (read_pieces started [] response.pieces d).1)

  abbrev is_redirect : ℕ → Bool
  is_redirect status = leb 300 status && ltb status 400

  abbrev is_success : ℕ → Bool
  is_success status = leb 200 status && ltb status 300

  -- `return decoded`, or `_raise_provider_error`
  abbrev pub answer_of : Response → Answer (Dict Json) → Answer (Dict Json)
  answer_of response (failed x) = failed x
  answer_of response (ok payload) =
      if is_success response.status
      then ok payload
      else failed (provider_error response.status payload mutation)

  unfoldable pub judge_response : Response → List ℕ → Answer (Dict Json)
  unfolding certainty provider_error decoded content_type
  judge_response response content =
      if is_redirect response.status
      then failed (client_error redirected (certainty mutation))
      else if not (content_type response == "application/json")
      then failed (client_error malformed_response (certainty mutation))
      else answer_of response (decoded mutation (python.loads content))

  abbrev pub received : wire.Time → Sending → Call D (Dict Json)
  received started (no_response b) = fail (broken mutation b)
  received started (answered response) = do
    settle (declared_fits python mutation policy.maximum_response_bytes response.content_length)
    content ← read_response started response
    settle (judge_response response content)

  abbrev pub exchange : Sent → Call D (Dict Json)
  exchange request d =
      received (wire.now d).0 (wire.send request (wire.now d).1).0
        (wire.send request (wire.now d).1).1

  abbrev pub credential : Call D String
  credential d = (
    credential_of python (wire.read_file self.configuration.credential_file d).0,
    (wire.read_file self.configuration.credential_file d).1,
  )

  unfoldable pub request_json :
      String → String → Option (Dict Json) → Option String → Call D (Dict Json)
  unfolding audit_allowed credential_of broken declared_fits
  request_json method path payload audit = do
    settle (demand (audit_allowed audit) (certain malformed_request))
    body ← settle (bounded_body policy.maximum_request_bytes (body_of python payload))
    token ← credential
    exchange (record {
      base_url = self.configuration.base_url;
      method = method;
      path = path;
      token = token;
      audit = audit;
      body = body;
    })
