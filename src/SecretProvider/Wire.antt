-- ===== src/SecretProvider/Wire.antt =====
-- What secret_provider/client.py takes from outside: Python's codecs and `json`, the file of the
-- credential, the clock, and the HTTP exchange of httpx.
use control_plane_kit_interp.Base.{ℕ, String, Bool, List, Option}
use control_plane_kit_interp.Base.Dict.{Dict}
use control_plane_kit_interp.Base.Json.{Json}
use control_plane_kit_interp.Effect.{Raised}

-- What `int(text)` gives.
pub data Integer : Type 0 where
  pos : ℕ → Integer
  negsuc : ℕ → Integer

pub record Python : Type 0 where
  -- `json.dumps(payload, separators=…, sort_keys=True).encode("utf-8")`, where it does not raise
  pub dumps : Dict Json → Option (List ℕ)
  -- `json.loads(content)`, where it does not raise
  pub loads : List ℕ → Option Json
  -- `quote(text, safe="")`
  pub quote : String → String
  pub utf8 : String → List ℕ
  pub decode_utf8 : List ℕ → Option String
  pub decode_ascii : List ℕ → Option String
  pub to_int : String → Option Integer

-- How an exchange breaks: `httpx.TimeoutException`, another `httpx.HTTPError`, or any other
-- exception.
pub data Broken : Type 0 where
  timeout http_error : Broken
  other_error : Raised → Broken

-- What `response.iter_bytes()` gives, one after the other.
pub data Piece : Type 0 where
  chunk : List ℕ → Piece
  broke : Broken → Piece

pub record Response : Type 0 where
  pub status : ℕ
  pub content_length : Option String
  pub content_type : Option String
  pub pieces : List Piece

pub data Sending : Type 0 where
  no_response : Broken → Sending
  answered : Response → Sending

pub record Sent : Type 0 where
  pub base_url : String
  pub method : String
  pub path : String
  pub token : String
  pub audit : Option String
  pub body : List ℕ

pub record Wire (D : Type 0) : Type 1 where
  pub Time : Type 0
  pub now : D → Time × D
  -- `now - started > total_timeout_seconds`
  pub late : Time → Time → Bool
  -- the first 4097 bytes of the file, `none` where it raises an `OSError`
  pub read_file : String → D → Option (List ℕ) × D
  pub send : Sent → D → Sending × D
  -- `response.close()`
  pub close : D → Option Broken × D
