-- ===== src/SecretProvider/Client/Values.antt =====
-- The values that the client of secret_provider/client.py sends and reads.
use control_plane_kit_interp.Base.{◌≤◌, String, some, ◌≡◌, arith}
use control_plane_kit_interp.Base.Lists.{All, length}
use control_plane_kit_interp.Base.Json.{string}
use control_plane_kit_interp.SecretProvider.Base64.RoundTrip.{IsByte, decode-encode}
use control_plane_kit_interp.SecretProvider.Call.{ok}
use control_plane_kit_interp.SecretProvider.Wire.{Python}
use control_plane_kit_interp.SecretProvider.Client.{value_base64, decoded_value}

-- Python's UTF-8 of a text: bytes that it decodes to the text.
pub record IsUtf8 (python : Python) (value : String) : Type 0 where
  pub bytes : All IsByte (python.utf8 value)
  pub decodes : python.decode_utf8 (python.utf8 value) ≡ some value

-- A value whose UTF-8 has between 1 and 65536 bytes, sent in base64 as `write` sends it, is read as
-- itself by `resolve`.
pub decoded_value-value_base64 :
    (python : Python) (value : String)
    → IsUtf8 python value
    → 1 ≤ length (python.utf8 value)
    → length (python.utf8 value) ≤ 65536
    → decoded_value python (string (value_base64 python value)) ≡ ok value
unfolding decoded_value value_base64
decoded_value-value_base64 python value law least most =
    rw (decode-encode (python.utf8 value) law.bytes, law.decodes) (ground arith)
