-- ===== src/SecretProvider/Base64.antt =====
-- `base64.b64encode`, `base64.b64decode(…, validate=True)` and `base64.urlsafe_b64encode` of Python,
-- as secret_provider/client.py calls them, over bytes below 256.
pub mod RoundTrip
pub mod Stripped
use Prim.Native.Char.{Char, code}
use Prim.Native.Nat.{◌/◌, ◌%◌}
use Prim.Native.String.{[] as nil, ◌∷◌ as cons, char_at}
use control_plane_kit_interp.Base.{
  ℕ, ◌+◌, ◌-◌, ◌*◌, String, Bool, ◌&&◌, List, [], ◌∷◌, Option, none, some, leb, beq, if◌then◌else◌,
}

abbrev pub standard : String
standard = "ABCDEFGHIJKLMNOPQRSTUVWXYZabcdefghijklmnopqrstuvwxyz0123456789+/"

abbrev pub url_safe : String
url_safe = "ABCDEFGHIJKLMNOPQRSTUVWXYZabcdefghijklmnopqrstuvwxyz0123456789-_"

abbrev pub pad : Char
pad = char_at "=" 0

-- Three bytes make four symbols of six bits; what is left over is filled up with `=`.
unfoldable pub encode : String → List ℕ → String
encode alphabet [] = nil
encode alphabet (x ∷ []) =
    cons (char_at alphabet (x / 4)) (cons (char_at alphabet (x % 4 * 16)) (cons pad (cons pad nil)))
encode alphabet (x ∷ y ∷ []) = cons (char_at alphabet (x / 4)) (
    cons (char_at alphabet (x % 4 * 16 + y / 16))
      (cons (char_at alphabet (y % 16 * 4)) (cons pad nil)))
encode alphabet (x ∷ y ∷ z ∷ rest) = cons (char_at alphabet (x / 4)) (
    cons (char_at alphabet (x % 4 * 16 + y / 16)) (
      cons (char_at alphabet (y % 16 * 4 + z / 64))
        (cons (char_at alphabet (z % 64)) (encode alphabet rest))))

-- The six bits of a symbol of the standard alphabet.
unfoldable pub bits : Char → Option ℕ
bits c =
    if leb b'A' (code c) && leb (code c) b'Z'
    then some (code c - b'A')
    else if leb b'a' (code c) && leb (code c) b'z'
    then some (code c - b'a' + 26)
    else if leb b'0' (code c) && leb (code c) b'9'
    then some (code c - b'0' + 52)
    else if beq (code c) b'+'
    then some 62
    else if beq (code c) b'/'
    then some 63
    else none

abbrev pub is_pad : Char → Bool
is_pad c = beq (code c) b'='

abbrev one_byte : Option ℕ → Option ℕ → Option (List ℕ)
one_byte (some a) (some b) = some ((a * 4 + b / 16) ∷ [])
one_byte (some a) none = none
one_byte none b = none

abbrev two_bytes : Option ℕ → Option ℕ → Option ℕ → Option (List ℕ)
two_bytes (some a) (some b) (some c) = some ((a * 4 + b / 16) ∷ (b % 16 * 16 + c / 4) ∷ [])
two_bytes _ _ _ = none

abbrev pub three_bytes :
    Option ℕ → Option ℕ → Option ℕ → Option ℕ → Option (List ℕ) → Option (List ℕ)
three_bytes (some a) (some b) (some c) (some d) (some rest) =
    some ((a * 4 + b / 16) ∷ (b % 16 * 16 + c / 4) ∷ (c % 4 * 64 + d) ∷ rest)
three_bytes _ _ _ _ _ = none

-- `=` may only close the last group of four.
unfoldable pub decode : String → Option (List ℕ)
unfolding bits
decode nil = some []
decode (cons a nil) = none
decode (cons a (cons b nil)) = none
decode (cons a (cons b (cons c nil))) = none
decode (cons a (cons b (cons c (cons d nil)))) =
    if is_pad c && is_pad d
    then one_byte (bits a) (bits b)
    else if is_pad d
    then two_bytes (bits a) (bits b) (bits c)
    else three_bytes (bits a) (bits b) (bits c) (bits d) (some [])
decode (cons a (cons b (cons c (cons d (cons e s))))) =
    three_bytes (bits a) (bits b) (bits c) (bits d) (decode (cons e s))
