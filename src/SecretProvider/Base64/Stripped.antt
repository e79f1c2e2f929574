-- ===== src/SecretProvider/Base64/Stripped.antt =====
-- `base64.urlsafe_b64encode(…).rstrip(b"=")`, of which secret_provider/client.py makes ids.
use Prim.Native.Char.{Char, code}
use Prim.Native.Nat.{◌/◌, ◌%◌}
use Prim.Native.String.{[] as nil, ◌∷◌ as cons, char_at}
use control_plane_kit_interp.Base.{
  ℕ, ◌+◌, ◌*◌, ◌<◌, String, true, false, List, [], ◌∷◌, Option, none, some, ◌≡◌, refl, ◌∙◌, sym, ap,
  beq, if◌then◌else◌, arith,
}
use control_plane_kit_interp.Base.Lists.{All}
use control_plane_kit_interp.Base.Text.{rstrip}
use control_plane_kit_interp.SecretProvider.Base64.{url_safe, is_pad, three_bytes, encode, bits}
use control_plane_kit_interp.SecretProvider.Base64.RoundTrip.{
  all_below, all_below_sound, is_bits, is_bits-eq, IsByte, first_byte, second_byte, third_byte,
}

-- `base64.urlsafe_b64encode(encoded).rstrip(b"=")`
unfoldable pub stripped : List ℕ → String
unfolding rstrip encode
stripped s = rstrip is_pad (encode url_safe s)

-- The six bits of a symbol of the alphabet for URLs.
unfoldable url_bits : Char → Option ℕ
unfolding bits
url_bits c = if beq (code c) b'-' then some 62 else if beq (code c) b'_' then some 63 else bits c

abbrev one_left : Option ℕ → Option ℕ → Option (List ℕ)
one_left (some a) (some b) = some ((a * 4 + b / 16) ∷ [])
one_left _ _ = none

abbrev two_left : Option ℕ → Option ℕ → Option ℕ → Option (List ℕ)
two_left (some a) (some b) (some c) = some ((a * 4 + b / 16) ∷ (b % 16 * 16 + c / 4) ∷ [])
two_left _ _ _ = none

-- What a stripped text stands for.
unfoldable read : String → Option (List ℕ)
unfolding url_bits
read nil = some []
read (cons a nil) = none
read (cons a (cons b nil)) = one_left (url_bits a) (url_bits b)
read (cons a (cons b (cons c nil))) = two_left (url_bits a) (url_bits b) (url_bits c)
read (cons a (cons b (cons c (cons d s)))) =
    three_bytes (url_bits a) (url_bits b) (url_bits c) (url_bits d) (read s)

symbols : all_below (λ n. is_bits (url_bits (char_at url_safe n)) n) 64 ≡ true
unfolding url_bits
symbols = refl

abbrev symbol : ℕ → Char
symbol m = char_at url_safe m

url_bits-symbol : (m : ℕ) → m < 64 → url_bits (symbol m) ≡ some m
url_bits-symbol m h =
    is_bits-eq (url_bits (symbol m)) m
      (all_below_sound (λ n. is_bits (url_bits (symbol n)) n) 64 m symbols h)

url_bits-is_pad : (c : Char) {m : ℕ} → url_bits c ≡ some m → is_pad c ≡ false
unfolding url_bits
url_bits-is_pad c h = ground arith

rstrip-cons :
    (c : Char) (s : String) → is_pad c ≡ false → rstrip is_pad (cons c s) ≡ cons c (rstrip is_pad s)
unfolding rstrip
rstrip-cons c s h = ground arith

rstrip-symbol :
    (m : ℕ) (s : String)
    → m < 64
    → rstrip is_pad (cons (symbol m) s) ≡ cons (symbol m) (rstrip is_pad s)
rstrip-symbol m s h = rstrip-cons _ s (url_bits-is_pad _ (url_bits-symbol m h))

read-stripped : (s : List ℕ) → All IsByte s → read (stripped s) ≡ some s
unfolding stripped encode read
read-stripped [] h = unfold rstrip in refl
read-stripped (x ∷ []) (h, _) =
    rw (rstrip-symbol (x / 4) _ (omega arith), rstrip-symbol (x % 4 * 16) _ (omega arith))
      (unfold rstrip in
        rw (url_bits-symbol (x / 4) (omega arith), url_bits-symbol (x % 4 * 16) (omega arith))
          (ap (λ n. some (n ∷ [])) (omega arith)))
read-stripped (x ∷ y ∷ []) (h, (k, _)) =
    rw
      (
        rstrip-symbol (x / 4) _ (omega arith),
        rstrip-symbol (x % 4 * 16 + y / 16) _ (omega arith),
        rstrip-symbol (y % 16 * 4) _ (omega arith),
      )
      (unfold rstrip in
        rw
          (
            url_bits-symbol (x / 4) (omega arith),
            url_bits-symbol (x % 4 * 16 + y / 16) (omega arith),
            url_bits-symbol (y % 16 * 4) (omega arith),
            first_byte x y k,
          )
          (ap (λ n. some (x ∷ n ∷ [])) (omega arith)))
read-stripped (x ∷ y ∷ z ∷ rest) (h, (k, (l, hs))) =
    rw
      (
        rstrip-symbol (x / 4) _ (omega arith),
        rstrip-symbol (x % 4 * 16 + y / 16) _ (omega arith),
        rstrip-symbol (y % 16 * 4 + z / 64) _ (omega arith),
        rstrip-symbol (z % 64) _ (omega arith),
        url_bits-symbol (x / 4) (omega arith),
        url_bits-symbol (x % 4 * 16 + y / 16) (omega arith),
        url_bits-symbol (y % 16 * 4 + z / 64) (omega arith),
        url_bits-symbol (z % 64) (omega arith),
        read-stripped rest hs,
        first_byte x y k,
        second_byte x y z k l,
        third_byte y z l,
      )
      refl

abbrev some_bytes : Option (List ℕ) → List ℕ
some_bytes none = []
some_bytes (some s) = s

pub stripped-injective :
    (s t : List ℕ) → All IsByte s → All IsByte t → stripped s ≡ stripped t → s ≡ t
stripped-injective s t hs ht h =
    ap some_bytes (sym (read-stripped s hs) ∙ (ap read h ∙ read-stripped t ht))
