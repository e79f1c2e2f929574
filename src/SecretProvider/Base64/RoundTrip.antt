-- ===== src/SecretProvider/Base64/RoundTrip.antt =====
-- `b64decode` of what `b64encode` printed.
use Prim.Native.Char.{Char}
use Prim.Native.Nat.{◌/◌, ◌%◌}
use Prim.Native.String.{[] as nil, ◌∷◌ as cons, char_at}
use control_plane_kit_interp.Base.{
  ℕ, zero, suc, ◌+◌, ◌*◌, ◌<◌, String, Bool, true, false, ◌&&◌, List, [], ◌∷◌, Option, none, some,
  ◌≡◌, refl, ap, beq, arith,
}
use control_plane_kit_interp.Base.Lists.{All}
use control_plane_kit_interp.SecretProvider.Base64.{
  standard, is_pad, three_bytes, encode, bits, decode,
}

-- A test of every number below a bound.
abbrev pub all_below : (ℕ → Bool) → ℕ → Bool
all_below p zero = true
all_below p (suc n) = p n && all_below p n

pub all_below_sound : (p : ℕ → Bool) (n m : ℕ) → all_below p n ≡ true → m < n → p m ≡ true
all_below_sound p zero m h lt = absurd (omega arith)
all_below_sound p (suc n) m h lt = ground (arith, all_below_sound p n m)

abbrev pub is_bits : Option ℕ → ℕ → Bool
is_bits none n = false
is_bits (some m) n = beq m n

pub is_bits-eq : (o : Option ℕ) (n : ℕ) → is_bits o n ≡ true → o ≡ some n
is_bits-eq none n h = absurd (ground arith)
is_bits-eq (some m) n h = ground arith

symbols : all_below (λ n. is_bits (bits (char_at standard n)) n) 64 ≡ true
unfolding bits
symbols = refl

bits-symbol : (m : ℕ) → m < 64 → bits (char_at standard m) ≡ some m
bits-symbol m h =
    is_bits-eq (bits (char_at standard m)) m
      (all_below_sound (λ n. is_bits (bits (char_at standard n)) n) 64 m symbols h)

pub bits-is_pad : (c : Char) {m : ℕ} → bits c ≡ some m → is_pad c ≡ false
unfolding bits
bits-is_pad c h = ground arith

symbol-is_pad : (m : ℕ) → m < 64 → is_pad (char_at standard m) ≡ false
symbol-is_pad m h = bits-is_pad (char_at standard m) (bits-symbol m h)

-- A group that closes without `=` is three bytes before the rest.
decode-group :
    (a b c d : Char) (s : String)
    → is_pad d ≡ false
    → decode (cons a (cons b (cons c (cons d s))))
      ≡ three_bytes (bits a) (bits b) (bits c) (bits d) (decode s)
unfolding decode
decode-group a b c d nil h = ground arith
decode-group a b c d (cons e s) h = refl

abbrev pub IsByte : ℕ → Type 0
IsByte n = n < 256

-- The bytes that the groups of six bits make.
pub first_byte : (x y : ℕ) → y < 256 → x / 4 * 4 + (x % 4 * 16 + y / 16) / 16 ≡ x
first_byte x y h = omega arith

pub second_byte :
    (x y z : ℕ)
    → y < 256
    → z < 256
    → (x % 4 * 16 + y / 16) % 16 * 16 + (y % 16 * 4 + z / 64) / 4 ≡ y
second_byte x y z h k = omega arith

pub third_byte : (y z : ℕ) → z < 256 → (y % 16 * 4 + z / 64) % 4 * 64 + z % 64 ≡ z
third_byte y z h = omega arith

pub decode-encode : (s : List ℕ) → All IsByte s → decode (encode standard s) ≡ some s
unfolding encode
decode-encode [] h = unfold decode in refl
decode-encode (x ∷ []) (h, _) =
    unfold decode in
    rw (bits-symbol (x / 4) (omega arith), bits-symbol (x % 4 * 16) (omega arith))
      (ap (λ n. some (n ∷ [])) (omega arith))
decode-encode (x ∷ y ∷ []) (h, (k, _)) =
    unfold decode in
    rw
      (
        symbol-is_pad (y % 16 * 4) (omega arith),
        bits-symbol (x / 4) (omega arith),
        bits-symbol (x % 4 * 16 + y / 16) (omega arith),
        bits-symbol (y % 16 * 4) (omega arith),
        first_byte x y k,
      )
      (ap (λ n. some (x ∷ n ∷ [])) (omega arith))
decode-encode (x ∷ y ∷ z ∷ rest) (h, (k, (l, hs))) =
    rw
      (
        decode-group _ _ _ _ _ (symbol-is_pad (z % 64) (omega arith)),
        bits-symbol (x / 4) (omega arith),
        bits-symbol (x % 4 * 16 + y / 16) (omega arith),
        bits-symbol (y % 16 * 4 + z / 64) (omega arith),
        bits-symbol (z % 64) (omega arith),
        decode-encode rest hs,
        first_byte x y k,
        second_byte x y z k l,
        third_byte y z l,
      )
      refl
