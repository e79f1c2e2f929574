-- ===== src/Base/Text.antt =====
-- Python's text operations that the program uses, over native strings: slicing, stripping of a set
-- of characters, lower case of ASCII letters and joining.
use Prim.Native.Char.{Char, code}
use Prim.Native.Nat.{ℕ, zero, suc, ◌-◌, ◌≤◌}
use Prim.Native.String.{String, [], ◌∷◌, ◌++◌, count, char_at}
use mathlib.Core.Bool.{Bool, true, ◌&&◌}
use mathlib.Core.List.{List}
use mathlib.Core.Path.{◌≡◌, refl}
use mathlib.Core.Logic.{inl, inr}
use native.Mathlib.Omega.{arith}
use text.Mathlib.Text.{◌==◌}
use text.Mathlib.TextLemmas.{length-nil, length-cons, cons-append, nil-append}
use control_plane_kit_interp.Base.Lists.{All}
use control_plane_kit_interp.Base.Tests.{leb, if◌then◌else◌, Bool-cases}

-- `text[:n]`
unfoldable pub take : ℕ → String → String
take zero s = []
take (suc n) [] = []
take (suc n) (c ∷ s) = c ∷ take n s

-- `text.lstrip(chars)`, `text.rstrip(chars)` and `text.strip(chars)` for the characters that pass
-- the test
unfoldable pub lstrip : (Char → Bool) → String → String
lstrip p [] = []
lstrip p (c ∷ s) = if p c then lstrip p s else c ∷ s

unfoldable pub rstrip : (Char → Bool) → String → String
rstrip p [] = []
rstrip p (c ∷ s) = let rest = rstrip p s in if rest == "" && p c then [] else c ∷ rest

unfoldable pub strip : (Char → Bool) → String → String
unfolding lstrip rstrip
strip p s = rstrip p (lstrip p s)

-- `text.lower()` of one character, where it is an ASCII letter; the callers have no other letters.
unfoldable pub lower_char : Char → Char
lower_char c =
    if leb b'A' (code c) && leb (code c) b'Z'
    then char_at "abcdefghijklmnopqrstuvwxyz" (code c - b'A')
    else c

unfoldable pub lower : String → String
unfolding lower_char
lower [] = []
lower (c ∷ s) = lower_char c ∷ lower s

-- `sep.join(parts)`
unfoldable pub join : String → List String → String
join sep List.[] = []
join sep (List.◌∷◌ s List.[]) = s
join sep (List.◌∷◌ s (List.◌∷◌ t rest)) = s ++ (sep ++ join sep (List.◌∷◌ t rest))

-- Every character passes the test.
unfoldable pub all_chars : (Char → Bool) → String → Bool
all_chars p [] = true
all_chars p (c ∷ s) = p c && all_chars p s

pub count-take : (n : ℕ) (s : String) → count (take n s) ≤ n
unfolding take
count-take zero s = rw length-nil (omega arith)
count-take (suc n) [] = rw length-nil (omega arith)
count-take (suc n) (c ∷ s) = rw length-cons (omega (arith, count-take n s))

pub count-rstrip : (p : Char → Bool) (s : String) → count (rstrip p s) ≤ count s
unfolding rstrip
count-rstrip p [] = omega arith
count-rstrip p (c ∷ s) = elim (Bool-cases (rstrip p s == "" && p c)) [
  | inl cut ↦ rw (cut, length-nil) (omega arith)
  | inr kept ↦ rw (kept, length-cons, length-cons) (omega (arith, count-rstrip p s))
]

module _ (p : Char → Bool) where
  pub all_chars-append :
      (s t : String) → all_chars p s ≡ true → all_chars p t ≡ true → all_chars p (s ++ t) ≡ true
  unfolding all_chars
  all_chars-append [] t h k = rw nil-append k
  all_chars-append (c ∷ s) t h k = rw cons-append (ground (arith, all_chars-append s t))

  pub all_chars-take : (n : ℕ) (s : String) → all_chars p s ≡ true → all_chars p (take n s) ≡ true
  unfolding all_chars take
  all_chars-take zero s h = refl
  all_chars-take (suc n) [] h = refl
  all_chars-take (suc n) (c ∷ s) h = ground (arith, all_chars-take n s)

  pub all_chars-lstrip :
      (q : Char → Bool) (s : String) → all_chars p s ≡ true → all_chars p (lstrip q s) ≡ true
  unfolding all_chars lstrip
  all_chars-lstrip q [] h = refl
  all_chars-lstrip q (c ∷ s) h = ground (arith, all_chars-lstrip q s)

  pub all_chars-rstrip :
      (q : Char → Bool) (s : String) → all_chars p s ≡ true → all_chars p (rstrip q s) ≡ true
  unfolding all_chars rstrip
  all_chars-rstrip q [] h = refl
  all_chars-rstrip q (c ∷ s) h = elim (Bool-cases (rstrip q s == "" && q c)) [
    | inl cut ↦ rw cut refl
    | inr kept ↦ rw kept (ground (arith, all_chars-rstrip q s))
  ]

  -- What a map of characters turns into passing characters.
  pub all_chars-lower :
      (r : Char → Bool)
      → ((c : Char) → r c ≡ true → p (lower_char c) ≡ true)
      → (s : String) → all_chars r s ≡ true
      → all_chars p (lower s) ≡ true
  unfolding all_chars lower
  all_chars-lower r f [] h = refl
  all_chars-lower r f (c ∷ s) h = ground (arith, f c, all_chars-lower r f s)

  pub all_chars-join :
      (sep : String) (parts : List String)
      → all_chars p sep ≡ true
      → All (λ t. all_chars p t ≡ true) parts
      → all_chars p (join sep parts) ≡ true
  unfolding join
  all_chars-join sep List.[] h k = unfold all_chars in refl
  all_chars-join sep (List.◌∷◌ s List.[]) h (k, _) = k
  all_chars-join sep (List.◌∷◌ s (List.◌∷◌ t rest)) h (k, ks) =
      all_chars-append s _ k (all_chars-append sep _ h (all_chars-join sep (List.◌∷◌ t rest) h ks))
