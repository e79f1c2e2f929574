-- ===== src/Docker/Names/Valid.antt =====
-- Every resource name is a name that Docker accepts.
use Prim.Native.Char.{Char, code}
use Prim.Native.String.{[] as nil, ◌∷◌ as cons, ◌++◌ as append, count, char_at}
use mathlib.Core.Bool.{and-false}
use native.Mathlib.Nat.{le_trans}
use text.Mathlib.TextLemmas.{length-append, cons-append}
use control_plane_kit_interp.Base.{
  ℕ, zero, suc, ◌-◌, ◌≤◌, ◌<◌, ◌≡◌, refl, inl, inr, arith, String, Bool, true, false, ◌&&◌, ◌||◌,
  List, [], ◌∷◌, map, ◌==◌, leb, beq, if◌then◌else◌, Bool-cases,
}
use control_plane_kit_interp.Base.Lists.{All}
use control_plane_kit_interp.Base.Text.{
  take, rstrip, lower_char, join, all_chars, count-take, count-rstrip, all_chars-append,
  all_chars-take, all_chars-lstrip, all_chars-rstrip, all_chars-lower, all_chars-join,
}
use control_plane_kit_interp.Docker.Names.{
  Hashing, is_name_char, is_edge, sub_runs, segment, digest, resource_name,
}

-- The characters of a name that the interpreter makes: those of `_SEGMENT` without capitals.
unfoldable pub is_lower_name_char : Char → Bool
is_lower_name_char c =
    leb b'a' (code c) && leb (code c) b'z'
    || leb b'0' (code c) && leb (code c) b'9'
    || beq (code c) b'_'
    || beq (code c) b'.'
    || beq (code c) b'-'

-- What Docker asks of a name: `[a-zA-Z0-9][a-zA-Z0-9_.-]*`; and the bound of 63 that the code sets.
unfoldable pub starts_alphanumeric : String → Bool
starts_alphanumeric nil = false
starts_alphanumeric (cons c s) =
    leb b'a' (code c) && leb (code c) b'z' || leb b'0' (code c) && leb (code c) b'9'

pub record IsDockerName (name : String) : Type 0 where
  pub short : count name ≤ 63
  pub start : starts_alphanumeric name ≡ true
  pub chars : all_chars is_lower_name_char name ≡ true

dash_chars : all_chars is_name_char "-" ≡ true
unfolding all_chars is_name_char
dash_chars = refl

sub_runs_chars : (b : Bool) (s : String) → all_chars is_name_char (sub_runs b s) ≡ true
unfolding sub_runs all_chars
sub_runs_chars b nil = refl
sub_runs_chars b (cons c s) = elim (Bool-cases (is_name_char c)) [
  | inl inside ↦ rw inside (ground (arith, sub_runs_chars false s))
  | inr outside ↦ rw outside (
      ground (
        arith,
        sub_runs_chars true s,
        all_chars-append is_name_char "-" (sub_runs true s) dash_chars,
      ))
]

-- The test passes at each number under the bound.
passes_under : (ℕ → Bool) → ℕ → Bool
passes_under test zero = true
passes_under test (suc bound) = passes_under test bound && test bound

passes_under-apply :
    (test : ℕ → Bool) (bound place : ℕ)
    → place < bound
    → passes_under test bound ≡ true
    → test place ≡ true
unfolding passes_under
passes_under-apply test zero place under passed = absurd (omega arith)
passes_under-apply test (suc bound) place under passed =
    ground (arith, passes_under-apply test bound place)

alphabet_lower :
    passes_under (λ i. is_lower_name_char (char_at "abcdefghijklmnopqrstuvwxyz" i)) 26 ≡ true
unfolding passes_under is_lower_name_char
alphabet_lower = refl

lower_char_upper :
    (c : Char)
    → (leb b'A' (code c) && leb (code c) b'Z') ≡ true
    → is_lower_name_char (lower_char c) ≡ true
unfolding lower_char
lower_char_upper c h = rw h (passes_under-apply _ 26 (code c - b'A') (ground arith) alphabet_lower)

lower_char_other :
    (c : Char)
    → (leb b'A' (code c) && leb (code c) b'Z') ≡ false
    → is_name_char c ≡ true
    → is_lower_name_char (lower_char c) ≡ true
unfolding lower_char is_name_char is_lower_name_char
lower_char_other c h k = rw h (ground arith)

lower_char_chars : (c : Char) → is_name_char c ≡ true → is_lower_name_char (lower_char c) ≡ true
lower_char_chars c h = elim (Bool-cases (leb b'A' (code c) && leb (code c) b'Z')) [
  | inl upper ↦ lower_char_upper c upper
  | inr other ↦ lower_char_other c other h
]

x_chars : all_chars is_lower_name_char "x" ≡ true
unfolding all_chars is_lower_name_char
x_chars = refl

or_x :
    (t : String)
    → all_chars is_lower_name_char t ≡ true
    → all_chars is_lower_name_char (if t == "" then "x" else t) ≡ true
or_x t h = elim (Bool-cases (t == "")) [ inl e ↦ rw e x_chars | inr e ↦ rw e h ]

segment_chars : (s : String) → all_chars is_lower_name_char (segment s) ≡ true
unfolding segment
segment_chars s = or_x _ (
    all_chars-lower is_lower_name_char is_name_char lower_char_chars _ (
      all_chars-rstrip is_name_char is_edge _
        (all_chars-lstrip is_name_char is_edge _ (sub_runs_chars false s))))

map-segment-chars :
    (parts : List String) → All (λ t. all_chars is_lower_name_char t ≡ true) (map segment parts)
map-segment-chars [] = tt
map-segment-chars (s ∷ parts) = (segment_chars s, map-segment-chars parts)

rstrip-cons :
    (p : Char → Bool) (c : Char) (s : String)
    → p c ≡ false
    → rstrip p (cons c s) ≡ cons c (rstrip p s)
unfolding rstrip
rstrip-cons p c s h = rw h (simp and-false)

-- The characters of `hexdigest()`.
unfoldable pub is_hex_digit : Char → Bool
is_hex_digit c = leb b'a' (code c) && leb (code c) b'f' || leb b'0' (code c) && leb (code c) b'9'

hex_chars : (s : String) → all_chars is_hex_digit s ≡ true → all_chars is_lower_name_char s ≡ true
unfolding all_chars is_hex_digit is_lower_name_char
hex_chars nil h = refl
hex_chars (cons c s) h = ground (arith, hex_chars s)

name_start :
    (n : ℕ) (s t : String)
    → 0 < n
    → starts_alphanumeric (append (rstrip is_edge (take n (append "cpk-" s))) t) ≡ true
unfolding take starts_alphanumeric is_edge
name_start zero s t h = elim h [ ]
name_start (suc n) s t h =
    rw
      (cons-append "c" "pk-" s, rstrip-cons is_edge "c" (take n (append "pk-" s)) refl, cons-append)
      refl

name_short :
    (p suffix : String)
    → count suffix ≤ 12
    → count p ≤ 63 - count suffix - 1
    → count (append p (append "-" suffix)) ≤ 63
name_short p suffix h k = rw (length-append, length-append) (omega arith)

cpk_chars : all_chars is_lower_name_char "cpk-" ≡ true
unfolding all_chars is_lower_name_char
cpk_chars = refl

lower_dash_chars : all_chars is_lower_name_char "-" ≡ true
unfolding all_chars is_lower_name_char
lower_dash_chars = refl

-- Every name is valid for Docker: at most 63 characters, a letter or a digit first, and then only
-- lower-case letters, digits, `_`, `.` and `-`, where a hex digest has only hexadecimal digits.
pub resource_name-IsDockerName :
    (h : Hashing)
    → ((bytes : List ℕ) → all_chars is_hex_digit (h.sha256 bytes) ≡ true)
    → (kind : String) (parts : List String) → IsDockerName (resource_name h kind parts)
unfolding resource_name digest
resource_name-IsDockerName h hex kind parts = record {
  short =
      name_short _ _ (count-take 12 _)
        (le_trans (count-rstrip is_edge _) (count-take (63 - count suffix - 1) _));
  start =
      name_start (63 - count suffix - 1) (join "-" (map segment (kind ∷ parts))) _
        (omega (arith, count-take 12 whole));
  chars =
      all_chars-append is_lower_name_char _ _
        (all_chars-rstrip is_lower_name_char is_edge _ (
          all_chars-take is_lower_name_char (63 - count suffix - 1) _ (
            all_chars-append is_lower_name_char "cpk-" _ cpk_chars (
              all_chars-join is_lower_name_char "-" (map segment (kind ∷ parts)) lower_dash_chars
                (map-segment-chars (kind ∷ parts))))))
        (all_chars-append is_lower_name_char "-" suffix lower_dash_chars
          (all_chars-take is_lower_name_char 12 whole (hex_chars whole (hex _))));
}
  where
    whole : String
    whole = digest h (kind ∷ parts)

    suffix : String
    suffix = take 12 whole
