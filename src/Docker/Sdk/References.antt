-- ===== src/Docker/Sdk/References.antt =====
-- docker/sdk.py: `matches_image_reference`, `_is_canonical_sha256_image_id` and
-- `_secret_file_owner_uid`.
use Prim.Native.Char.{Char, code}
use Prim.Native.String.{[] as nil, ◌∷◌ as cons, ◌++◌ as append, count}
use control_plane_kit_interp.Base.{
  ℕ, ◌+◌, ◌-◌, ◌*◌, String, Bool, false, ◌&&◌, ◌||◌, List, [], ◌∷◌, Option, none, some, ◌==◌, beq,
  leb, if◌then◌else◌,
}
use control_plane_kit_interp.Base.Lists.{any}
use control_plane_kit_interp.Base.Text.{all_chars}

-- `OciImageReference` of Core: what its constructor makes of the three parts, if it accepts them.
pub record OciReference : Type 0 where
  pub registry : String
  pub repository : String
  pub digest : String

-- `text.partition(c)`: what stands before the first `c`, and what stands after it, if there is one.
unfoldable pub partition : ℕ → String → String × Option String
partition sep nil = ("", none)
partition sep (cons c s) =
    let (before, after) = partition sep s in
    if beq (code c) sep then ("", some s) else (cons c before, after)

-- `text.removeprefix(p)` where the text starts with it
unfoldable pub without_prefix : String → String → Option String
without_prefix nil s = some s
without_prefix (cons p ps) nil = none
without_prefix (cons p ps) (cons c s) = if beq (code p) (code c) then without_prefix ps s else none

-- The spellings of an official image, beside the canonical one.
abbrev familiar : String → String → List String
familiar official digest =
    append official (append "@" digest)
    ∷ append "library/" (append official (append "@" digest))
    ∷ append "docker.io/" (append official (append "@" digest))
    ∷ []

unfoldable pub official_spellings : OciReference → List String
unfolding without_prefix partition
official_spellings image =
    if image.registry == "docker.io"
    then elim (without_prefix "library/" image.repository) [
      | none ↦ []
      | some official ↦ elim (partition b'/' official).1 [
        | none ↦ familiar official image.digest
        | some _ ↦ []
      ]
    ]
    else []

abbrev pub mem_text : String → List String → Bool
mem_text s ts = any (λ t. s == t) ts

module _ (oci : String → String → String → Option OciReference) where
  -- The references that `expected` permits; `none` where it is no immutable reference.
  unfoldable pub permitted : String → Option (List String)
  unfolding partition official_spellings
  permitted expected =
      let (name, digest) = partition b'@' expected in
      elim digest [
        | none ↦ none
        | some digest' ↦
            let (registry, repository) = partition b'/' name in
            elim repository [
              | none ↦ none
              | some repository' ↦ elim (oci registry repository' digest') [
                | none ↦ none
                | some image ↦ some (expected ∷ official_spellings image)
              ]
            ]
      ]

  unfoldable pub matches_image_reference : String → List String → Bool
  unfolding permitted
  matches_image_reference expected repo_digests = elim (permitted expected) [
    | none ↦ false
    | some allowed ↦ any (λ reference. mem_text reference allowed) repo_digests
  ]

-- `character in "0123456789abcdef"`
unfoldable pub is_hex : Char → Bool
is_hex c = leb b'0' (code c) && leb (code c) b'9' || leb b'a' (code c) && leb (code c) b'f'

unfoldable pub is_canonical_sha256_image_id : String → Bool
unfolding without_prefix is_hex all_chars
is_canonical_sha256_image_id value = elim (without_prefix "sha256:" value) [
  | none ↦ false
  | some digest ↦ beq (count digest) 64 && all_chars is_hex digest
]

-- `re.fullmatch(r"[0-9a-f]{64}", value)`
unfoldable pub is_hex64 : String → Bool
unfolding is_hex all_chars
is_hex64 value = beq (count value) 64 && all_chars is_hex value

-- `text.split(":")`
unfoldable pub split_at : ℕ → String → String → List String
split_at sep current nil = current ∷ []
split_at sep current (cons c s) =
    let closed = split_at sep nil s in
    let longer = split_at sep (append current (cons c nil)) s in
    if beq (code c) sep then current ∷ closed else longer

unfoldable pub is_digit : Char → Bool
is_digit c = leb b'0' (code c) && leb (code c) b'9'

-- `int(text)` of a text of digits
unfoldable pub to_number : ℕ → String → ℕ
to_number n nil = n
to_number n (cons c s) = to_number (n * 10 + (code c - b'0')) s

-- `re.fullmatch(r"0|[1-9][0-9]*", component)`
unfoldable pub is_numeral : String → Bool
unfolding is_digit all_chars
is_numeral nil = false
is_numeral (cons c s) =
    beq (code c) b'0' && s == "" || leb b'1' (code c) && leb (code c) b'9' && all_chars is_digit s

abbrev is_uid : String → Bool
is_uid component =
    is_numeral component && leb (count component) 10 && leb (to_number 0 component) 2147483647

abbrev owner_of : List String → Option ℕ
owner_of (user ∷ []) = if is_uid user then some (to_number 0 user) else none
owner_of (user ∷ group ∷ []) = if is_uid user && is_uid group then some (to_number 0 user) else none
owner_of _ = none

-- `_secret_file_owner_uid`; `none` is its `ValueError`
unfoldable pub secret_file_owner_uid : Option String → Option ℕ
unfolding split_at is_numeral to_number
secret_file_owner_uid none = none
secret_file_owner_uid (some user) =
    if user == ""
    then some 0
    else if leb (count user) 21
    then owner_of (split_at b':' "" user)
    else none
