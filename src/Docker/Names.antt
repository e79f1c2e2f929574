-- ===== src/Docker/Names.antt =====
-- Names and digests of Docker resources: `_segment`, `_digest`, `_resource_name` and the three
-- names built from it (docker/runtime.py). `str.encode`, `hashlib` and `json.dumps` are Python's.
pub mod Valid
pub mod Preimage
use Prim.Native.Char.{Char, code}
use Prim.Native.String.{[] as nil, ◌∷◌ as cons, ◌++◌ as append, count}
use control_plane_kit_interp.Base.{
  ℕ, ◌-◌, String, Bool, true, false, ◌&&◌, ◌||◌, List, [], ◌∷◌, ◌++◌, map, ◌==◌, leb, beq,
  if◌then◌else◌,
}
use control_plane_kit_interp.Base.Text.{take, rstrip, strip, lower, join}

pub data Scalar : Type 0 where
  text : String → Scalar
  number : ℕ → Scalar

-- What the program takes from Python's library: `text.encode("utf-8")`, `sha256(bytes).hexdigest()`
-- and `json.dumps` of a list of descriptors, each given by its own JSON text.
pub record Hashing : Type 0 where
  pub utf8 : String → List ℕ
  pub sha256 : List ℕ → String
  pub json_list : List String → String
  -- `json.dumps` of a tuple of texts, compact and in ASCII
  pub json_texts : List String → String
  -- `repr` of a tuple of texts
  pub repr_tuple : List String → String
  -- `json.dumps` of a dict of texts and numbers, with sorted keys and in ASCII
  pub json_object : List (String × Scalar) → String

-- The class `[a-zA-Z0-9_.-]` of `_SEGMENT`.
unfoldable pub is_name_char : Char → Bool
is_name_char c =
    leb b'a' (code c) && leb (code c) b'z'
    || leb b'A' (code c) && leb (code c) b'Z'
    || leb b'0' (code c) && leb (code c) b'9'
    || beq (code c) b'_'
    || beq (code c) b'.'
    || beq (code c) b'-'

-- `_SEGMENT.sub("-", value)`: each maximal run of other characters becomes one dash.
unfoldable pub sub_runs : Bool → String → String
unfolding is_name_char
sub_runs in_run nil = nil
sub_runs in_run (cons c s) =
    let inside = is_name_char c in
    let rest = sub_runs (if inside then false else true) s in
    if inside then cons c rest else if in_run then rest else append "-" rest

unfoldable pub is_edge : Char → Bool
is_edge c = beq (code c) b'-' || beq (code c) b'.'

unfoldable pub segment : String → String
unfolding sub_runs is_edge strip lower
segment value =
    let cleaned = lower (strip is_edge (sub_runs false value)) in
    if cleaned == "" then "x" else cleaned

module _ (h : Hashing) where
  -- The bytes that `_digest` feeds to the hash: each part, closed by a zero byte.
  unfoldable pub preimage : List String → List ℕ
  preimage [] = []
  preimage (part ∷ parts) = h.utf8 part ++ (0 ∷ preimage parts)

  unfoldable pub digest : List String → String
  unfolding preimage
  digest parts = h.sha256 (preimage parts)

  unfoldable pub resource_name : String → List String → String
  unfolding segment digest take rstrip join
  resource_name kind parts =
      let readable = join "-" (map segment (kind ∷ parts)) in
      let suffix = take 12 (digest (kind ∷ parts)) in
      let prefix = rstrip is_edge (take (63 - count suffix - 1) (append "cpk-" readable)) in
      append prefix (append "-" suffix)

  unfoldable pub network_name : String → String → String
  unfolding resource_name
  network_name workspace_id runtime_id = resource_name "net" (workspace_id ∷ runtime_id ∷ [])

  unfoldable pub container_name : String → String → String
  unfolding resource_name
  container_name workspace_id node_id = resource_name "node" (workspace_id ∷ node_id ∷ [])

  unfoldable pub volume_name : String → String → String → String
  unfolding resource_name
  volume_name workspace_id node_id material_id =
      resource_name "vol" (workspace_id ∷ node_id ∷ material_id ∷ [])
