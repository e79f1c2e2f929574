-- ===== src/Docker/Labels.antt =====
-- Ownership labels: how the interpreter marks what it creates, and how it recognises it again
-- (docker/runtime.py, from `_runtime_labels` to `_node_fingerprint`).
pub mod Correlation
use Prim.Native.String.{[] as nil, ◌∷◌ as cons, ◌++◌ as append}
use Prim.Native.Char.{Char}
use text.Mathlib.Text.{starts_with}
use control_plane_kit_interp.Base.{
  String, Bool, true, false, not, ◌&&◌, ◌||◌, List, [], ◌∷◌, ◌++◌, map, Option, none, some, ◌==◌,
  text_eq?, if◌then◌else◌, is_none, beq,
}
use Prim.Native.Char.{code}
use control_plane_kit_interp.Base.Dict.{Dict, get, put, filter_keys, dict_eq}
use control_plane_kit_interp.Base.Lists.{all, any}
use control_plane_kit_interp.Base.Text.{all_chars}
use control_plane_kit_interp.Effect.{Exc, precondition, returned, raised, Check, require, ◌then◌}
use control_plane_kit_interp.Request.{Request, Material, Binding, Artifact, RetainedMount}
use control_plane_kit_interp.Docker.Names.{Hashing, digest, segment}
use control_plane_kit_interp.Docker.Sdk.{Inspection, ImageInspection}
use control_plane_kit_interp.Docker.Sdk.References.{is_hex64}

-- `f"{_LABEL_PREFIX}.{key}"`
abbrev pub label : String → String
label key = append "org.openj92.cpk." key

abbrev pub material_profile : String
material_profile = "node-material.v1"

module _ (h : Hashing) where
  -- `_runtime_labels`
  unfoldable pub runtime_labels : Request → String → Dict String
  unfolding digest
  runtime_labels request runtime_id =
      (label "kind", "runtime-network")
      ∷ (label "workspace", request.workspace_id)
      ∷ (label "runtime", runtime_id)
      ∷ (label "plan", request.plan_id)
      ∷ (label "desired-graph", request.desired_graph_id)
      ∷ (
        label "fingerprint",
        digest h ("runtime" ∷ request.workspace_id ∷ request.desired_graph_id ∷ runtime_id ∷ []),
      )
      ∷ []

  -- The parts that `_node_fingerprint` hashes.
  unfoldable pub fingerprint_parts : Request → Material → List String
  fingerprint_parts request material =
      material_profile
      ∷ request.workspace_id
      ∷ material.node_id
      ∷ material.runtime_id
      ∷ material.product_key
      ∷ material.descriptor_sha256
      ∷ material.image.execution_reference
      ∷ material.contract_repr
      ∷ h.json_list (map (λ (b : Binding). b.descriptor) material.public_environment)
      ∷ h.json_list (map (λ (b : Binding). b.descriptor) material.socket_environment)
      ∷ h.json_list material.authority_descriptors
      ∷ h.repr_tuple (map (λ (a : Artifact). a.content_digest) material.configuration_artifacts)
      ∷ h.repr_tuple (map (λ (m : RetainedMount). m.resource_id) material.retained_data_mounts)
      ∷ elim material.secret_selections [
        | [] ↦ []
        | s ∷ ss ↦ h.json_list material.selection_descriptors ∷ []
      ]

  -- `_node_fingerprint`
  unfoldable pub node_fingerprint : Request → Material → String
  unfolding fingerprint_parts digest
  node_fingerprint request material = digest h (fingerprint_parts request material)

  -- `_node_labels`
  unfoldable pub node_labels : Request → Material → Dict String
  unfolding node_fingerprint
  node_labels request material =
      (label "kind", "container")
      ∷ (label "workspace", request.workspace_id)
      ∷ (label "runtime", material.runtime_id)
      ∷ (label "node", material.node_id)
      ∷ (label "plan", request.plan_id)
      ∷ (label "desired-graph", request.desired_graph_id)
      ∷ (label "product", material.product_key)
      ∷ (label "descriptor", material.descriptor_sha256)
      ∷ (label "image", material.image.digest)
      ∷ (label "material-profile", material_profile)
      ∷ (label "fingerprint", node_fingerprint request material)
      ∷ []

-- `_fingerprint_matches`; the expected labels have a fingerprint
unfoldable pub fingerprint_matches : Dict String → Dict String → Bool
unfolding get
fingerprint_matches observed expected =
    text_eq? (get (label "fingerprint") observed) (get (label "fingerprint") expected)

not_owned : String → Exc
not_owned resource =
    precondition (append "docker." (append resource "-ownership-conflict"))
      (append "Docker " (append resource " is not owned by this runtime effect"))

-- `_require_owned`
unfoldable pub require_owned : Dict String → Dict String → String → Check
unfolding fingerprint_matches not_owned
require_owned observed expected resource =
    require (fingerprint_matches observed expected) (not_owned resource)

-- `_require_label_owner`
unfoldable pub owns : Dict String → Dict String → List String → Bool
unfolding get
owns observed expected ks = all (λ k. text_eq? (get (label k) observed) (get (label k) expected)) ks

unfoldable pub require_label_owner : Dict String → Dict String → String → List String → Check
unfolding owns not_owned segment
require_label_owner observed expected resource ks = require (owns observed expected ks) (
    precondition (append "docker." (append (segment resource) "-ownership-conflict"))
      (append "Docker " (append resource " is not owned by this runtime effect")))

-- `_require_runtime_owner` and `_require_node_owner`
abbrev pub runtime_keys : List String
runtime_keys = "kind" ∷ "workspace" ∷ "runtime" ∷ []

abbrev pub node_keys : List String
node_keys = "kind" ∷ "workspace" ∷ "runtime" ∷ "node" ∷ []

abbrev pub require_runtime_owner : Dict String → Dict String → String → Check
require_runtime_owner observed expected resource =
    require_label_owner observed expected resource runtime_keys

abbrev pub require_node_owner : Dict String → Dict String → String → Check
require_node_owner observed expected resource =
    require_label_owner observed expected resource node_keys

module _ (is_space : Char → Bool) where
  -- `value.strip()` is not empty: it has more than white space, by a test of Python's `str.strip`
  abbrev pub has_text : Option String → Bool
  has_text none = false
  has_text (some value) = not (all_chars is_space value)

  abbrev pub has_hex64 : Option String → Bool
  has_hex64 none = false
  has_hex64 (some value) = is_hex64 value

  -- the test of `_require_node_material_evidence`
  unfoldable pub has_material_evidence : Dict String → Bool
  unfolding get all_chars
  has_material_evidence labels =
      text_eq? (get (label "material-profile") labels) (some material_profile)
      && has_hex64 (get (label "fingerprint") labels)
      && has_text (get (label "plan") labels)
      && has_text (get (label "desired-graph") labels)

  -- `_require_node_material_evidence`
  unfoldable pub require_material_evidence : Dict String → Check
  unfolding has_material_evidence
  require_material_evidence labels = require (has_material_evidence labels) (
      precondition "docker.container-material-evidence-unsupported"
        "Docker container material evidence is unsupported")

-- `_cpk_ownership_labels`
unfoldable pub cpk_ownership_labels : Dict String → Dict String
unfolding filter_keys
cpk_ownership_labels = filter_keys (λ k. starts_with k "org.openj92.cpk.")

-- One of the two replacements of `_node_correlation_labels`: a value that is not empty is hidden.
abbrev pub hide : Bool → String → String → Dict String → Dict String
hide allowed key mark expected =
    if allowed
    then elim (get key expected) [
      | none ↦ expected
      | some value ↦ if value == "" then expected else put key mark expected
    ]
    else expected

-- `_node_correlation_labels`
unfoldable pub node_correlation_labels : Bool → Bool → Dict String → Dict String
unfolding cpk_ownership_labels get put
node_correlation_labels allow_prior_plan allow_prior_graph labels =
    hide allow_prior_graph (label "desired-graph") "<recorded-graph>"
      (hide allow_prior_plan (label "plan") "<recorded-plan>" (cpk_ownership_labels labels))

-- `_require_node_network`
abbrev pub only_network : List String → String → Bool
only_network (n ∷ []) network_name = n == network_name
only_network _ network_name = false

unfoldable pub require_node_network : Inspection → String → Check
require_node_network inspection network_name =
    require (only_network inspection.network_names network_name) (
      precondition "docker.container-network-conflict"
        "Docker container network does not match the intended runtime")

module _ (is_space : Char → Bool) (allow_prior_plan allow_prior_graph : Bool) where
  abbrev pub evidence_if : Bool → Dict String → Check
  evidence_if true labels = require_material_evidence is_space labels
  evidence_if false labels = returned tt

  -- `_require_node_container_correlation`
  unfoldable pub require_container_correlation : Inspection → Dict String → String → Check
  unfolding node_correlation_labels require_material_evidence require_node_network dict_eq
  require_container_correlation inspection labels network_name =
      evidence_if allow_prior_graph inspection.labels
      then require
          (dict_eq (node_correlation_labels allow_prior_plan allow_prior_graph inspection.labels)
            (node_correlation_labels allow_prior_plan allow_prior_graph labels))
          (precondition "docker.container-ownership-conflict"
            "Docker container is not owned by this runtime effect")
      then require_node_network inspection network_name

  -- `_require_start_node_container`
  unfoldable pub require_start_node_container :
      Inspection → Dict String → ImageInspection → String → Bool → Check
  unfolding require_container_correlation
  require_start_node_container inspection labels admitted_image network_name require_running =
      require_container_correlation inspection labels network_name
      then require (text_eq? inspection.image_id (some admitted_image.image_id)) (
          precondition "docker.container-image-conflict"
            "Docker container image does not match the admitted image")
      then require (not require_running || inspection.running)
          (precondition "docker.container-not-running" "Docker container is not running")
