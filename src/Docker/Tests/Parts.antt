-- ===== src/Docker/Tests/Parts.antt =====
-- The parts of docker/runtime.py and of secrets.py at concrete values.
use Prim.Native.Char.{code}
use Prim.Native.String.{[] as nil, ◌∷◌ as cons}
use text.Mathlib.Text.{starts_with}
use text.Mathlib.TextEquality.{Char-path}
use control_plane_kit_interp.Base.{
  ◌==◌, String, true, ◌≡◌, ◌≢◌, ◌⊎◌, ◌↔◌, refl, arith, List, [], ◌∷◌, none, some,
}
use control_plane_kit_interp.Base.Lists.{All, Any}
use control_plane_kit_interp.Base.Text.{all_chars}
use control_plane_kit_interp.Base.Dict.{Dict, get, dict_eq}
use control_plane_kit_interp.Effect.{raise, Eff, pure, Outcome, returned, raised, contract}
use control_plane_kit_interp.Request.{
  AuthorizedResolver, Grant, operational, versioned, Delivery, environment_delivery,
  reference_delivery, file_delivery,
}
use control_plane_kit_interp.Secrets.{
  Deliveries, deliver_all, nothing, permits, resolve_authorized_secret_deliveries,
}
use control_plane_kit_interp.Secrets.Grants.{resolve_authorized_secret_deliveries-agree}
use control_plane_kit_interp.Secrets.Environment.{IsDelivered, IsGrown, deliver_all-IsDelivered}
use control_plane_kit_interp.Docker.Names.{resource_name, preimage, Hashing}
use control_plane_kit_interp.Docker.Names.Valid.{IsDockerName, resource_name-IsDockerName}
use control_plane_kit_interp.Docker.Names.Preimage.{IsUtf8, IsZeroFree, preimage-injective}
use control_plane_kit_interp.Docker.Labels.{node_correlation_labels, label}
use control_plane_kit_interp.Docker.Labels.Correlation.{Agrees, may_differ, correlation_iff}
use control_plane_kit_interp.Docker.Sdk.{Inspection}
use control_plane_kit_interp.Docker.Authority.{DeliveryMaterial, docker_authority_conformance}
use control_plane_kit_interp.Docker.Authority.Meaning.{
  IsExact, IsDesktop, docker_authority_conformance_sound,
}
use control_plane_kit_interp.Docker.Containers.{container_environment}
use control_plane_kit_interp.Docker.Containers.Environment.{
  HasPart, container_environment_cases, binding_conflict,
}
use control_plane_kit_interp.Docker.Images.{admit_start_node_image}
use control_plane_kit_interp.Docker.Images.Admitted.{
  Spells, InspectedAs, admit_start_node_image-eq-returned,
}
use control_plane_kit_interp.Docker.Tests.World.{
  hashing, codes, client, interpreter, product, image, empty, Daemon, inspection_of,
}

codes-injective : (s t : String) → codes s ≡ codes t → s ≡ t
unfolding codes
codes-injective nil nil h = refl
codes-injective nil (cons d t) h = cc
codes-injective (cons c s) nil h = cc
codes-injective (cons c s) (cons d t) h =
    let same : code c ≡ code d = cc in
    let rest : codes s ≡ codes t = cc in cc (Char-path c d same, codes-injective s t rest)

codes-zero_free : (s : String) → IsZeroFree s → All (λ n. n ≢ 0) (codes s)
unfolding codes all_chars
codes-zero_free nil h = tt
codes-zero_free (cons c s) h = (λ e. ground arith, codes-zero_free s (ground arith))

hashing-IsUtf8 : IsUtf8 hashing
hashing-IsUtf8 = record { injective = codes-injective; zero_free = codes-zero_free }

abbrev identity : List String
identity = "node" ∷ "web" ∷ []

preimage-injective_example : identity ≡ identity
unfolding all_chars
preimage-injective_example =
    preimage-injective hashing hashing-IsUtf8 identity identity (refl, (refl, tt))
      (refl, (refl, tt)) refl

resource_name-IsDockerName_example :
    IsDockerName (resource_name hashing "node" ("My Workspace" ∷ "web" ∷ []))
unfolding all_chars control_plane_kit_interp.Docker.Names.Valid.is_hex_digit
resource_name-IsDockerName_example =
    resource_name-IsDockerName hashing (λ bytes. refl) "node" ("My Workspace" ∷ "web" ∷ [])

-- Labels of a container of an earlier plan, and of the request.
abbrev earlier : Dict String
earlier = (label "kind", "container") ∷ (label "plan", "plan-1") ∷ []

abbrev wanted : Dict String
wanted = (label "plan", "plan-2") ∷ (label "kind", "container") ∷ []

correlation_iff_example :
    (dict_eq (node_correlation_labels true true earlier) (node_correlation_labels true true wanted)
      ≡ true)
    ↔ ((k : String)
        → starts_with k "org.openj92.cpk." ≡ true
        → Agrees (may_differ true true k) (get k earlier) (get k wanted))
correlation_iff_example = correlation_iff true true earlier wanted

abbrev plain_container : Inspection
plain_container = inspection_of [] "net" true

abbrev no_authority : DeliveryMaterial
no_authority = record { mounts = []; supplementary_groups = [] }

docker_authority_conformance_sound_example :
    IsExact plain_container no_authority ⊎ IsDesktop client plain_container no_authority empty
unfolding docker_authority_conformance
docker_authority_conformance_sound_example =
    docker_authority_conformance_sound client plain_container no_authority empty refl

admit_start_node_image-eq-returned_example :
    Any (Spells interpreter.oci product.image.execution_reference) image.repo_digests
    × InspectedAs interpreter product.image.execution_reference image empty
unfolding admit_start_node_image
    control_plane_kit_interp.Docker.Sdk.References.matches_image_reference
admit_start_node_image-eq-returned_example =
    admit_start_node_image-eq-returned interpreter product none image empty empty refl

abbrev secrets : List Delivery
secrets =
    environment_delivery "TOKEN" "token" "read"
    ∷ reference_delivery "TOKEN_REF" "token"
    ∷ file_delivery "/run/key" "key" "read" "0400" (some "KEY_PATH")
    ∷ []

abbrev resolve : String → String → Eff Daemon String
resolve reference intent = pure "value"

abbrev deliveries_of : Outcome Deliveries → Deliveries
deliveries_of (returned acc) = acc
deliveries_of (raised e) = nothing

abbrev delivered : Deliveries
delivered = deliveries_of (deliver_all resolve nothing secrets empty).0

deliver_all-IsDelivered_example :
    IsGrown nothing delivered × All (IsDelivered resolve delivered) secrets
unfolding deliver_all control_plane_kit_interp.Secrets.deliver
deliver_all-IsDelivered_example =
    deliver_all-IsDelivered resolve nothing delivered secrets empty empty refl

-- Two parts that share a variable with the same value.
abbrev parts : List (Dict String)
parts = (("MODE", "test") ∷ ("A", "1") ∷ []) ∷ (("MODE", "test") ∷ ("B", "2") ∷ []) ∷ []

container_environment_cases_example :
    ((values : Dict String) × (container_environment parts ≡ returned values)
      × All (HasPart values) parts)
    ⊎ ((container_environment parts ≡ raised binding_conflict)
        × (¬ ((values : Dict String) × All (HasPart values) parts)))
container_environment_cases_example = container_environment_cases parts

-- A resolver that answers every grant, and one that refuses the grants of selections.
abbrev generous : AuthorizedResolver Daemon
generous = record { require_authorized = λ g. pure "value"; resolve = λ g. raise contract }

abbrev by_grant : Grant → Eff Daemon String
by_grant (operational name allowed) = pure "value"
by_grant (versioned name selection) = raise contract

abbrev careful : AuthorizedResolver Daemon
careful = record { require_authorized = by_grant; resolve = λ g. raise contract }

abbrev token_grants : List Grant
token_grants = operational "g" (λ reference intent. reference == "token") ∷ []

agree_if_permitted :
    (reference intent : String) (g : Grant)
    → permits reference intent g ≡ true
    → pure "value" ≡ by_grant g
agree_if_permitted reference intent (operational name allowed) h = refl
agree_if_permitted reference intent (versioned name selection) h = absurd cc

resolve_authorized_secret_deliveries-agree_example :
    resolve_authorized_secret_deliveries secrets token_grants generous
    ≡ resolve_authorized_secret_deliveries secrets token_grants careful
resolve_authorized_secret_deliveries-agree_example =
    resolve_authorized_secret_deliveries-agree token_grants generous careful secrets
      (agree_if_permitted "token" "read", (tt, (agree_if_permitted "key" "read", tt)))
