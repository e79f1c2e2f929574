-- ===== src/Docker/Tests/World.antt =====
-- A small world for the tests of docker/runtime.py: a daemon with one network and one container, and
-- stand-ins for Python's library and for Core.
use Prim.Native.Char.{code}
use Prim.Native.String.{[] as nil, ◌∷◌ as cons}
use control_plane_kit_interp.Base.{ℕ, String, Bool, true, false, List, [], ◌∷◌, Option, none, some}
use control_plane_kit_interp.Base.Dict.{Dict}
use control_plane_kit_interp.Effect.{pure, raise, returned, raised, control, contract}
use control_plane_kit_interp.Request.{Request, Material, Operation, EffectKind}
use control_plane_kit_interp.Docker.Names.{Hashing}
use control_plane_kit_interp.Docker.Sdk.{Client, Inspection, ImageInspection}
use control_plane_kit_interp.Docker.Endpoints.{Addresses}
use control_plane_kit_interp.Docker.Interpreter.{Interpreter}
use control_plane_kit_interp.Docker.Execute.{Methods}

-- The characters' numbers stand for the encoding.
unfoldable pub codes : String → List ℕ
codes nil = []
codes (cons c s) = code c ∷ codes s

abbrev pub hashing : Hashing
hashing = record {
  utf8 = codes;
  sha256 = λ _. "00ff00ff00ff00ff00ff00ff00ff00ff00ff00ff00ff00ff00ff00ff00ff00ff";
  json_list = λ ts. "[]";
  json_texts = λ ts. "[]";
  repr_tuple = λ ts. "()";
  json_object = λ fields. "{}";
}

abbrev pub addresses : Addresses
addresses = record {
  scheme = λ p. p;
  transport = λ _. "tcp";
  is_ipv6 = λ _. false;
  is_global = λ _. false;
  decimal = λ _. "80";
  sort_bindings = λ bs. bs;
  sort_ports = λ ps. ps;
}

-- The labels of the network and the container, where they are there.
pub record Daemon : Type 0 where
  pub networks : Option (Dict String)
  pub container : Option Inspection

abbrev pub inspection_of : Dict String → String → Bool → Inspection
inspection_of labels net running = record {
  name = "x";
  running = running;
  labels = labels;
  published_ports = [];
  private_addresses = [];
  image_id = some "image";
  network_names = net ∷ [];
  configured_user = none;
  readonly_secret_mounts = [];
  bind_mounts = some [];
  supplementary_groups = some [];
  configured_bind_mounts = some [];
  container_id = some "id";
}

abbrev network_seen : Option (Dict String) → Option Inspection
network_seen none = none
network_seen (some labels) = some (inspection_of labels "" false)

abbrev with_running : Bool → Option Inspection → Option Inspection
with_running b none = none
with_running b (some i) = some (record i { running = b })

abbrev pub reference : String
reference = "docker.io/library/nginx@sha256:ab"

abbrev pub image : ImageInspection
image = record { image_id = "image"; repo_digests = "nginx@sha256:ab" ∷ []; configured_user = none }

abbrev pub client : Client Daemon
client = record {
  uses_local_socket = λ _. pure false;
  inspect_authority_provider_facts = pure none;
  inspect_network = λ name d. (returned (network_seen d.networks), d);
  create_network = λ name labels d. (returned tt, record d { networks = some labels });
  remove_network = λ name d. (returned tt, record d { networks = none });
  inspect_volume = λ _. pure none;
  create_volume = λ _ _. pure tt;
  inspect_image = λ _. pure (some image);
  pull_image = λ _ _. pure tt;
  inspect_container = λ name d. (returned d.container, d);
  create_container = λ spec d. (
    returned (some "id"),
    record d { container = some (inspection_of spec.labels spec.network false) },
  );
  run_container = λ spec d.
      (returned tt, record d { container = some (inspection_of spec.labels spec.network true) });
  start_container = λ _ d. (returned tt, record d { container = with_running true d.container });
  stop_container = λ _ d. (returned tt, record d { container = with_running false d.container });
  remove_container = λ _ d. (returned tt, record d { container = none });
  materialize_configuration_artifact = λ _ _. pure tt;
  configuration_artifact_digest = λ _. pure none;
  materialize_secret_file = λ _ _ _ _. pure tt;
  inspect_secret_file = λ _. pure none;
  inspect_configuration_file = λ _. pure none;
  inspect_configuration_mount = λ _ _. pure none;
  verify_secret_recipient = λ _ _ _ _ _ _. pure tt;
}

abbrev pub interpreter : Interpreter Daemon
interpreter = record {
  hashing = hashing;
  addresses = addresses;
  is_space = λ _. false;
  oci = λ registry repository digest.
      some (record { registry = registry; repository = repository; digest = digest });
  socket_group = none;
  client = client;
  authorized_secret_resolver = none;
  secret_resolver = none;
  image_pull_credentials = none;
  secret_code_text = λ _. "missing";
  pull_intent = "pull";
  parse_credential = λ _. raised contract;
}

abbrev pub methods : Methods Daemon
methods = record {
  admit_intent = λ _. returned tt;
  execute_invoked = λ port request. raise control;
  wait_for_healthy_method = λ _. raise control;
  configuration_node = λ _. raise control;
  cleanup = λ _. raise control;
}

abbrev pub product : Material
product = record {
  node_id = "web";
  runtime_id = "rt";
  product_key = "nginx";
  descriptor_sha256 = "d";
  image = record { execution_reference = reference; digest = "sha256:ab" };
  contract_repr = "{}";
  public_environment = record { name = "MODE"; value = "test"; descriptor = "{}" } ∷ [];
  socket_environment = [];
  authority_descriptors = [];
  configuration_artifacts = [];
  retained_data_mounts = [];
  secret_deliveries = [];
  secret_selections = [];
  selection_descriptors = [];
  provider_ports = [];
  pull_authority = none;
}

abbrev pub request : Operation → List Material → Request
request operation products = record {
  effect_id = "effect";
  workspace_id = "ws";
  plan_id = "plan";
  desired_graph_id = "graph";
  kind = EffectKind.realize_activity;
  is_docker = true;
  operation = operation;
  products = products;
  grants = [];
  authority_deliveries = [];
}

abbrev pub empty : Daemon
empty = record { networks = none; container = none }
