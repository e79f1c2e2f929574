-- ===== src/Docker/Endpoints.antt =====
-- docker/sdk.py: `runtime_endpoint_observations`.
use Prim.Native.String.{◌++◌ as append}
use control_plane_kit_interp.Base.{
  ℕ, String, Bool, ◌&&◌, List, [], ◌∷◌, ◌++◌, ◌==◌, beq, if◌then◌else◌,
}
use control_plane_kit_interp.Request.{ProviderPort}
use control_plane_kit_interp.Docker.Sdk.{PublishedPort}
use control_plane_kit_interp.Docker.Result.{Context, runtime_private, host_local, public, Endpoint}

-- What the module takes from elsewhere: Core's first endpoint scheme and transport of a protocol,
-- the answers of Python's `ipaddress`, the decimal text of a number, and `sorted` by the order of
-- the dataclasses.
pub record Addresses : Type 0 where
  pub scheme : String → String
  pub transport : String → String
  pub is_ipv6 : String → Bool
  pub is_global : String → Bool
  pub decimal : ℕ → String
  pub sort_bindings : List ProviderPort → List ProviderPort
  pub sort_ports : List PublishedPort → List PublishedPort

module _ (net : Addresses) where
  -- `_url_host`, `_endpoint_url`
  abbrev url_host : String → String
  url_host host = if net.is_ipv6 host then append "[" (append host "]") else host

  unfoldable pub endpoint_url : String → String → ℕ → String
  endpoint_url protocol host port =
      append (net.scheme protocol)
        (append "://" (append (url_host host) (append ":" (net.decimal port))))

  abbrev endpoint : String → String → ProviderPort → Context → String → ℕ → Endpoint
  endpoint subject_id graph_id binding context host port = record {
    subject_id = subject_id;
    socket_name = binding.socket_name;
    graph_id = graph_id;
    protocol = binding.protocol;
    context = context;
    address = endpoint_url binding.protocol host port;
  }

  -- The inner loop: what is published of one binding.
  unfoldable pub published_endpoints :
      String → String → ProviderPort → List PublishedPort → List Endpoint
  published_endpoints subject_id graph_id binding [] = []
  published_endpoints subject_id graph_id binding (p ∷ ports) =
      let rest = published_endpoints subject_id graph_id binding ports in
      if beq p.container_port binding.container_port
        && p.transport == net.transport binding.protocol
      then endpoint subject_id graph_id binding
          (if net.is_global p.host_address then public else host_local) p.host_address p.host_port
        ∷ rest
      else rest

  unfoldable pub bound_endpoints :
      String → String → String → List ProviderPort → List PublishedPort → List Endpoint
  unfolding published_endpoints endpoint_url
  bound_endpoints subject_id graph_id private_host [] published = []
  bound_endpoints subject_id graph_id private_host (b ∷ bindings) published =
      endpoint subject_id graph_id b runtime_private private_host b.container_port
      ∷ (published_endpoints subject_id graph_id b (net.sort_ports published)
          ++ bound_endpoints subject_id graph_id private_host bindings published)

  unfoldable pub runtime_endpoint_observations :
      String → String → String → List ProviderPort → List PublishedPort → List Endpoint
  unfolding bound_endpoints
  runtime_endpoint_observations subject_id graph_id private_host provider_ports published =
      bound_endpoints subject_id graph_id private_host (net.sort_bindings provider_ports) published
