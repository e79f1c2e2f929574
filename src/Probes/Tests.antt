-- ===== src/Probes/Tests.antt =====
-- A public endpoint that probes/security.py authorizes.
use control_plane_kit_interp.Base.{String, List, true, false, [], ◌∷◌, none, some, refl}
use control_plane_kit_interp.Effect.{Eff, pure}
use control_plane_kit_interp.Url.{Split}
use control_plane_kit_interp.Docker.Result.{public}
use control_plane_kit_interp.Probes.Security.{
  Network, AddressPolicy, Observation, Target, literal, authorize_probe_endpoint,
}
use control_plane_kit_interp.Probes.Security.Trusted.{IsTrusted, authorize_probe_endpoint-IsTrusted}

abbrev web_url : Split
web_url = record {
  scheme = "https";
  netloc = "web.test:443";
  path = "";
  query = "";
  fragment = "";
  username = none;
  password = none;
  hostname = some "web.test";
  port = some (some 443);
}

abbrev net : Network
net = record {
  urlsplit = λ text. some web_url;
  ip_address = λ text.
      some (record { version = 4; value = 1; is_global = true; is_loopback = false; text = text });
  decimal = λ n. "443";
  protocol_endpoint_schemes = λ protocol. "https" ∷ [];
  is_exception = λ e. true;
  security_code = λ e. none;
}

abbrev policy : AddressPolicy
policy = record {
  runtime_private_authorities = [];
  public_hosts = "web.test" ∷ [];
  allow_host_local = false;
  allow_plaintext_public_http = false;
}

abbrev endpoint : Observation
endpoint = record {
  subject_id = "web";
  graph_id = "graph";
  socket_name = "http";
  protocol = "http";
  context = public;
  address = literal "https://web.test:443";
}

abbrev resolver : String → Eff (Unit {0}) (List String)
resolver host = pure ("203.0.113.7" ∷ "203.0.113.9" ∷ [])

abbrev target : Target
target = record {
  context = public;
  base_url = "https://203.0.113.7:443";
  connect_host = "203.0.113.7";
  port = 443;
  host_header = some "web.test:443";
  sni_hostname = some "web.test";
}

authorize_probe_endpoint-IsTrusted_example : IsTrusted net policy (some resolver) tt public target
unfolding authorize_probe_endpoint
authorize_probe_endpoint-IsTrusted_example =
    authorize_probe_endpoint-IsTrusted net policy endpoint none (some resolver) tt tt target refl
