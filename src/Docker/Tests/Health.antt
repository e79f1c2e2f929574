-- ===== src/Docker/Tests/Health.antt =====
-- A product with one HTTP check on an endpoint of its host, which `_wait_for_healthy` finds healthy.
use control_plane_kit_interp.Base.{arith, [], ◌∷◌, none, some, refl, true, false, ◌≡◌}
use control_plane_kit_interp.Base.Lists.{length}
use control_plane_kit_interp.Effect.{pure, raise, control}
use control_plane_kit_interp.Request.{Request, Material, wait_for_healthy}
use control_plane_kit_interp.Docker.Result.{runtime_private, host_local, succeeded}
use control_plane_kit_interp.Docker.Health.{Healing, HealthResult, Child, probe_completed}
use control_plane_kit_interp.Url.{Split}
use control_plane_kit_interp.Docker.Health.Run.{has_passed}
use control_plane_kit_interp.Docker.Health.Run.Refused.{http_health_check-refused}
use control_plane_kit_interp.Docker.Health.Wait.Passed.{ArePassed, wait_for_healthy-succeeded}
use control_plane_kit_interp.Docker.Tests.World.{Daemon, interpreter, product, request, empty}
use control_plane_kit_interp.Probes.Security.{Network, Observation, literal}
use control_plane_kit_interp.Verification.{
  CheckResult, completed, rejected, Check, http_check, http, passed, http_evidence,
}
use control_plane_kit_interp.Verification.Http.{responded, no_response, http_timeout}

abbrev net : Network
net = record {
  urlsplit = λ text. none;
  ip_address = λ text. none;
  decimal = λ n. "80";
  protocol_endpoint_schemes = λ protocol. [];
  is_exception = λ e. true;
  security_code = λ e. none;
}

abbrev check : Check
check = record {
  check_id = "alive";
  provider_socket = "http";
  policy = record { maximum_attempts = 2; maximum_evidence_bytes = 1024 };
  kind = http_check "/alive" (200 ∷ []) none;
}

abbrev healing : Healing Daemon
healing = record {
  interpreter = interpreter;
  checks_of = λ material. check ∷ [];
  net = net;
  classes = record { is_cancelled = λ e. false; is_exception = λ e. true };
  errors = record { is_timeout = λ e. false; is_os_error = λ e. true };
  sleep = pure tt;
  security_error = λ code. control;
  http_get = λ url header name d. (no_response http_timeout, d);
  select_one = λ target database username password. raise control;
  require_authorized = none;
  require_resolved = none;
  permits_password = λ grant password. false;
  postgres_password = "postgres";
  run_http_probe = λ network url limit digest. pure (record {
    status_code = some 200;
    response_size = 2;
    classification = probe_completed;
    body_sha256_matches = none;
  });
}

abbrev endpoint : Observation
endpoint = record {
  subject_id = "web";
  graph_id = "graph";
  socket_name = "http";
  protocol = "http";
  context = runtime_private;
  address = literal "http://web:80";
}

abbrev waiting : Request
waiting = request wait_for_healthy (product ∷ [])

abbrev healthy : HealthResult
healthy = record {
  effect_id = "effect";
  kind = succeeded;
  evidence = ("action", "verified-healthy") ∷ ("node_id", "web") ∷ [];
  failure = none;
  checks = [];
  observations =
      record {
        node_id = "web";
        graph_id = "graph";
        check_id = "alive";
        capability = http;
        outcome = passed;
        attempts = 1;
        evidence = some (http_evidence 200 2 none none);
      }
      ∷ [];
}

wait_for_healthy-succeeded_example :
    (material : Material) × (waiting.products ≡ material ∷ [])
    × ArePassed healthy.observations healthy.checks (length (healing.checks_of material))
unfolding control_plane_kit_interp.Docker.Health.Wait.wait_for_healthy
wait_for_healthy-succeeded_example =
    wait_for_healthy-succeeded healing waiting (some (endpoint ∷ [])) none empty empty healthy refl
      refl

-- The same product with an endpoint on the loopback address of the host, whose address is well formed.
abbrev local_url : Split
local_url = record {
  scheme = "http";
  netloc = "localhost:80";
  path = "";
  query = "";
  fragment = "";
  username = none;
  password = none;
  hostname = some "localhost";
  port = some (some 80);
}

abbrev answering : Healing Daemon
answering = record healing {
  net = record net {
    urlsplit = λ text. some local_url;
    protocol_endpoint_schemes = λ protocol. "http" ∷ [];
  };
  http_get = λ url header name d.
      (responded (record { status = 200; chunk_sizes = []; broken_after = none }), d);
}

abbrev local_endpoint : Observation
local_endpoint = record endpoint { context = host_local; address = literal "http://localhost:80" }

-- The last of its two attempts was rejected.
abbrev refused : CheckResult
refused = completed (record {
  node_id = "web";
  graph_id = "graph";
  check_id = "alive";
  capability = http;
  outcome = rejected;
  attempts = 2;
  evidence = none;
})

http_health_check-refused_example : has_passed refused ≡ false
unfolding control_plane_kit_interp.Docker.Health.Run.http_health_check
http_health_check-refused_example =
    http_health_check-refused answering product waiting check local_endpoint "http://localhost:80"
      "/alive" (200 ∷ []) none empty empty refused (λ e. ground arith) refl
