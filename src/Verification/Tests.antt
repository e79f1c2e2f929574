-- ===== src/Verification/Tests.antt =====
-- Runs of verification.py against a Redis that answers `+PONG`.
use control_plane_kit_interp.Base.{
  ℕ, zero, suc, ◌≤◌, List, [], ◌∷◌, none, some, refl, true, false, ◌≡◌, arith,
}
use control_plane_kit_interp.Base.Lists.{length}
use control_plane_kit_interp.Effect.{pure, returned}
use control_plane_kit_interp.Url.{Split}
use control_plane_kit_interp.Docker.Result.{host_local}
use control_plane_kit_interp.Probes.Security.{Network, AddressPolicy, literal}
use control_plane_kit_interp.Verification.{
  passed, redis, redis_check, redis_evidence, CheckMaterial, Completed,
}
use control_plane_kit_interp.Verification.Redis.{RedisInterpreter, pong}
use control_plane_kit_interp.Verification.Redis.Ping.{Connection, IsBounded, Ends, ping-Ends}
use control_plane_kit_interp.Verification.Redis.Spent.{IsSettled, execute_redis-IsSettled}

-- The bytes that have come in, of which `recv` gives at most as many as it is asked for.
unfoldable front : ℕ → List ℕ → List ℕ
front zero bytes = []
front (suc n) [] = []
front (suc n) (b ∷ bytes) = b ∷ front n bytes

unfoldable back : ℕ → List ℕ → List ℕ
back zero bytes = bytes
back (suc n) [] = []
back (suc n) (b ∷ bytes) = back n bytes

length-front : (n : ℕ) (bytes : List ℕ) → length (front n bytes) ≤ n
unfolding front
length-front zero bytes = omega arith
length-front (suc n) [] = omega arith
length-front (suc n) (b ∷ bytes) = omega (arith, length-front n bytes)

abbrev connection : Connection (List ℕ)
connection = record {
  send_ping = pure tt;
  recv = λ n bytes. (returned (front n bytes), back n bytes);
  close = pure tt;
}

connection-IsBounded : IsBounded connection
connection-IsBounded = record {
  at = λ n bytes rest chunk h.
      let same : front n bytes ≡ chunk = ground arith in rw (← same) (length-front n bytes);
}

ping-Ends_example : Ends connection 64 connection-IsBounded (some pong)
unfolding control_plane_kit_interp.Verification.Redis.Ping.ping front back
ping-Ends_example = ping-Ends connection 64 connection-IsBounded pong [] (some pong) refl

abbrev redis_url : Split
redis_url = record {
  scheme = "redis";
  netloc = "localhost:6379";
  path = "";
  query = "";
  fragment = "";
  username = none;
  password = none;
  hostname = some "localhost";
  port = some (some 6379);
}

abbrev net : Network
net = record {
  urlsplit = λ text. some redis_url;
  ip_address = λ text. none;
  decimal = λ n. "6379";
  protocol_endpoint_schemes = λ protocol. "redis" ∷ [];
  is_exception = λ e. true;
  security_code = λ e. none;
}

abbrev policy : AddressPolicy
policy = record {
  runtime_private_authorities = [];
  public_hosts = [];
  allow_host_local = true;
  allow_plaintext_public_http = false;
}

-- The world counts the pings: the first one is answered with an error, the second one with `+PONG`.
abbrev interpreter : RedisInterpreter ℕ
interpreter = record {
  net = net;
  policy = policy;
  secret_resolver = none;
  public_resolver = none;
  ping =
      λ host port limit d. (returned (elim d [ zero ↦ b'-' ∷ 13 ∷ 10 ∷ [] | suc n ↦ pong ]), suc d);
  errors = record { is_timeout = λ e. false; is_os_error = λ e. true };
  sleep = pure tt;
}

abbrev material : CheckMaterial
material = record {
  node_id = "cache";
  graph_id = "graph";
  check = record {
    check_id = "ping";
    provider_socket = "redis";
    policy = record { maximum_attempts = 3; maximum_evidence_bytes = 64 };
    kind = redis_check;
  };
  endpoint = record {
    subject_id = "cache";
    graph_id = "graph";
    socket_name = "redis";
    protocol = "redis";
    context = host_local;
    address = literal "redis://localhost:6379";
  };
}

-- The second attempt passes.
abbrev second : Completed
second = record {
  node_id = "cache";
  graph_id = "graph";
  check_id = "ping";
  capability = redis;
  outcome = passed;
  attempts = 2;
  evidence = some (redis_evidence 7);
}

execute_redis-IsSettled_example : IsSettled interpreter material second
unfolding control_plane_kit_interp.Verification.Redis.execute_redis
execute_redis-IsSettled_example =
    execute_redis-IsSettled interpreter material 0 2 second (omega arith) refl
