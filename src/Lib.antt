-- ===== src/Lib.antt =====
-- Verification of control-plane-kit-interpreters: the Docker runtime interpreter with the
-- configuration attempts, their cleanup and the health of nodes, the invocation port, the secret
-- resolution and the client of the secret provider, the verification checks, and the policy of probe
-- addresses. Paths below are relative to src/control_plane_kit_interpreters/.
--
-- The program takes effect requests of the control plane (`RuntimeEffectRequest` of Core, another
-- package) and carries them out: docker/runtime.py turns runtimes into Docker networks and nodes
-- into containers, through the client of docker/sdk.py; secrets.py resolves the secrets of a
-- product; docker/authority.py judges the access of a container to the Docker socket. The checks of
-- verification.py, which `_wait_for_healthy` runs, connect only where probes/security.py allows it.
-- secret_provider/ stores, generates, resolves and revokes the secrets, over HTTP.
--
-- Base      texts, dicts in insertion order, lists and Boolean tests of Python; `Json`, the values
--           that the daemon's answers decode to.
-- Effect    methods that may raise, over an explicit world: a method is a function from the state of
--           the world to a value or an exception and the state after it, so what was done before an
--           exception stays done. `Exc` has the exception classes that handlers tell apart.
-- Request   the values of Core that the interpreter reads; Core's own answers are fields.
-- Invocations  invocations.py: the port that admits a call and records its outcome; `Prepared` is
--           `_PreparedSecretResolver` of secrets.py, which asks for each grant once.
-- Secrets   secrets.py: grants, the three resolutions, the environment and the files.
-- Docker    docker/: `Names` (`_segment`, `_digest`, `_resource_name`), `Labels` (labels,
--           fingerprints, ownership and correlation), `Authority` (docker_authority_conformance and
--           the delivery of the socket), `Sdk` (inspections, failure categories, image references),
--           `Endpoints`, `Interpreter` (the object and shared helpers), `Networks` (the runtime
--           operations), `Images`, `SecretFiles`, `Containers` and `Nodes` (the node operations),
--           `Execute` (the check of the port of `execute`, admission, dispatch and handlers). `Trace`
--           logs the calls of any client, for theorems on what is called. `Tests` runs requests on a small daemon.
--
-- Docker.Configuration  docker/configuration.py and docker/configuration_cleanup.py: names and labels of
--           the volumes, `Attempt` (what an attempt has done, in the state beside the world),
--           `Staging`, `Receipts`, `Evidence` (its results), `Cleanup`; and of docker/runtime.py
--           `Prepare` and `Node` (`_configuration_node`, from the reservation of the largest result
--           to the receipts, and `_execute_configuration_node`). `Sdk.ConfigurationVolumes` has the
--           methods of `DockerSdkClient` that the cleanup calls, over the docker package itself.
-- Docker.Observer  docker/observer.py: `_admit`, `_inspect` and `_observe_acquired`.
--
-- Docker.Health  `_wait_for_healthy` of docker/runtime.py: `Run` has one check with its attempts,
--           `Wait` the loop over the checks of a product.
-- Url       what `urllib.parse.urlsplit` tells of a URL.
-- Probes    probes/security.py: `authorize_probe_endpoint` and `AuthorizedProbeTarget.request_url`.
-- Verification  verification.py and timing.py: the loop over attempts, and `Http`, `Redis` (with
--           `Ping`, the exchange over a socket) and `Postgres`, an interpreter each.
-- SecretProvider  secret_provider/: `Call` (an answer, or an error with its certainty), `Wire` (what
--           is taken from httpx and Python), `Exchange` (`_request_json`), `Metadata` and `Client`
--           (the operations of client.py; `Keys` and `Revocations` have some of them), `Bootstrap`,
--           `Resolver` (resolver.py, custody.py, metadata.py), `Policy` with `Pages` (policy.py).
--           `Base64` is Python's base64. `Trace` logs what any wire was sent and how it answered.
--
-- The docker package, Core, hashlib, json and ipaddress are parameters: `Client`, `Volumes`,
-- `Hashing`, `Addresses`, `Core` of `Evidence`, and fields of `Interpreter`; httpx, sockets, psycopg,
-- urllib and the codecs of Python are `Wire`, `Python`, `Network`, `Connection` and fields of the
-- interpreters of checks. The client's state type is arbitrary, so that theorems without a hypothesis
-- on it hold whatever the daemon does between two calls. Loops run over a list of the request or over
-- the number of attempts of a policy. Only the loop of `ping` has fuel: `limit + 2` rounds, since a
-- round that goes on has read one byte more and is at most at the bound. Texts have no surrogates.
--
-- Not modelled: `execute_with_authority` and the invoked forms of `execute`. In `Execute`
-- `_execute_invoked` with a port, the wait for healthy nodes, the configuration path and the cleanup
-- are methods of `Execute.Methods`; `Docker.Health` and `Docker.Configuration` model the last three
-- on their own. The interpreter holds no port of its own there. Not modelled either: the parsing of a
-- pull credential; the other methods of `DockerSdkClient`, which call the docker package; the times
-- of a policy, which are floats, and the pauses; the package cloudflare/; the modules of probes/
-- other than security.py; recovery_metadata.py and the connector modules of docker/; and of
-- observer.py the acquisition of a client and the classes of provider errors.
mod Base
pub mod Effect
pub mod Url
pub mod Request
pub mod Invocations
pub mod Secrets
pub mod Docker
pub mod SecretProvider
pub mod Probes
pub mod Verification
