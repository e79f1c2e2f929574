-- ===== src/Docker/Trace.antt =====
-- The calls that an interpreter makes: any client, with a log of what it was asked and, for the
-- inspections of containers and networks, what it answered. The newest call stands first.
use control_plane_kit_interp.Base.{String, List, Option, none, some}
use control_plane_kit_interp.Effect.{Eff, Outcome, returned, raised}
use control_plane_kit_interp.Effect.Logged.{logged, unlogged, observed}
use control_plane_kit_interp.Request.{LegacyResolver, AuthorizedResolver, Reference}
use control_plane_kit_interp.Docker.Sdk.{
  Client, Inspection, FileInspection, ImageInspection, ContainerSpec,
}
use control_plane_kit_interp.Docker.Interpreter.{Interpreter, PullCredential}

pub data Event : Type 0 where
  -- an inspection that returned, with its answer
  saw_container saw_network saw_volume : String → Option Inspection → Event
  saw_file : String → Option FileInspection → Event
  saw_image : String → Option ImageInspection → Event
  -- a call that changes the daemon, whether it returned or raised
  network_created network_removed volume_created image_pulled : String → Event
  container_created container_run : ContainerSpec → Event
  container_started container_stopped container_removed : String → Event
  volume_written : String → Event
  -- a call that reads a volume through a helper container, which it creates and removes
  helped : String → Event
  -- a call that copies files out of a container
  copied_out : String → Event
  -- a question that changes nothing, and an inspection that raised
  asked : Event

abbrev pub Log : Type 0
Log = List Event

module _ {A : Type 0} where
  abbrev pub answered : (A → Event) → Outcome A → Event
  answered event (returned a) = event a
  answered event (raised e) = asked

abbrev answered_by_helper : String → Outcome (Option FileInspection) → Event
answered_by_helper volume (returned found) = saw_file volume found
answered_by_helper volume (raised e) = helped volume

module _ {D : Type 0} where
  abbrev pub traced : Client D → Client (D × Log)
  traced c = record {
    uses_local_socket = λ path. logged asked (c.uses_local_socket path);
    inspect_authority_provider_facts = logged asked c.inspect_authority_provider_facts;
    inspect_network = λ name. observed (answered (saw_network name)) (c.inspect_network name);
    create_network = λ name labels. logged (network_created name) (c.create_network name labels);
    remove_network = λ name. logged (network_removed name) (c.remove_network name);
    inspect_volume = λ name. observed (answered (saw_volume name)) (c.inspect_volume name);
    create_volume = λ name labels. logged (volume_created name) (c.create_volume name labels);
    inspect_image = λ name. observed (answered (saw_image name)) (c.inspect_image name);
    pull_image = λ name auth. logged (image_pulled name) (c.pull_image name auth);
    inspect_container = λ name. observed (answered (saw_container name)) (c.inspect_container name);
    create_container = λ spec. logged (container_created spec) (c.create_container spec);
    run_container = λ spec. logged (container_run spec) (c.run_container spec);
    start_container = λ name. logged (container_started name) (c.start_container name);
    stop_container = λ name. logged (container_stopped name) (c.stop_container name);
    remove_container = λ name. logged (container_removed name) (c.remove_container name);
    materialize_configuration_artifact = λ volume artifact.
        logged (volume_written volume) (c.materialize_configuration_artifact volume artifact);
    configuration_artifact_digest =
        λ volume. logged (helped volume) (c.configuration_artifact_digest volume);
    materialize_secret_file = λ volume value mode owner.
        logged (volume_written volume) (c.materialize_secret_file volume value mode owner);
    inspect_secret_file = λ volume. logged (helped volume) (c.inspect_secret_file volume);
    inspect_configuration_file =
        λ volume. observed (answered_by_helper volume) (c.inspect_configuration_file volume);
    inspect_configuration_mount = λ identity mount.
        logged (copied_out identity) (c.inspect_configuration_mount identity mount);
    verify_secret_recipient = λ identity environment mounts files image owner.
        logged (copied_out identity)
          (c.verify_secret_recipient identity environment mounts files image owner);
  }

  abbrev traced_legacy : Option (LegacyResolver D) → Option (LegacyResolver (D × Log))
  traced_legacy none = none
  traced_legacy (some r) =
      some (record { require_resolved = λ reference. unlogged (r.require_resolved reference) })

  abbrev traced_authorized : Option (AuthorizedResolver D) → Option (AuthorizedResolver (D × Log))
  traced_authorized none = none
  traced_authorized (some r) = some (record {
    require_authorized = λ grant. unlogged (r.require_authorized grant);
    resolve = λ grant. unlogged (r.resolve grant);
  })

  abbrev traced_pull :
      Option (Reference → Eff D PullCredential) → Option (Reference → Eff (D × Log) PullCredential)
  traced_pull none = none
  traced_pull (some resolve) = some (λ reference. unlogged (resolve reference))

  -- The interpreter over the traced client.
  abbrev pub traced_interpreter : Interpreter D → Interpreter (D × Log)
  traced_interpreter self = record {
    hashing = self.hashing;
    addresses = self.addresses;
    is_space = self.is_space;
    oci = self.oci;
    socket_group = self.socket_group;
    client = traced self.client;
    authorized_secret_resolver = traced_authorized self.authorized_secret_resolver;
    secret_resolver = traced_legacy self.secret_resolver;
    image_pull_credentials = traced_pull self.image_pull_credentials;
    secret_code_text = self.secret_code_text;
    pull_intent = self.pull_intent;
    parse_credential = self.parse_credential;
  }
