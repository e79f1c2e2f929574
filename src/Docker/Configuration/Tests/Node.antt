-- ===== src/Docker/Configuration/Tests/Node.antt =====
-- Configuration attempts at concrete values, on the small daemon of the other tests.
use control_plane_kit_interp.Base.{
  String, true, false, ◌≡◌, refl, List, [], ◌∷◌, Option, none, some,
}
use control_plane_kit_interp.Base.Json.{null}
use control_plane_kit_interp.Base.Lists.{Any}
use control_plane_kit_interp.Effect.{Outcome, returned, raised, raise, pure, control}
use control_plane_kit_interp.Effect.Logged.{Always}
use control_plane_kit_interp.Request.{Request, Artifact, start_node}
use control_plane_kit_interp.Docker.Sdk.{Client, Inspection, FileInspection}
use control_plane_kit_interp.Docker.Interpreter.{Interpreter}
use control_plane_kit_interp.Docker.Nodes
use control_plane_kit_interp.Docker.Result.{failed}
use control_plane_kit_interp.Docker.Authority.{DeliveryMaterial}
use control_plane_kit_interp.Secrets.{nothing}
use control_plane_kit_interp.Docker.Trace.{Log, traced}
use control_plane_kit_interp.Docker.Configuration.{Instance, configuration_volume_labels}
use control_plane_kit_interp.Docker.Configuration.Attempt.{
  Attempt, Correlation, new_attempt, created,
}
use control_plane_kit_interp.Docker.Configuration.Staging.{stage_configuration}
use control_plane_kit_interp.Docker.Configuration.Staging.Indices.{
  Records, stage_configuration-Records,
}
use control_plane_kit_interp.Docker.Configuration.Staging.Written.{
  Allows, IsEmptyVolume, stage_configuration-writes_empty,
}
use control_plane_kit_interp.Docker.Configuration.Receipts.{
  IsKnown, fingerprint_of, incarnation_fields-eq-returned,
}
use control_plane_kit_interp.Docker.Configuration.Evidence.{AttemptResult, Core}
use control_plane_kit_interp.Docker.Configuration.Node.Execute.{verify}
use control_plane_kit_interp.Docker.Configuration.Node.Replaced.{
  IsSame, IsRecorded, removal, remove_earlier-IsSame,
}
use control_plane_kit_interp.Docker.Configuration.Node.Verified.{IsVerified, verify-IsVerified}
use control_plane_kit_interp.Docker.Configuration.Tests.{settings}
use control_plane_kit_interp.Docker.Tests.World.{
  hashing, client, interpreter, request, product, image, empty, Daemon, inspection_of,
}

abbrev artifact : Artifact
artifact = record {
  artifact_id = "settings";
  content_digest = "d";
  target_path = "/etc/settings";
  file_mode = "0444";
}

abbrev file : FileInspection
file = record { content_digest = "d"; mode = 292; regular_file = true }

-- There is a file once something was written, which the networks of the daemon stand for.
abbrev file_seen : Option (List (String × String)) → Option FileInspection
file_seen none = none
file_seen (some _) = some file

abbrev staging_client : Client Daemon
staging_client = record client {
  inspect_volume =
      λ name. pure (some (inspection_of (configuration_volume_labels hashing settings) "" false));
  materialize_configuration_artifact =
      λ volume artifact d. (returned tt, record d { networks = some [] });
  inspect_configuration_file = λ volume d. (returned (file_seen d.networks), d);
}

abbrev selected : List Instance
selected = settings ∷ []

stage_configuration-Records_example :
    Records selected
      (stage_configuration hashing staging_client
        (artifact ∷ [])
        selected
        (empty, new_attempt none none)).0
      (stage_configuration hashing staging_client
        (artifact ∷ [])
        selected
        (empty, new_attempt none none)).1.1
stage_configuration-Records_example =
    stage_configuration-Records hashing staging_client (artifact ∷ []) selected empty none none

stage_configuration-writes_empty_example :
    Always
      (Allows (λ name past. Any (λ reference. IsEmptyVolume hashing reference name past) selected))
      (stage_configuration hashing
        (traced staging_client)
        (artifact ∷ [])
        selected
        ((empty, []), new_attempt none none)).1.0.1
stage_configuration-writes_empty_example =
    stage_configuration-writes_empty hashing staging_client (artifact ∷ []) selected empty
      (new_attempt none none)

abbrev identity : String
identity = "00ff00ff00ff00ff00ff00ff00ff00ff00ff00ff00ff00ff00ff00ff00ff00ff"

abbrev finished : Attempt
finished = record (new_attempt none none) { container_id = some identity }

incarnation_fields-eq-returned_example :
    (finished.unknown_created_resource ≡ false)
    × IsKnown hashing created finished.container_id finished.old_container_id finished.old_removed
        none
        (fingerprint_of hashing identity)
unfolding control_plane_kit_interp.Docker.Configuration.Receipts.incarnation_fields
    control_plane_kit_interp.Docker.Sdk.References.is_hex64
incarnation_fields-eq-returned_example =
    incarnation_fields-eq-returned hashing finished created none (fingerprint_of hashing identity)
      refl

abbrev correlation : Correlation
correlation = record { request_fingerprint = "r"; selection_fingerprint = "s" }

abbrev core : Core
core = record {
  invocation_correlation = λ _. returned correlation;
  secret_installation_correlation = λ _. returned correlation;
  instances = λ _. selected;
  completion = λ _. null;
  installation_receipt = λ _ _. null;
  secret_resolution_receipt = λ _. null;
  secret_installation_receipt = λ _ _. null;
  check_result = λ _. returned tt;
  sorted_set = λ names. names;
  equal_inspections = λ one two. true;
}

abbrev starting : Request
starting = request start_node (product ∷ [])

abbrev controlled : Interpreter Daemon
controlled = record interpreter {
  client = record client { inspect_container = λ _. raise control };
}

abbrev earlier : Inspection
earlier = inspection_of [] "net" true

abbrev with_earlier : Daemon
with_earlier = record empty { container = some earlier }

abbrev before_removal : (Daemon × Log) × Attempt
before_removal = ((with_earlier, []), new_attempt none none)

remove_earlier-IsSame_example :
    Always
      (IsSame core earlier "id")
      (removal interpreter core starting product earlier "id" false before_removal).1.0.1
    × IsRecorded "id"
        (removal interpreter core starting product earlier "id" false before_removal).0
        (removal interpreter core starting product earlier "id" false
          before_removal).1.1.old_removed
        (removal interpreter core starting product earlier "id" false before_removal).1.0.1
remove_earlier-IsSame_example =
    remove_earlier-IsSame interpreter core starting product earlier "id" false with_earlier []
      (new_attempt none none) refl tt

abbrev running : Daemon
running = record empty {
  container = some (
      inspection_of (Nodes.labels_of interpreter starting product)
        (Nodes.network_of interpreter starting product) true);
}

abbrev no_authority : DeliveryMaterial
no_authority = record { mounts = []; supplementary_groups = [] }

abbrev verified : Outcome AttemptResult × (Daemon × Attempt)
verified =
    verify interpreter core starting product false none none no_authority image nothing 0 "id" []
      (running, record finished { container_id = some identity })

abbrev result_of : Outcome AttemptResult → AttemptResult
result_of (returned result) = result
result_of (raised e) = record {
  effect_id = "";
  kind = failed;
  evidence = [];
  failure = none;
  observations = [];
}

verify-IsVerified_example :
    (found : Option Inspection) × ((client.inspect_container "id" running).0 ≡ returned found)
    × IsVerified interpreter core starting product false none no_authority image "id" [] found
unfolding verify control_plane_kit_interp.Docker.Labels.require_start_node_container
    control_plane_kit_interp.Docker.Labels.node_labels
    control_plane_kit_interp.Docker.Names.network_name
    control_plane_kit_interp.Docker.Authority.require_container_authority
    control_plane_kit_interp.Docker.Configuration.Staging.installed_configuration_matches
    control_plane_kit_interp.Docker.Interpreter.private_host_for_runtime
    control_plane_kit_interp.Docker.Configuration.Evidence.secret_installation_evidence
    control_plane_kit_interp.Docker.Configuration.Evidence.configuration_receipt
    control_plane_kit_interp.Docker.Configuration.Evidence.attempt_result
verify-IsVerified_example =
    verify-IsVerified interpreter core starting product false none no_authority image "id" [] none
      nothing 0 (result_of verified.0) (running, record finished { container_id = some identity })
      verified.1 refl
