-- ===== src/Docker/Tests/Runs.antt =====
-- Runs of whole requests of docker/runtime.py on a small daemon.
use control_plane_kit_interp.Base.{true, false, ◌≡◌, refl, [], ◌∷◌, some}
use control_plane_kit_interp.Effect.{Outcome, returned, raised}
use control_plane_kit_interp.Request.{
  Request, start_node, reconcile_node, start_runtime, wait_for_healthy, remove_node_resource,
  stop_node, remove_runtime_resource,
}
use control_plane_kit_interp.Docker.Result.{Result, unsupported_result}
use control_plane_kit_interp.Docker.Nodes
use control_plane_kit_interp.Docker.Networks
use control_plane_kit_interp.Docker.Names.{network_name}
use control_plane_kit_interp.Docker.Labels.{runtime_labels}
use control_plane_kit_interp.Docker.Trace.{traced_interpreter}
use control_plane_kit_interp.Docker.Nodes.Started.{
  ProductRuns, start_node-ProductRuns, reconcile_node-ProductRuns,
}
use control_plane_kit_interp.Docker.Nodes.Removal.{
  IsRespectful, remove_node-IsRespectful, stop_node-IsRespectful,
}
use control_plane_kit_interp.Docker.Networks.Outcomes.{
  SparesNetworks, remove_runtime-SparesNetworks, IsLawful, start_runtime-again,
}
use control_plane_kit_interp.Invocations.{PortValue, no_port}
use control_plane_kit_interp.Docker.Execute.{execute, attempt}
use control_plane_kit_interp.Docker.Execute.Handlers.{execute-succeeded}
use control_plane_kit_interp.Docker.Tests.World.{
  interpreter, methods, client, request, product, empty, Daemon, inspection_of,
}

abbrev starting : Request
starting = request start_node (product ∷ [])

abbrev reconciling : Request
reconciling = request reconcile_node (product ∷ [])

abbrev waiting : Request
waiting = request wait_for_healthy []

abbrev removing : Request
removing = request remove_node_resource (product ∷ [])

abbrev stopping : Request
stopping = request stop_node (product ∷ [])

abbrev networking : Request
networking = request (start_runtime (some "rt")) []

abbrev unnetworking : Request
unnetworking = request (remove_runtime_resource (some "rt")) []

-- The result of a run that returned.
abbrev answer : Outcome Result → Result
answer (returned r) = r
answer (raised e) = unsupported_result starting "none"

abbrev first_run : Outcome Result × Daemon
first_run = Nodes.start_node interpreter starting empty

start_node-ProductRuns_example :
    ProductRuns interpreter starting false empty (answer first_run.0) first_run.1
unfolding Nodes.start_node control_plane_kit_interp.Docker.Interpreter.single_product
    control_plane_kit_interp.Docker.Authority.authority_delivery_material
    control_plane_kit_interp.Docker.Interpreter.start_node_provider_call
    Nodes.resolve_product_secret_deliveries
    control_plane_kit_interp.Secrets.resolve_secret_deliveries
    control_plane_kit_interp.Docker.Images.image_pull_auth_config
    control_plane_kit_interp.Docker.Images.admit_start_node_image
    control_plane_kit_interp.Docker.Sdk.References.matches_image_reference
    control_plane_kit_interp.Docker.SecretFiles.preflight_secret_files Nodes.start_or_create
    control_plane_kit_interp.Docker.Containers.prepare_node_container Nodes.confirm
    control_plane_kit_interp.Docker.Labels.require_start_node_container
    control_plane_kit_interp.Docker.Labels.node_labels network_name
    control_plane_kit_interp.Docker.Authority.require_container_authority
start_node-ProductRuns_example =
    start_node-ProductRuns interpreter starting (answer first_run.0) empty first_run.1 refl

abbrev second_run : Outcome Result × Daemon
second_run = Nodes.reconcile_node interpreter reconciling empty

reconcile_node-ProductRuns_example :
    ProductRuns interpreter reconciling true empty (answer second_run.0) second_run.1
unfolding Nodes.reconcile_node control_plane_kit_interp.Docker.Interpreter.single_product
    control_plane_kit_interp.Docker.Authority.authority_delivery_material Nodes.check_reconcilable
    Nodes.resolve_product_secret_deliveries
    control_plane_kit_interp.Secrets.resolve_secret_deliveries
    control_plane_kit_interp.Docker.Images.image_pull_auth_config
    control_plane_kit_interp.Docker.Images.admit_start_node_image
    control_plane_kit_interp.Docker.Sdk.References.matches_image_reference
    control_plane_kit_interp.Docker.SecretFiles.preflight_secret_files Nodes.converge
    control_plane_kit_interp.Docker.Containers.create_node_container
    control_plane_kit_interp.Docker.Containers.prepare_node_container Nodes.confirm
    control_plane_kit_interp.Docker.Labels.require_start_node_container
    control_plane_kit_interp.Docker.Labels.node_labels network_name
    control_plane_kit_interp.Docker.Authority.require_container_authority
    control_plane_kit_interp.Docker.Sdk.References.is_hex64
reconcile_node-ProductRuns_example =
    reconcile_node-ProductRuns interpreter reconciling (answer second_run.0) empty second_run.1 refl

abbrev without_port : PortValue Daemon
without_port = no_port

abbrev network_run : Outcome Result × Daemon
network_run = execute interpreter methods false no_port networking empty

execute-succeeded_example :
    attempt interpreter methods networking empty ≡ (returned (answer network_run.0), network_run.1)
unfolding execute Networks.start_runtime
execute-succeeded_example =
    execute-succeeded interpreter methods networking empty false (answer network_run.0)
      network_run.1 refl refl

remove_node-IsRespectful_example :
    IsRespectful
      (Nodes.container_of interpreter removing product)
      (Nodes.labels_of interpreter removing product)
      (Nodes.remove_node (traced_interpreter interpreter) removing (first_run.1, [])).1.1
remove_node-IsRespectful_example =
    remove_node-IsRespectful interpreter removing product first_run.1 refl

stop_node-IsRespectful_example :
    IsRespectful
      (Nodes.container_of interpreter stopping product)
      (Nodes.labels_of interpreter stopping product)
      (Nodes.stop_node (traced_interpreter interpreter) stopping (first_run.1, [])).1.1
stop_node-IsRespectful_example =
    stop_node-IsRespectful interpreter stopping product first_run.1 refl

remove_runtime-SparesNetworks_example :
    SparesNetworks
      (network_name interpreter.hashing "ws" "rt")
      (runtime_labels interpreter.hashing unnetworking "rt")
      (Networks.remove_runtime
        (traced_interpreter interpreter)
        unnetworking
        (network_run.1, [])).1.1
remove_runtime-SparesNetworks_example =
    remove_runtime-SparesNetworks interpreter unnetworking "rt" network_run.1 refl refl

client-IsLawful : IsLawful client
client-IsLawful = record {
  still = λ name d. refl;
  created = λ name labels d d' h.
      let moved : record d { networks = some labels } ≡ d' = cc in
      (inspection_of labels "" false, rw (← moved) refl, refl);
}

abbrev network_started : Outcome Result × Daemon
network_started = Networks.start_runtime interpreter networking empty

start_runtime-again_example : Networks.start_runtime interpreter networking network_started.1 ≡ (
  returned (Networks.done networking "rt" (network_name interpreter.hashing "ws" "rt") "reused"),
  network_started.1,
)
unfolding Networks.start_runtime
start_runtime-again_example =
    start_runtime-again interpreter networking "rt" empty network_started.1
      (answer network_started.0) client-IsLawful refl refl refl
