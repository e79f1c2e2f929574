-- ===== src/Docker/Observer/Confirmed.antt =====
-- What the observer saw when it confirms a postcondition.
use control_plane_kit_interp.Base.{
  String, Bool, true, false, ◌≡◌, ◌⊎◌, refl, sym, ap, arith, List, [], ◌∷◌, Option, none, some,
  text_eq?,
}
use control_plane_kit_interp.Effect.{Outcome, returned, raised}
use control_plane_kit_interp.Effect.Logged.{logged, observed}
use control_plane_kit_interp.Request.{
  Request, Material, Operation, start_runtime, reconcile_runtime, stop_runtime,
  remove_runtime_resource, start_node, reconcile_node, stop_node, remove_node_resource,
  wait_for_healthy, cleanup_configuration, other_operation,
}
use control_plane_kit_interp.Docker.Names.{Hashing, network_name, container_name}
use control_plane_kit_interp.Docker.Labels.{runtime_labels, node_labels, only_network}
use control_plane_kit_interp.Docker.Sdk.{Client}
use control_plane_kit_interp.Docker.Sdk.References.{OciReference, matches_image_reference}
use control_plane_kit_interp.Docker.Authority.{
  DeliveryMaterial, docker_authority_conformance, ask_provider,
}
use control_plane_kit_interp.Docker.Trace.{Log, saw_container, saw_network, saw_image, traced}
use control_plane_kit_interp.Docker.Observer.{
  confirmed, ownership, inspect, inspect_runtime, inspect_existing, inspect_started, inspect_node,
  delivered, by_kind, is_start, is_reconcile,
}

module _ (hashing : Hashing) (request : Request) where
  -- The network of the runtime was seen with exactly its name and labels.
  abbrev pub SawNetwork : String → Log → Type 0
  SawNetwork runtime_id [] = ⊥
  SawNetwork runtime_id (saw_network name (some network) ∷ past) =
      ((name ≡ network_name hashing request.workspace_id runtime_id)
        × (ownership false false network name (runtime_labels hashing request runtime_id) ≡ none))
      ⊎ SawNetwork runtime_id past
  SawNetwork runtime_id (_ ∷ past) = SawNetwork runtime_id past

module _ (hashing : Hashing) (oci : String → String → String → Option OciReference)
    (request : Request) (material : Material) where
  -- The container of the node was seen, owned, running or not, from the image, on the network only.
  abbrev pub SawStarted : String → Log → Type 0
  SawStarted image_id [] = ⊥
  SawStarted image_id (saw_container name (some container) ∷ past) =
      ((name ≡ container_name hashing request.workspace_id material.node_id)
        × (ownership true (is_reconcile request.operation) container name
              (node_labels hashing request material)
            ≡ none)
        × (container.running ≡ true)
        × (text_eq? container.image_id (some image_id) ≡ true)
        × (only_network container.network_names
              (network_name hashing request.workspace_id material.runtime_id)
            ≡ true)
        × SawNetwork hashing request material.runtime_id past)
      ⊎ SawStarted image_id past
  SawStarted image_id (_ ∷ past) = SawStarted image_id past

  -- Last, the image of the declared reference was seen.
  abbrev pub ShowsStarted : Log → Type 0
  ShowsStarted (saw_image reference (some image) ∷ past) =
      (reference ≡ material.image.execution_reference)
      × (matches_image_reference oci reference image.repo_digests ≡ true)
      × SawStarted image.image_id past
  ShowsStarted log = ⊥

-- The container of the node was seen last, owned and not running.
abbrev pub ShowsStopped : Hashing → Request → Material → Log → Type 0
ShowsStopped hashing request material (saw_container name (some container) ∷ past) =
    (name ≡ container_name hashing request.workspace_id material.node_id)
    × (ownership true false container name (node_labels hashing request material) ≡ none)
    × (container.running ≡ false)
ShowsStopped hashing request material log = ⊥

-- What a confirmed operation shows in the log of the inspections. The removals are never confirmed, and
-- neither is any other operation.
abbrev pub Shows :
    Hashing
    → (String → String → String → Option OciReference)
    → Request
    → Operation
    → List Material
    → Log
    → Type 0
Shows hashing oci request start_node (material ∷ more) log =
    ShowsStarted hashing oci request material log
Shows hashing oci request reconcile_node (material ∷ more) log =
    ShowsStarted hashing oci request material log
Shows hashing oci request stop_node (material ∷ more) log =
    ShowsStopped hashing request material log
Shows hashing oci request (start_runtime (some id)) products log = SawNetwork hashing request id log
Shows hashing oci request (reconcile_runtime (some id)) products log =
    SawNetwork hashing request id log
Shows hashing oci request _ products log = ⊥

module _ {D : Type 0} (hashing : Hashing) (oci : String → String → String → Option OciReference)
    (socket_group : Option String) (client : Client D) (request : Request) where
  inspect_started-Shows :
      (material : Material) (authority : DeliveryMaterial) (d : D) (past : Log)
      → (inspect_started hashing oci socket_group
          (traced client)
          request
          material
          authority
          (d, past)).0
        ≡ returned confirmed
      → ShowsStarted hashing oci request material
          (inspect_started hashing oci socket_group
            (traced client)
            request
            material
            authority
            (d, past)).1.1
  unfolding inspect_started ownership docker_authority_conformance ask_provider logged observed
  inspect_started-Shows material authority d past h = ground arith

  delivered-Shows :
      (o : Outcome DeliveryMaterial) (material : Material) (s : D × Log)
      → (delivered hashing oci socket_group (traced client) request o material s).0
        ≡ returned confirmed
      → ShowsStarted hashing oci request material
          (delivered hashing oci socket_group (traced client) request o material s).1.1
  delivered-Shows (returned authority) material s h =
      inspect_started-Shows material authority s.0 s.1 h
  delivered-Shows (raised e) material s h = ground arith

  kind-Shows :
      (op : Operation) (start : Bool) (material : Material) (more : List Material) (s : D × Log)
      → request.operation ≡ op
      → is_start op ≡ start
      → (by_kind hashing oci socket_group (traced client) request start material s).0
        ≡ returned confirmed
      → Shows hashing oci request op
          (material ∷ more)
          (by_kind hashing oci socket_group (traced client) request start material s).1.1
  unfolding inspect_existing ownership logged observed
  kind-Shows op false material more s same kind h = ground arith
  kind-Shows op true material more s same kind h =
      let shown = delivered-Shows _ material _ h in ground arith

  node-Shows :
      (op : Operation) (products : List Material) (s : D × Log)
      → request.operation ≡ op
      → (inspect_node hashing oci socket_group (traced client) request products s).0
        ≡ returned confirmed
      → Shows hashing oci request op products
          (inspect_node hashing oci socket_group (traced client) request products s).1.1
  node-Shows op [] s same h = absurd cc
  node-Shows op (material ∷ more) s same h =
      kind-Shows op (is_start request.operation) material more s same (ap is_start (sym same)) h

  operation-Shows :
      (op : Operation) (s : D × Log)
      → request.operation ≡ op
      → (inspect hashing oci socket_group (traced client) request op s).0 ≡ returned confirmed
      → Shows hashing oci request op request.products
          (inspect hashing oci socket_group (traced client) request op s).1.1
  unfolding inspect inspect_runtime ownership observed
  operation-Shows (start_runtime none) s same h = absurd cc
  operation-Shows (start_runtime (some id)) s same h = ground arith
  operation-Shows (reconcile_runtime none) s same h = absurd cc
  operation-Shows (reconcile_runtime (some id)) s same h = ground arith
  operation-Shows (remove_runtime_resource id) s same h = ground arith
  operation-Shows (stop_runtime id) s same h =
      node-Shows (stop_runtime id) request.products s same h
  operation-Shows start_node s same h = node-Shows start_node request.products s same h
  operation-Shows reconcile_node s same h = node-Shows reconcile_node request.products s same h
  operation-Shows stop_node s same h = node-Shows stop_node request.products s same h
  operation-Shows remove_node_resource s same h =
      node-Shows remove_node_resource request.products s same h
  operation-Shows wait_for_healthy s same h = node-Shows wait_for_healthy request.products s same h
  operation-Shows cleanup_configuration s same h =
      node-Shows cleanup_configuration request.products s same h
  operation-Shows other_operation s same h = node-Shows other_operation request.products s same h

  -- A postcondition that the observer confirms was seen. A started node: last the image of the declared
  -- reference, before it the container, owned, running, from that image and on the network of the
  -- runtime only, and before it that network. A stopped node: its owned container, which does not run. A
  -- runtime: its network. No removal is ever confirmed.
  pub inspect-Shows :
      (d : D)
      → (inspect hashing oci socket_group (traced client) request request.operation (d, [])).0
        ≡ returned confirmed
      → Shows hashing oci request request.operation request.products
          (inspect hashing oci socket_group (traced client) request request.operation (d, [])).1.1
  inspect-Shows d h = operation-Shows request.operation (d, []) refl h
