-- ===== src/Docker/Observer/Reads.antt =====
-- The calls of the observer (docker/observer.py).
use control_plane_kit_interp.Base.{
  String, Bool, true, false, arith, List, [], ◌∷◌, Option, none, some, if◌then◌else◌,
}
use control_plane_kit_interp.Effect.{
  Exc, unsupported_authority, pure, raise, Outcome, returned, raised,
}
use control_plane_kit_interp.Effect.Laws.{Keeps, Keeps-bind}
use control_plane_kit_interp.Effect.Logged.{logged, observed, Always}
use control_plane_kit_interp.Request.{
  Request, Material, Operation, start_runtime, reconcile_runtime, stop_runtime,
  remove_runtime_resource, start_node, reconcile_node, stop_node, remove_node_resource,
  wait_for_healthy, cleanup_configuration, other_operation,
}
use control_plane_kit_interp.Docker.Names.{Hashing}
use control_plane_kit_interp.Docker.Sdk.{Client}
use control_plane_kit_interp.Docker.Sdk.References.{OciReference}
use control_plane_kit_interp.Docker.Authority.{
  DeliveryMaterial, authority_delivery_material, docker_authority_conformance, ask_provider, socket,
}
use control_plane_kit_interp.Docker.Authority
use control_plane_kit_interp.Docker.Trace.{
  Event, Log, saw_container, saw_network, saw_image, asked, traced,
}
use control_plane_kit_interp.Docker.Observer.{
  inspect, inspect_runtime, inspect_existing, inspect_started, inspect_node, delivered, by_kind,
  is_start,
}

-- An inspection of a container, a network or an image, or a question that changes nothing. Reading a
-- volume is none of them, since it takes a helper container, nor is copying files out of a container.
abbrev pub IsRead : Event → Log → Type 0
IsRead (saw_container name answer) past = Unit
IsRead (saw_network name answer) past = Unit
IsRead (saw_image name answer) past = Unit
IsRead asked past = Unit
IsRead event past = ⊥

abbrev OnlyReads : {D : Type 0} → D × Log → Type 0
OnlyReads s = Always IsRead s.1

module _ {D : Type 0} (hashing : Hashing) (oci : String → String → String → Option OciReference)
    (socket_group : Option String) (client : Client D) (request : Request) where
  delivery-Keeps :
      (deliveries : List Bool)
      → Keeps
          (OnlyReads {D = D})
          (authority_delivery_material (traced client) socket_group deliveries)
  unfolding authority_delivery_material
  delivery-Keeps [] = record { at = λ s reads. reads }
  delivery-Keeps (false ∷ rest) = record { at = λ s reads. reads }
  delivery-Keeps (true ∷ rest) =
      Keeps-bind OnlyReads (logged asked (client.uses_local_socket socket)) _
        (record { at = λ s reads. unfold logged in (tt, reads) })
        (λ local.
          Keeps-bind OnlyReads (if local then pure tt else raise not_local) _ (if_Keeps local) (λ _.
            Keeps-bind OnlyReads (Authority.socket_group socket_group) _ (group_Keeps socket_group)
              (λ gid.
                Keeps-bind OnlyReads (authority_delivery_material (traced client) socket_group rest)
                  _ (delivery-Keeps rest) (λ later. record { at = λ s reads. reads }))))
    where
      not_local : Exc
      not_local = unsupported_authority "docker.runtime-authority-delivery-unsupported"

      if_Keeps :
          (local : Bool) → Keeps (OnlyReads {D = D}) (if local then pure tt else raise not_local)
      if_Keeps true = record { at = λ s reads. reads }
      if_Keeps false = record { at = λ s reads. reads }

      group_Keeps :
          (group : Option String) → Keeps (OnlyReads {D = D}) (Authority.socket_group group)
      group_Keeps none = record { at = λ s reads. reads }
      group_Keeps (some gid) = record { at = λ s reads. reads }

  started-OnlyReads :
      (material : Material) (authority : DeliveryMaterial) (d : D) (past : Log)
      → Always IsRead past
      → OnlyReads
          (inspect_started hashing oci socket_group
            (traced client)
            request
            material
            authority
            (d, past)).1
  unfolding inspect_started docker_authority_conformance ask_provider logged observed
  started-OnlyReads material authority d past reads = ground arith

  delivered-OnlyReads :
      (o : Outcome DeliveryMaterial) (material : Material) (s : D × Log)
      → OnlyReads s
      → OnlyReads (delivered hashing oci socket_group (traced client) request o material s).1
  delivered-OnlyReads (returned authority) material s reads =
      started-OnlyReads material authority s.0 s.1 reads
  delivered-OnlyReads (raised e) material s reads = ground arith

  kind-OnlyReads :
      (start : Bool) (material : Material) (s : D × Log)
      → OnlyReads s
      → OnlyReads (by_kind hashing oci socket_group (traced client) request start material s).1
  unfolding inspect_existing observed
  kind-OnlyReads true material s reads =
      delivered-OnlyReads _ material _ ((delivery-Keeps request.authority_deliveries).at s reads)
  kind-OnlyReads false material s reads = ground arith

  node-OnlyReads :
      (products : List Material) (s : D × Log)
      → OnlyReads s
      → OnlyReads (inspect_node hashing oci socket_group (traced client) request products s).1
  node-OnlyReads [] s reads = reads
  node-OnlyReads (material ∷ more) s reads =
      kind-OnlyReads (is_start request.operation) material s reads

  operation-OnlyReads :
      (op : Operation) (s : D × Log)
      → OnlyReads s
      → OnlyReads (inspect hashing oci socket_group (traced client) request op s).1
  unfolding inspect inspect_runtime observed
  operation-OnlyReads (start_runtime id) s reads = ground arith
  operation-OnlyReads (reconcile_runtime id) s reads = ground arith
  operation-OnlyReads (remove_runtime_resource id) s reads = ground arith
  operation-OnlyReads (stop_runtime id) s reads = node-OnlyReads request.products s reads
  operation-OnlyReads start_node s reads = node-OnlyReads request.products s reads
  operation-OnlyReads reconcile_node s reads = node-OnlyReads request.products s reads
  operation-OnlyReads stop_node s reads = node-OnlyReads request.products s reads
  operation-OnlyReads remove_node_resource s reads = node-OnlyReads request.products s reads
  operation-OnlyReads wait_for_healthy s reads = node-OnlyReads request.products s reads
  operation-OnlyReads cleanup_configuration s reads = node-OnlyReads request.products s reads
  operation-OnlyReads other_operation s reads = node-OnlyReads request.products s reads

  -- Whatever the daemon answers, each call of an observation inspects a container, a network or an
  -- image, or asks the daemon a question: none creates, changes, starts, stops or removes anything, and
  -- none reads a volume through a helper container or copies files out of
  -- a container.
  pub inspect-reads_only :
      (d : D)
      → Always IsRead
          (inspect hashing oci socket_group (traced client) request request.operation (d, [])).1.1
  inspect-reads_only d = operation-OnlyReads request.operation (d, []) tt
