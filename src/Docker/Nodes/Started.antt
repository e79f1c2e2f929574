-- ===== src/Docker/Nodes/Started.antt =====
-- What `_start_node` and `_reconcile_node` (docker/runtime.py) have seen when they report success.
use text.Mathlib.Text.{starts_with}
use control_plane_kit_interp.Base.{
  String, Bool, true, false, ◌≡◌, refl, arith, List, [], ◌∷◌, Option, none, some, text_eq?, eq_iff,
}
use control_plane_kit_interp.Base.Dict.{Dict, get, dict_eq, text_eq?_iff}
use control_plane_kit_interp.Base.Lists.{Any}
use control_plane_kit_interp.Effect.{
  returned, Eff, lift, require, container_create, network, final_inspect, Suboperation, ◌>>=◌,
}
use control_plane_kit_interp.Effect.Laws.{
  Returns, Returns-bind, Returns-skip, Returns-map, >>=-eq-returned, then-eq-returned,
  require-eq-returned,
}
use control_plane_kit_interp.Request.{Request, Material}
use control_plane_kit_interp.Docker.Sdk.{Inspection, ImageInspection, AuthConfig}
use control_plane_kit_interp.Docker.Labels.{
  require_start_node_container, require_container_correlation, require_node_network, only_network,
  node_correlation_labels, evidence_if,
}
use control_plane_kit_interp.Docker.Labels.Correlation.{correlation_iff, Agrees, may_differ}
use control_plane_kit_interp.Docker.Authority.{
  DeliveryMaterial, authority_delivery_material, require_container_authority,
}
use control_plane_kit_interp.Docker.Result.{Result}
use control_plane_kit_interp.Docker.Interpreter.{
  Interpreter, single_product, start_node_provider_call,
}
use control_plane_kit_interp.Docker.Interpreter.Calls.{provider_call-eq-returned}
use control_plane_kit_interp.Docker.SecretFiles.{preflight_secret_files}
use control_plane_kit_interp.Docker.Images.{image_pull_auth_config, admit_start_node_image}
use control_plane_kit_interp.Docker.Images.Admitted.{
  admit_start_node_image-eq-returned, Spells, InspectedAs,
}
use control_plane_kit_interp.Docker.Nodes.{
  check_existing, start_network, reconcile_network, converge, check_reconcilable,
  resolve_product_secret_deliveries, start_or_create, confirm, start_node, reconcile_node,
  container_of, labels_of, network_of, node_result,
}

only_network-eq :
    (names : List String) (name : String) → only_network names name ≡ true → names ≡ name ∷ []
only_network-eq [] name h = cc
only_network-eq (n ∷ []) name h = rw ((eq_iff n name).0 h) refl
only_network-eq (n ∷ m ∷ ns) name h = cc

-- The container carries the labels of the request, up to the prior plan and graph where these are
-- allowed; it is attached to the network and to no other; it runs, from the admitted image.
pub record IsConfirmed (prior : Bool) (observed : Inspection) (labels : Dict String)
    (network_name : String) (image_id : String) : Type 0 where
  pub labelled :
      (k : String)
      → starts_with k "org.openj92.cpk." ≡ true
      → Agrees (may_differ prior prior k) (get k observed.labels) (get k labels)
  pub attached : observed.network_names ≡ network_name ∷ []
  pub from_image : observed.image_id ≡ some image_id
  pub runs : observed.running ≡ true

pub require_start_node_container-IsConfirmed :
    (is_space : _) (prior : Bool) (observed : Inspection) (labels : Dict String)
    (image : ImageInspection) (network_name : String)
    → require_start_node_container is_space prior prior observed labels image network_name true
      ≡ returned tt
    → IsConfirmed prior observed labels network_name image.image_id
unfolding require_start_node_container require_container_correlation require_node_network
require_start_node_container-IsConfirmed is_space prior observed labels image network_name h =
    let (correlated, rest) =
      then-eq-returned
        (require_container_correlation is_space prior prior observed labels network_name) _ h in
    let (same_image, running) =
      then-eq-returned (require (text_eq? observed.image_id (some image.image_id)) _) _ rest in
    let (_, correlated') =
      then-eq-returned (evidence_if is_space prior prior prior observed.labels) _ correlated in
    let (same_labels, on_network) =
      then-eq-returned
        (require
          (dict_eq (node_correlation_labels prior prior observed.labels)
            (node_correlation_labels prior prior labels))
          _)
        _ correlated' in
    record {
      labelled =
          (correlation_iff prior prior observed.labels labels).0
            (require-eq-returned _ _ same_labels);
      attached =
          only_network-eq observed.network_names network_name (require-eq-returned _ _ on_network);
      from_image = (text_eq?_iff _ _).0 (require-eq-returned _ _ same_image);
      runs = require-eq-returned observed.running _ running;
    }

module _ {D : Type 0} (self : Interpreter D) (request : Request) (material : Material) where
  confirm-IsConfirmed :
      (authority : DeliveryMaterial) (image : ImageInspection) (prior : Bool) (action : String)
      (found : Option Inspection) (r : Result) (d d' : D)
      → confirm self request material authority image prior action found d ≡ (returned r, d')
      → (observed : Inspection) × (found ≡ some observed)
        × IsConfirmed prior observed
            (labels_of self request material)
            (network_of self request material)
            image.image_id
        × (r ≡ node_result self request material action observed)
  unfolding confirm
  confirm-IsConfirmed authority image prior action none r d d' h = absurd cc
  confirm-IsConfirmed authority image prior action (some observed) r d d' h =
      let check =
        require_start_node_container self.is_space prior prior observed
          (labels_of self request material) image (network_of self request material) true in
      let (_, e, passed, rest) = >>=-eq-returned (lift check) _ h in
      let (_, e', judged, ended) =
        >>=-eq-returned (require_container_authority self.client true observed authority) _ rest in
      let ok : check ≡ returned tt = cc in
      (
        observed,
        refl,
        require_start_node_container-IsConfirmed self.is_space prior observed
            (labels_of self request material) image (network_of self request material) ok,
        cc,
      )

  -- A node that runs was seen: an inspection of its container, the last but for the checks of its
  -- authority, answered with a container that is confirmed against an image that an inspection of
  -- the declared reference answered and whose digests spell that reference.
  abbrev pub IsRunning : Bool → Result → Type 0
  IsRunning prior r =
      (observed : Inspection) × (image : ImageInspection) × (action : String) × (seen : D)
      × (seen' : D) × (self.client.inspect_container (container_of self request material) seen
          ≡ (returned (some observed), seen'))
      × Any (Spells self.oci material.image.execution_reference) image.repo_digests
      × (checked : D) × InspectedAs self material.image.execution_reference image checked
      × IsConfirmed prior observed (labels_of self request material)
          (network_of self request material) image.image_id
      × (r ≡ node_result self request material action observed)

  last-IsRunning :
      (authority : DeliveryMaterial) (image : ImageInspection) (prior : Bool) (action : String)
      (m : Eff D (Option Inspection))
      → Returns m (λ seen found seen'.
        self.client.inspect_container (container_of self request material) seen
        ≡ (returned found, seen'))
      → Any (Spells self.oci material.image.execution_reference) image.repo_digests
      → (checked : D) → InspectedAs self material.image.execution_reference image checked
      → Returns
          (m >>= λ observed. confirm self request material authority image prior action observed)
          (λ _ r _. IsRunning prior r)
  last-IsRunning authority image prior action m inspects spelt checked shown =
      Returns-bind m _ _ (λ r _. IsRunning prior r) inspects
        (λ found seen seen' answer. record {
          at = λ d r d' h.
              let (observed, there, confirmed, reported) =
                confirm-IsConfirmed authority image prior action found r d d' h in
              (
                observed,
                image,
                action,
                seen,
                seen',
                rw (← there) answer,
                spelt,
                checked,
                shown,
                confirmed,
                reported,
              );
        })

  admits :
      (auth : Option AuthConfig)
      → Returns (admit_start_node_image self material auth) (λ _ image checked.
        Any (Spells self.oci material.image.execution_reference) image.repo_digests
        × InspectedAs self material.image.execution_reference image checked)
  admits auth = record {
    at = λ d image d' h. admit_start_node_image-eq-returned self material auth image d d' h;
  }

module _ {D : Type 0} (self : Interpreter D) (request : Request) where
  product-single :
      Returns (single_product {D = D} request) (λ _ found _. request.products ≡ found ∷ [])
  unfolding single_product
  product-single = record { at = λ d found d' h. ground arith }

  -- The one product of the request runs.
  abbrev pub ProductRuns : Bool → D → Result → D → Type 0
  ProductRuns prior _ r _ =
      (material : Material) × (request.products ≡ material ∷ [])
      × IsRunning self request material prior r

  reconcile_node-Returns : Returns (reconcile_node self request) (ProductRuns true)
  unfolding reconcile_node
  reconcile_node-Returns = Returns-bind (single_product request) _ _ _ product-single λ m _ _ one.
      let client = self.client in
      Returns-skip
        (authority_delivery_material client self.socket_group request.authority_deliveries) _ _
        λ authority.
          Returns-skip (client.inspect_container (container_of self request m)) _ _ λ existing.
            Returns-skip (check_reconcilable self request m authority existing) _ _ λ _.
              Returns-skip (resolve_product_secret_deliveries self request m) _ _ λ secrets.
                Returns-skip (image_pull_auth_config self request m) _ _ λ auth.
                  Returns-bind (admit_start_node_image self m auth) _ _ _
                    (admits self request m auth)
                    λ image _ checked known.
                      Returns-skip (preflight_secret_files self request m secrets image) _ _
                        λ owner.
                          Returns-skip (client.inspect_network (network_of self request m)) _ _
                            λ net. Returns-skip (reconcile_network self request m net) _ _ λ _.
                              Returns-skip
                                (converge self request m authority secrets image owner existing) _ _
                                λ action.
                                  Returns-map (λ _ r _ runs. (m, one, runs))
                                    (last-IsRunning self request m authority image true action
                                      (client.inspect_container (container_of self request m))
                                      (record { at = λ d a d' h. h }) known.0 checked known.1)

  start_node-Returns : Returns (start_node self request) (ProductRuns false)
  unfolding start_node
  start_node-Returns = Returns-bind (single_product request) _ _ _ product-single λ m _ _ one.
      let client = self.client in
      let inspect = client.inspect_container (container_of self request m) in
      let final = start_node_provider_call final_inspect none inspect in
      Returns-skip
        (authority_delivery_material client self.socket_group request.authority_deliveries) _ _
        λ authority.
          Returns-skip
            (start_node_provider_call container_create (some Suboperation.inspection) inspect) _ _
            λ existing. Returns-skip (check_existing self request m authority existing) _ _ λ _.
              Returns-skip (resolve_product_secret_deliveries self request m) _ _ λ secrets.
                Returns-skip (image_pull_auth_config self request m) _ _ λ auth.
                  Returns-bind (admit_start_node_image self m auth) _ _ _
                    (admits self request m auth)
                    λ image _ checked known.
                      Returns-skip (preflight_secret_files self request m secrets image) _ _
                        λ owner.
                          Returns-skip
                            (start_node_provider_call network none
                              (client.inspect_network (network_of self request m)))
                            _ _
                            λ net. Returns-skip (start_network self request m net) _ _ λ _.
                              Returns-skip
                                (start_or_create self request m authority secrets image owner
                                  existing)
                                _ _
                                λ action.
                                  Returns-map (λ _ r _ runs. (m, one, runs))
                                    (last-IsRunning self request m authority image false action
                                      final
                                      (record {
                                        at = λ d a d' h.
                                            provider_call-eq-returned final_inspect none inspect h;
                                      })
                                      known.0 checked known.1)

  -- When `_start_node` returns, the request has one product, and its node runs: some inspection of its
  -- container answered with a container that has every label of the request, is attached to the
  -- runtime's network and to no other, and runs with the id of an image that some inspection of the
  -- declared reference answered with and one of whose digests spells that reference. The result is that of this container.
  pub start_node-ProductRuns :
      (r : Result) (d d' : D)
      → start_node self request d ≡ (returned r, d')
      → ProductRuns false d r d'
  start_node-ProductRuns r d d' h = start_node-Returns.at d r d' h

  -- When `_reconcile_node` returns, the same holds, but the container may carry the plan and the graph
  -- of an earlier request in their labels, where both are recorded.
  pub reconcile_node-ProductRuns :
      (r : Result) (d d' : D)
      → reconcile_node self request d ≡ (returned r, d')
      → ProductRuns true d r d'
  reconcile_node-ProductRuns r d d' h = reconcile_node-Returns.at d r d' h
