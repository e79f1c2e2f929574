-- ===== src/Docker/Configuration/Node/Verified.antt =====
-- What `_configuration_node` saw of the container before it reports success.
use control_plane_kit_interp.Base.{ℕ, String, Bool, true, ◌≡◌, List, Option, none, some, text_eq?}
use control_plane_kit_interp.Base.Dict.{text_eq?_iff}
use control_plane_kit_interp.Effect.{lift, returned, require, observation_unknown}
use control_plane_kit_interp.Effect.Laws.{>>=-eq-returned, require-eq-returned}
use control_plane_kit_interp.Request.{Request, Material}
use control_plane_kit_interp.Secrets.{Deliveries}
use control_plane_kit_interp.Docker.Sdk.{Inspection, ImageInspection, ConfigurationMount}
use control_plane_kit_interp.Docker.Authority.{DeliveryMaterial, require_container_authority}
use control_plane_kit_interp.Docker.Interpreter.{Interpreter}
use control_plane_kit_interp.Docker.Nodes.{network_of}
use control_plane_kit_interp.Docker.Nodes.Started.{
  IsConfirmed, require_start_node_container-IsConfirmed,
}
use control_plane_kit_interp.Docker.Configuration.Attempt.{
  Attempt, Correlation, installed_verification, on,
}
use control_plane_kit_interp.Docker.Configuration.Evidence.{AttemptResult, Core}
use control_plane_kit_interp.Docker.Configuration.Staging.{installed_configuration_matches}
use control_plane_kit_interp.Docker.Configuration.Node.{labels_with}
use control_plane_kit_interp.Docker.Configuration.Node.Install.{require_container}
use control_plane_kit_interp.Docker.Configuration.Node.Execute.{verify, confirmed}

module _ {D : Type 0} (self : Interpreter D) (core : Core) (request : Request) (material : Material)
    (reconcile : Bool) (correlation : Option Correlation) (authority : DeliveryMaterial)
    (image : ImageInspection) (identity : String) (mounts : List ConfigurationMount) where
  -- The container that was found has the identity, is confirmed against the admitted image, and the
  -- selected configurations were found in it by that identity.
  abbrev pub IsVerified : Option Inspection → Type 0
  IsVerified none = ⊥
  IsVerified (some observed) =
      (observed.container_id ≡ some identity)
      × IsConfirmed reconcile observed (labels_with self core request material correlation)
          (network_of self request material) image.image_id
      × ((d : D) × (d' : D) × (installed_configuration_matches self.client (some identity) mounts d
            ≡ (returned tt, d')))

  confirmed-IsVerified :
      (found : Option Inspection) (s s' : D × Attempt) (observed : Inspection)
      → confirmed self core request material reconcile correlation authority image identity mounts
          found s
        ≡ (returned observed, s')
      → IsVerified found
  confirmed-IsVerified none s s' observed h = absurd cc
  confirmed-IsVerified (some seen) s s' observed h =
      let same = require (text_eq? seen.container_id (some identity)) observation_unknown in
      let (_, s1, one, rest) = >>=-eq-returned (lift same) _ h in
      let (_, s2, two, rest) =
        >>=-eq-returned
          (require_container self core request material reconcile true image correlation seen) _
          rest in
      let (_, s3, three, rest) =
        >>=-eq-returned (on (require_container_authority self.client true seen authority)) _ rest in
      let (_, s4, four, rest) =
        >>=-eq-returned (on (installed_configuration_matches self.client (some identity) mounts)) _
          rest in
      let ok : same ≡ returned tt = λ i. (one i).0 in
      (
        (text_eq?_iff seen.container_id (some identity)).0 (require-eq-returned _ _ ok),
        require_start_node_container-IsConfirmed self.is_space reconcile seen
            (labels_with self core request material correlation) image
            (network_of self request material) (λ i. (two i).0),
        (s3.0, s4.0, λ i. ((four i).0, (four i).1.0)),
      )

  -- Where the last part of a configuration attempt returns a result, its inspection of the container
  -- by its identity answered with a container that is verified: it has that identity, carries the
  -- labels of the request, runs from the admitted image on the network of the node only, and every
  -- selected configuration was found in it.
  pub verify-IsVerified :
      (secret_correlation : Option Correlation) (secrets : Deliveries) (owner_uid : ℕ)
      (result : AttemptResult) (s s' : D × Attempt)
      → verify self core request material reconcile correlation secret_correlation authority image
          secrets owner_uid identity mounts s
        ≡ (returned result, s')
      → (found : Option Inspection) × ((self.client.inspect_container identity s.0).0
          ≡ returned found)
        × IsVerified found
  unfolding verify
  verify-IsVerified secret_correlation secrets owner_uid result s s' h =
      let entered : D × Attempt = (s.0, record s.1 { phase = installed_verification }) in
      let (found, s2, two, rest) =
        >>=-eq-returned (on (self.client.inspect_container identity)) _ {d = entered} h in
      let (observed, s3, three, rest) =
        >>=-eq-returned
          (confirmed self core request material reconcile correlation authority image identity
            mounts found)
          _ rest in
      (found, (λ i. (two i).0), confirmed-IsVerified found s2 s3 observed three)
