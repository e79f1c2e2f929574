-- ===== src/Docker/Networks.antt =====
-- The runtime operations of docker/runtime.py: a runtime is a Docker network.
pub mod Outcomes
use control_plane_kit_interp.Base.{String, List, [], ◌∷◌, Option, none, some}
use control_plane_kit_interp.Base.Dict.{Dict}
use control_plane_kit_interp.Effect.{Eff, pure, lift, ◌>>=◌, ◌>>◌, Check}
use control_plane_kit_interp.Request.{Request, Operation}
use control_plane_kit_interp.Docker.Names.{network_name}
use control_plane_kit_interp.Docker.Sdk.{Client, Inspection}
use control_plane_kit_interp.Docker.Labels.{
  runtime_labels, require_owned, require_label_owner, require_runtime_owner,
}
use control_plane_kit_interp.Docker.Result.{Result, succeed}
use control_plane_kit_interp.Docker.Interpreter.{Interpreter, runtime_target}

abbrev pub done : Request → String → String → String → Result
done request runtime_id name action =
    succeed request (("action", action) ∷ ("runtime_id", runtime_id) ∷ ("network", name) ∷ []) []

module _ {D : Type 0} (self : Interpreter D) where
  -- Create the network, or check by `owner` the one that is there.
  abbrev pub ensure :
      (Dict String → Check) → String → Dict String → Option Inspection → Eff D String
  ensure owner name labels none = do self.client.create_network name labels; pure "created"
  ensure owner name labels (some inspection) = do lift (owner inspection.labels); pure "reused"

  -- `_start_runtime` asks for the same fingerprint, `_reconcile_runtime` for the same owner.
  unfoldable pub start_runtime : Request → Eff D Result
  unfolding runtime_target
  start_runtime request = do
    runtime_id ← runtime_target request.operation
    let name = network_name self.hashing request.workspace_id runtime_id
    let labels = runtime_labels self.hashing request runtime_id
    inspection ← self.client.inspect_network name
    action ← ensure (λ observed. require_owned observed labels "network") name labels inspection
    pure (done request runtime_id name action)

  unfoldable pub reconcile_runtime : Request → Eff D Result
  unfolding runtime_target
  reconcile_runtime request = do
    runtime_id ← runtime_target request.operation
    let name = network_name self.hashing request.workspace_id runtime_id
    let labels = runtime_labels self.hashing request runtime_id
    inspection ← self.client.inspect_network name
    action ←
        ensure (λ observed. require_runtime_owner observed labels "network") name labels inspection
    pure (done request runtime_id name action)

  abbrev pub check_owner : Dict String → Option Inspection → Eff D (Unit {0})
  check_owner labels none = pure tt
  check_owner labels (some inspection) =
      lift (require_runtime_owner inspection.labels labels "network")

  -- `_stop_runtime` changes nothing.
  unfoldable pub stop_runtime : Request → Eff D Result
  unfolding runtime_target
  stop_runtime request = do
    runtime_id ← runtime_target request.operation
    let name = network_name self.hashing request.workspace_id runtime_id
    let labels = runtime_labels self.hashing request runtime_id
    inspection ← self.client.inspect_network name
    check_owner labels inspection
    pure (done request runtime_id name "logical-stop")

  abbrev pub remove_owned : String → Dict String → Option Inspection → Eff D String
  remove_owned name labels none = pure "absent"
  remove_owned name labels (some inspection) = do
    lift (require_runtime_owner inspection.labels labels "network")
    self.client.remove_network name
    pure "removed"

  -- `_remove_runtime`
  unfoldable pub remove_runtime : Request → Eff D Result
  unfolding runtime_target
  remove_runtime request = do
    runtime_id ← runtime_target request.operation
    let name = network_name self.hashing request.workspace_id runtime_id
    let labels = runtime_labels self.hashing request runtime_id
    inspection ← self.client.inspect_network name
    action ← remove_owned name labels inspection
    pure (done request runtime_id name action)
