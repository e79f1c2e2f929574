-- ===== src/Docker/Nodes/Removal.antt =====
-- `_stop_node` and `_remove_node` touch a container only after they saw that it is owned.
use control_plane_kit_interp.Base.{String, true, ◌≡◌, ◌⊎◌, arith, [], ◌∷◌, some}
use control_plane_kit_interp.Base.Dict.{Dict}
use control_plane_kit_interp.Request.{Request, Material}
use control_plane_kit_interp.Docker.Labels.{owns, node_keys, require_label_owner}
use control_plane_kit_interp.Docker.Interpreter.{Interpreter, single_product}
use control_plane_kit_interp.Effect.Logged.{logged, observed}
use control_plane_kit_interp.Docker.Trace.{
  Log, saw_container, network_removed, container_stopped, container_removed, traced_interpreter,
}
use control_plane_kit_interp.Docker.Nodes.{container_of, labels_of, stop_node, remove_node}

-- Earlier in the log, the client was asked about the container and answered with one whose labels
-- name the expected kind, workspace, runtime and node.
abbrev pub SawOwned : String → Dict String → Log → Type 0
SawOwned name labels [] = ⊥
SawOwned name labels (saw_container seen (some inspection) ∷ past) =
    ((seen ≡ name) × (owns inspection.labels labels node_keys ≡ true)) ⊎ SawOwned name labels past
SawOwned name labels (_ ∷ past) = SawOwned name labels past

-- Every stop and every removal of a container in the log is of the owned container of the request,
-- after it was seen; no network is removed.
abbrev pub IsRespectful : String → Dict String → Log → Type 0
IsRespectful name labels [] = Unit
IsRespectful name labels (container_stopped stopped ∷ past) =
    (stopped ≡ name) × SawOwned name labels past × IsRespectful name labels past
IsRespectful name labels (container_removed removed ∷ past) =
    (removed ≡ name) × SawOwned name labels past × IsRespectful name labels past
IsRespectful name labels (network_removed removed ∷ past) = ⊥
IsRespectful name labels (_ ∷ past) = IsRespectful name labels past

-- Whatever the daemon answers: `_remove_node` removes nothing but the container of the node, and
-- that only after it was seen with the owner's labels.
pub remove_node-IsRespectful :
    {D : Type 0} (self : Interpreter D) (request : Request) (material : Material) (d : D)
    → request.products ≡ material ∷ []
    → IsRespectful
        (container_of self request material)
        (labels_of self request material)
        (remove_node (traced_interpreter self) request (d, [])).1.1
unfolding remove_node single_product require_label_owner logged observed
remove_node-IsRespectful self request material d one = ground arith

-- Whatever the daemon answers: `_stop_node` stops nothing but the container of the node, and that only
-- after it was seen with the owner's labels.
pub stop_node-IsRespectful :
    {D : Type 0} (self : Interpreter D) (request : Request) (material : Material) (d : D)
    → request.products ≡ material ∷ []
    → IsRespectful
        (container_of self request material)
        (labels_of self request material)
        (stop_node (traced_interpreter self) request (d, [])).1.1
unfolding stop_node single_product require_label_owner logged observed
stop_node-IsRespectful self request material d one = ground arith
