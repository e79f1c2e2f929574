-- ===== src/Docker/Observer/Tests.antt =====
-- The observer at concrete values, on the small daemon of the other tests.
use control_plane_kit_interp.Base.{
  String, Bool, true, false, ◌≡◌, ◌≢◌, refl, List, [], ◌∷◌, Option, none, some,
}
use control_plane_kit_interp.Effect.{Eff, Exc, Outcome, returned, raised, pure, raise, control}
use control_plane_kit_interp.Effect.Logged.{Always}
use control_plane_kit_interp.Request.{Request, stop_node}
use control_plane_kit_interp.Docker.Names.{container_name}
use control_plane_kit_interp.Docker.Labels.{node_labels}
use control_plane_kit_interp.Docker.Trace.{traced}
use control_plane_kit_interp.Docker.Observer.{Postcondition, confirmed, unestablished, inspect}
use control_plane_kit_interp.Docker.Observer.Confirmed.{Shows, inspect-Shows}
use control_plane_kit_interp.Docker.Observer.Reads.{IsRead, inspect-reads_only}
use control_plane_kit_interp.Docker.Observer.Acquired.{Acquired}
use control_plane_kit_interp.Docker.Observer.Acquired.Closed.{IsWhole, observe_acquired-IsWhole}
use control_plane_kit_interp.Docker.Tests.World.{
  hashing, client, interpreter, product, request, empty, Daemon, inspection_of,
}

abbrev stopping : Request
stopping = request stop_node (product ∷ [])

-- The container of the node is there and does not run.
abbrev stopped : Daemon
stopped = record empty {
  container = some (record (inspection_of (node_labels hashing stopping product) "net" false) {
    name = container_name hashing "ws" "web";
  });
}

inspect-Shows_example :
    Shows hashing interpreter.oci stopping stop_node
      (product ∷ [])
      (inspect hashing interpreter.oci none (traced client) stopping stop_node (stopped, [])).1.1
unfolding inspect control_plane_kit_interp.Effect.Logged.observed
    control_plane_kit_interp.Docker.Observer.ownership container_name
    control_plane_kit_interp.Base.Dict.dict_eq
    control_plane_kit_interp.Docker.Labels.node_correlation_labels node_labels
inspect-Shows_example = inspect-Shows hashing interpreter.oci none client stopping stopped refl

inspect-reads_only_example :
    Always IsRead
      (inspect hashing interpreter.oci none (traced client) stopping stop_node (stopped, [])).1.1
inspect-reads_only_example = inspect-reads_only hashing interpreter.oci none client stopping stopped

abbrev binding : Acquired Daemon
binding = record { inspected = pure confirmed; close = some (pure tt) }

abbrev is_control : Exc → Bool
is_control control = true
is_control _ = false

confirmed-established : confirmed ≢ unestablished
confirmed-established h = absurd cc

observe_acquired-IsWhole_example : IsWhole confirmed (pure binding stopped) stopped
unfolding control_plane_kit_interp.Docker.Observer.Acquired.observe_acquired
observe_acquired-IsWhole_example =
    observe_acquired-IsWhole is_control (λ e. false) (pure binding) confirmed stopped stopped
      confirmed-established refl
