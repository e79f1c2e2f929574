-- ===== src/Docker/Networks/Outcomes.antt =====
-- The runtime operations of docker/runtime.py on a daemon that keeps what it was told.
use control_plane_kit_interp.Base.{
  String, true, false, ◌≡◌, ◌⊎◌, refl, arith, [], ◌∷◌, Option, none, some, ◌==◌,
}
use control_plane_kit_interp.Base.Dict.{Dict, get, text_eq?_iff}
use control_plane_kit_interp.Effect.{returned, pure, lift, Check}
use control_plane_kit_interp.Effect.Laws.{>>=-eq-returned}
use control_plane_kit_interp.Request.{Request, Operation}
use control_plane_kit_interp.Docker.Names.{network_name}
use control_plane_kit_interp.Docker.Sdk.{Client, Inspection}
use control_plane_kit_interp.Docker.Labels.{
  label, runtime_labels, owns, runtime_keys, require_label_owner, require_owned,
  fingerprint_matches,
}
use control_plane_kit_interp.Docker.Result.{Result}
use control_plane_kit_interp.Docker.Interpreter.{Interpreter, runtime_target, target_of}
use control_plane_kit_interp.Docker.Networks.{start_runtime, remove_runtime, done, ensure}
use control_plane_kit_interp.Effect.Logged.{logged, observed}
use control_plane_kit_interp.Docker.Trace.{
  Log, saw_network, network_removed, container_stopped, container_removed, traced_interpreter,
}

-- Earlier in the log, the client was asked about the network and answered with one whose labels name
-- the expected kind, workspace and runtime.
abbrev pub SawOwnedNetwork : String → Dict String → Log → Type 0
SawOwnedNetwork name labels [] = ⊥
SawOwnedNetwork name labels (saw_network seen (some inspection) ∷ past) =
    ((seen ≡ name) × (owns inspection.labels labels runtime_keys ≡ true))
    ⊎ SawOwnedNetwork name labels past
SawOwnedNetwork name labels (_ ∷ past) = SawOwnedNetwork name labels past

-- Every removal in the log is of the owned network of the request, after it was seen; no container
-- is stopped or removed.
abbrev pub SparesNetworks : String → Dict String → Log → Type 0
SparesNetworks name labels [] = Unit
SparesNetworks name labels (network_removed removed ∷ past) =
    (removed ≡ name) × SawOwnedNetwork name labels past × SparesNetworks name labels past
SparesNetworks name labels (container_stopped stopped ∷ past) = ⊥
SparesNetworks name labels (container_removed removed ∷ past) = ⊥
SparesNetworks name labels (_ ∷ past) = SparesNetworks name labels past

runtime_target-eq :
    {D : Type 0} (operation : Operation) (runtime_id : String)
    → target_of operation ≡ some runtime_id
    → (runtime_id == "") ≡ false
    → runtime_target {D = D} operation ≡ pure runtime_id
unfolding runtime_target
runtime_target-eq operation runtime_id target named = rw (runtime_target, target, named) refl

-- Whatever the daemon answers: `_remove_runtime` removes nothing but the network of the runtime, and
-- that only after it was seen with the owner's labels.
pub remove_runtime-SparesNetworks :
    {D : Type 0} (self : Interpreter D) (request : Request) (runtime_id : String) (d : D)
    → target_of request.operation ≡ some runtime_id
    → (runtime_id == "") ≡ false
    → SparesNetworks
        (network_name self.hashing request.workspace_id runtime_id)
        (runtime_labels self.hashing request runtime_id)
        (remove_runtime (traced_interpreter self) request (d, [])).1.1
unfolding remove_runtime require_label_owner logged observed
remove_runtime-SparesNetworks self request runtime_id d target named =
    rw (remove_runtime, runtime_target-eq request.operation runtime_id target named) (ground arith)

-- A daemon whose inspections change nothing, and which shows a network that it created with the
-- labels that it was given.
pub record IsLawful {D : Type 0} (c : Client D) : Type 0 where
  pub still : (name : String) (d : D) → (c.inspect_network name d).1 ≡ d
  pub created :
      (name : String) (labels : Dict String) (d d' : D)
      → c.create_network name labels d ≡ (returned tt, d')
      → (i : Inspection) × ((c.inspect_network name d').0 ≡ returned (some i)) × (i.labels ≡ labels)

module _ {D : Type 0} (self : Interpreter D) (name : String) (labels : Dict String) where
  -- After `ensure` the network is there, with labels that the owner's check admits.
  ensure-present :
      (owner : Dict String → Check) (inspection : Option Inspection) {action : String} {d d' : D}
      → IsLawful self.client
      → owner labels ≡ returned tt
      → (self.client.inspect_network name d).0 ≡ returned inspection
      → ensure self owner name labels inspection d ≡ (returned action, d')
      → (i : Inspection) × (self.client.inspect_network name d' ≡ (returned (some i), d'))
        × (owner i.labels ≡ returned tt)
  ensure-present owner none {action} {d} {d'} lawful self_owned seen h =
      let (_, e, made, rest) = >>=-eq-returned (self.client.create_network name labels) _ h in
      let (i, shown, same) = lawful.created name labels d e made in
      let moved : e ≡ d' = cc in let still = lawful.still name e in (i, cc, rw same self_owned)
  ensure-present owner (some i) {action} {d} {d'} lawful self_owned seen h =
      let (_, e, passed, rest) = >>=-eq-returned (lift (owner i.labels)) _ h in
      let still = lawful.still name d in let moved : d ≡ d' = cc in (i, cc, cc)

require_owned_self : (labels : Dict String) → require_owned labels labels "network" ≡ returned tt
unfolding require_owned fingerprint_matches
require_owned_self labels =
    rw ((text_eq?_iff (get (label "fingerprint") labels) (get (label "fingerprint") labels)).1 refl)
      refl

-- On a lawful daemon, `_start_runtime` after a `_start_runtime` that returned finds the network,
-- reports it reused, and changes nothing.
pub start_runtime-again :
    {D : Type 0} (self : Interpreter D) (request : Request) (runtime_id : String) (d d' : D)
    (r : Result)
    → IsLawful self.client
    → target_of request.operation ≡ some runtime_id
    → (runtime_id == "") ≡ false
    → start_runtime self request d ≡ (returned r, d')
    → start_runtime self request d' ≡ (
      returned (
          done request runtime_id
            (network_name self.hashing request.workspace_id runtime_id)
            "reused"),
      d',
    )
unfolding start_runtime
start_runtime-again {D} self request runtime_id d d' r lawful target named h =
    let name = network_name self.hashing request.workspace_id runtime_id in
    let labels = runtime_labels self.hashing request runtime_id in
    let target_eq = runtime_target-eq {D = D} request.operation runtime_id target named in
    let owner = (λ (observed : Dict String). require_owned observed labels "network") in
    let run = rw (start_runtime, target_eq) at h in
    let (inspection, e, seen, run') = >>=-eq-returned (self.client.inspect_network name) _ run in
    let (action, e', ensured, ended) =
      >>=-eq-returned (ensure self owner name labels inspection) _ run' in
    let still = lawful.still name d in
    let moved : e ≡ d = cc in
    let same : e' ≡ d' = cc in
    let found : (self.client.inspect_network name d).0 ≡ returned inspection = cc in
    let done_at : ensure self owner name labels inspection d ≡ (returned action, d') = cc in
    let (i, shown, owned) =
      ensure-present self name labels owner inspection {action = action} {d = d} {d' = d'} lawful
        (require_owned_self labels) found done_at in
    rw (start_runtime, target_eq, shown, owned) refl
