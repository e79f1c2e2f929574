-- ===== src/Docker/Configuration/Node/Replaced.antt =====
-- How `_configuration_node` (docker/runtime.py) removes an earlier container.
use control_plane_kit_interp.Base.{String, Bool, true, false, ◌≡◌, arith, ◌∷◌, none, some}
use control_plane_kit_interp.Effect.{Eff, Outcome, returned, raised}
use control_plane_kit_interp.Effect.Logged.{logged, observed, Always}
use control_plane_kit_interp.Request.{Request, Material}
use control_plane_kit_interp.Docker.Sdk.{Inspection}
use control_plane_kit_interp.Docker.Interpreter.{Interpreter}
use control_plane_kit_interp.Docker.Trace.{
  Event, Log, saw_container, container_removed, traced_interpreter,
}
use control_plane_kit_interp.Docker.Configuration.Attempt.{Attempt}
use control_plane_kit_interp.Docker.Configuration.Evidence.{Core}
use control_plane_kit_interp.Docker.Configuration.Node.Install.{remove_earlier}

-- Right before the removal of a container, the container of that identity was seen, and it equals the
-- one that was admitted.
abbrev pub IsSame : Core → Inspection → String → Event → Log → Type 0
IsSame core inspection identity (container_removed name)
      (saw_container seen (some current) ∷ past) =
    (name ≡ identity) × (seen ≡ identity) × (core.equal_inspections current inspection ≡ true)
IsSame core inspection identity (container_removed name) past = ⊥
IsSame core inspection identity event past = Unit

-- The container of that identity was removed, by a call of that identity, and then was not there.
abbrev pub IsGone : String → Log → Type 0
IsGone identity (saw_container seen none ∷ container_removed name ∷ past) =
    (seen ≡ identity) × (name ≡ identity)
IsGone identity log = ⊥

-- A removal that returned is recorded, and the container is gone; one that raised is not recorded.
abbrev pub IsRecorded : String → Outcome (Unit {0}) → Bool → Log → Type 0
IsRecorded identity (returned _) recorded log = (recorded ≡ true) × IsGone identity log
IsRecorded identity (raised e) recorded log = recorded ≡ false

module _ {D : Type 0} (self : Interpreter D) (core : Core) (request : Request) (material : Material)
    (inspection : Inspection) (identity : String) (same : Bool) where
  -- The removal of the earlier container, with the calls in the log.
  abbrev pub removal : Eff ((D × Log) × Attempt) (Unit {0})
  removal =
      remove_earlier (traced_interpreter self) core request material
        (some (inspection, (identity, same)))

  -- Whatever the daemon answers, only the container of the given identity is removed, right after it
  -- was seen unchanged; and the attempt records the removal exactly when the step returns, after the
  -- container was seen to be gone.
  pub remove_earlier-IsSame :
      (d : D) (past : Log) (a : Attempt)
      → a.old_removed ≡ false
      → Always (IsSame core inspection identity) past
      → Always (IsSame core inspection identity) (removal ((d, past), a)).1.0.1
        × IsRecorded identity
            (removal ((d, past), a)).0
            (removal ((d, past), a)).1.1.old_removed
            (removal ((d, past), a)).1.0.1
  unfolding remove_earlier logged observed
  remove_earlier-IsSame d past a before known = ground arith
