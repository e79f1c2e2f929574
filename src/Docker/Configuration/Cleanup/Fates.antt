-- ===== src/Docker/Configuration/Cleanup/Fates.antt =====
-- What the row of a reference says of its volume.
use control_plane_kit_interp.Base.{true, ◌≡◌, inl, inr, arith, List, [], ◌∷◌}
use control_plane_kit_interp.Effect.{returned, raised}
use control_plane_kit_interp.Effect.Laws.{Outcome-cases}
use control_plane_kit_interp.Effect.Logged.{observed}
use control_plane_kit_interp.Docker.Names.{Hashing}
use control_plane_kit_interp.Docker.Configuration.{
  Instance, configuration_volume_name, require_configuration_owner,
}
use control_plane_kit_interp.Docker.Configuration.Cleanup.{
  Status, removed, already_absent, retained_in_use, refused, unknown, Fate, attempt, cleanup_one,
  remove_seen,
}
use control_plane_kit_interp.Docker.Configuration.Cleanup.Careful.{
  Event, saw_volume, saw_containers, volume_removed, traced, inspection-name,
}
use control_plane_kit_interp.Docker.Sdk.ConfigurationVolumes.{
  VolumeInspection, Volumes, configuration_volume_inspection, inspect_configuration_volume,
  configuration_volume_in_use, remove_configuration_volume,
}

-- No removal in the log returned.
abbrev pub NoneRemoved : List Event → Type 0
NoneRemoved [] = Unit
NoneRemoved (volume_removed name (returned _) ∷ past) = ⊥
NoneRemoved (_ ∷ past) = NoneRemoved past

module _ {D : Type 0} (h : Hashing) (docker : Volumes D) where
  -- The log of the calls for one reference bears out its fate. Removed: the removal returned, and then
  -- the volume was not found. Already absent: the only call did not find it. Refused: the only call
  -- described it. Retained: no
  -- removal returned.
  abbrev pub Shows : Instance → Status → List Event → Type 0
  Shows reference removed (saw_volume left (raised e) ∷ volume_removed gone (returned _) ∷ past) =
      (left ≡ configuration_volume_name h reference)
      × (gone ≡ configuration_volume_name h reference)
      × (docker.is_not_found e ≡ true)
  Shows reference removed _ = ⊥
  Shows reference already_absent (saw_volume name (raised e) ∷ []) =
      (name ≡ configuration_volume_name h reference) × (docker.is_not_found e ≡ true)
  Shows reference already_absent _ = ⊥
  Shows reference refused (saw_volume name (returned attrs) ∷ []) =
      name ≡ configuration_volume_name h reference
  Shows reference refused _ = ⊥
  Shows reference retained_in_use log = NoneRemoved log
  Shows reference unknown log = Unit

  remove_seen-Shows :
      (reference : Instance) (volume : VolumeInspection) (s : D × List Event) (fate : Fate)
      → volume.name ≡ configuration_volume_name h reference
      → NoneRemoved s.1
      → (remove_seen h (traced docker) reference volume s).0 ≡ returned fate
      → Shows reference fate.0 (remove_seen h (traced docker) reference volume s).1.1
  unfolding remove_seen inspect_configuration_volume remove_configuration_volume observed
  remove_seen-Shows reference volume s fate same kept ran = ground arith

  -- A fate is borne out by the calls: for a volume that is reported removed, the removal returned, and
  -- the volume was then looked for and not found; for one that is reported absent, refused or retained,
  -- no removal returned.
  pub attempt-Shows :
      (reference : Instance) (d : D)
      → Shows reference
          (attempt h (traced docker) reference (d, [])).0.0
          (attempt h (traced docker) reference (d, [])).1.1
  unfolding attempt cleanup_one inspect_configuration_volume configuration_volume_in_use
      require_configuration_owner observed
  attempt-Shows reference d =
      let name = configuration_volume_name h reference in
      elim (Outcome-cases (docker.get_volume name d).0) [
        | inr (e, failed) ↦ ground arith
        | inl (attrs, seen) ↦ elim (Outcome-cases (configuration_volume_inspection attrs name)) [
          | inr (e, invalid) ↦ ground arith
          | inl (volume, valid) ↦
              let s : D × List Event = (
                (docker.containers_with name (docker.get_volume name d).1).1,
                saw_containers name (docker.containers_with name (docker.get_volume name d).1).0
                    ∷ saw_volume name (returned attrs)
                    ∷ [],
              ) in
              elim (Outcome-cases (remove_seen h (traced docker) reference volume s).0) [
                | inr (e, failed) ↦ ground arith
                | inl (fate, ran) ↦
                    let same = inspection-name attrs name volume valid in
                    ground (arith, remove_seen-Shows reference volume s fate same)
              ]
        ]
      ]
