-- ===== src/Docker/Configuration/Cleanup.antt =====
-- docker/configuration_cleanup.py: the removal of the volumes of configurations that are given up.
pub mod Careful
pub mod Order
pub mod Fates
use control_plane_kit_interp.Base.{
  Bool, true, false, not, List, [], ◌∷◌, map, Option, none, some, if◌then◌else◌,
}
use control_plane_kit_interp.Effect.{
  Eff, pure, lift, catch, ◌>>=◌, ◌>>◌, Exc, Outcome, returned, raised, Check, volume_in_use,
}
use control_plane_kit_interp.Docker.Names.{Hashing}
use control_plane_kit_interp.Docker.Configuration.{
  Instance, configuration_volume_name, require_configuration_owner,
}
use control_plane_kit_interp.Docker.Sdk.ConfigurationVolumes.{
  VolumeInspection, Volumes, inspect_configuration_volume, configuration_volume_in_use,
  remove_configuration_volume,
}

-- `ConfigurationCleanupStatus` and `ConfigurationCleanupReason` of Core
pub data Status : Type 0 where
  removed already_absent retained_in_use refused unknown : Status

pub data Reason : Type 0 where
  authority_refused ownership_mismatch provenance_unproven in_use : Reason
  provider_uncertain not_attempted : Reason

abbrev pub Fate : Type 0
Fate = Status × Option Reason

-- `ConfigurationCleanupOutcome` of Core
abbrev pub Row : Type 0
Row = Instance × Fate

abbrev pub is_unknown : Status → Bool
is_unknown unknown = true
is_unknown _ = false

-- `refused_cleanup_authority`, whose rows Core's `configuration_cleanup_result` puts in a result
unfoldable pub refused_cleanup_authority : {A : Type 0} → (List Row → A) → List Instance → A
refused_cleanup_authority cleanup_result instances =
    cleanup_result (map (λ reference. (reference, (refused, some authority_refused))) instances)

module _ {D : Type 0} (h : Hashing) (docker : Volumes D) where
  abbrev pub if_absent : Option VolumeInspection → Fate
  if_absent none = (removed, none)
  if_absent (some _) = (unknown, some provider_uncertain)

  abbrev pub on_removal_error : Exc → Eff D (Option Fate)
  on_removal_error volume_in_use = pure (some (retained_in_use, some in_use))
  on_removal_error e = λ d. (raised e, d)

  -- From the removal on; the `except` covers the removal only.
  abbrev pub after_removal : Instance → Option Fate → Eff D Fate
  after_removal reference (some fate) = pure fate
  after_removal reference none =
      inspect_configuration_volume docker (configuration_volume_name h reference) >>= λ left.
      pure (if_absent left)

  unfoldable pub remove_seen : Instance → VolumeInspection → Eff D Fate
  remove_seen reference observed =
      catch (remove_configuration_volume docker observed >> pure none) on_removal_error
      >>= after_removal reference

  abbrev pub if_unused : Instance → VolumeInspection → Bool → Eff D Fate
  if_unused reference observed true = pure (retained_in_use, some in_use)
  if_unused reference observed false = remove_seen reference observed

  abbrev pub if_local : Instance → VolumeInspection → Bool → Eff D Fate
  if_local reference observed true =
      configuration_volume_in_use docker (configuration_volume_name h reference)
      >>= if_unused reference observed
  if_local reference observed false = pure (refused, some provenance_unproven)

  -- `require_configuration_owner` raises nothing but a conflict, which is caught
  abbrev pub if_owned : Instance → VolumeInspection → Check → Eff D Fate
  if_owned reference observed (returned _) = if_local reference observed observed.local_storage
  if_owned reference observed (raised _) = pure (refused, some ownership_mismatch)

  abbrev pub if_present : Instance → Option VolumeInspection → Eff D Fate
  if_present reference none = pure (already_absent, none)
  if_present reference (some observed) =
      if_owned reference observed (require_configuration_owner h (some observed.labels) reference)

  -- `_cleanup_one`
  unfoldable pub cleanup_one : Instance → Eff D Fate
  cleanup_one reference =
      inspect_configuration_volume docker (configuration_volume_name h reference)
      >>= if_present reference

  abbrev pub fate_of : Outcome Fate → Fate
  fate_of (returned fate) = fate
  fate_of (raised e) = (unknown, some provider_uncertain)

  -- One turn of the loop: `except Exception` takes every error.
  unfoldable pub attempt : Instance → D → Fate × D
  unfolding cleanup_one
  attempt reference d = (fate_of (cleanup_one reference d).0, (cleanup_one reference d).1)

  -- The loop of `cleanup_configuration`, with its variable `unknown`
  unfoldable pub cleanup_rows : Bool → List Instance → D → List Row × D
  unfolding attempt
  cleanup_rows stopped [] d = ([], d)
  cleanup_rows true (reference ∷ rest) d =
      let more = cleanup_rows true rest d in
      ((reference, (unknown, some not_attempted)) ∷ more.0, more.1)
  cleanup_rows false (reference ∷ rest) d =
      let now = attempt reference d in
      let more = cleanup_rows (is_unknown now.0.0) rest now.1 in
      ((reference, now.0) ∷ more.0, more.1)

  -- `cleanup_configuration`, whose rows Core's `configuration_cleanup_result` puts in a result
  unfoldable pub cleanup_configuration : {A : Type 0} → (List Row → A) → List Instance → D → A × D
  unfolding cleanup_rows
  cleanup_configuration cleanup_result instances d =
      let rows = cleanup_rows false instances d in (cleanup_result rows.0, rows.1)
