-- ===== src/Docker/Sdk/ConfigurationVolumes.antt =====
-- The methods of `DockerSdkClient` for the volumes of configurations (docker/sdk.py), over the calls
-- of the `docker` package that they make: what the daemon answers is decoded and checked here.
use Prim.Native.String.{count}
use control_plane_kit_interp.Base.{
  String, Bool, true, false, not, ◌&&◌, List, [], ◌∷◌, Option, none, some, ◌==◌, leb, if◌then◌else◌,
}
use control_plane_kit_interp.Base.Dict.{Dict, dict_eq}
use control_plane_kit_interp.Base.Json.{
  Json, null, object, as_object, as_array, as_text, as_texts, member, members, is_text, is_null,
}
use control_plane_kit_interp.Base.Lists.{length, all, any}
use control_plane_kit_interp.Base.Text.{all_chars}
use control_plane_kit_interp.Effect.{
  Eff, pure, raise, lift, catch, ◌>>=◌, ◌>>◌, Exc, Outcome, returned, raised, Check, require,
  ◌then◌, configuration_evidence, volume_in_use,
}
use control_plane_kit_interp.Docker.Sdk.References.{is_hex64}
use Prim.Native.Char.{code}
use control_plane_kit_interp.Base.{beq}

-- `DockerSdkConfigurationVolumeInspection`
pub record VolumeInspection : Type 0 where
  pub name : String
  pub created_at : String
  pub labels : Dict String
  pub local_storage : Bool

-- The `docker` package: `volumes.get(name)`, by the attributes of what it answers, `volume.remove`
-- without force, and `api.containers` of all containers with the volume, at most one of them. The two
-- tests tell its class `NotFound`, and `APIError` with the status 409, from other exceptions.
pub record Volumes (D : Type 0) : Type 0 where
  pub get_volume : String → Eff D Json
  pub remove_volume : String → Eff D (Unit {0})
  pub containers_with : String → Eff D Json
  pub is_not_found : Exc → Bool
  pub is_conflict : Exc → Bool

-- `_invalid_configuration_evidence`
abbrev pub evident : Bool → Check
evident holds = require holds configuration_evidence

-- A text of 1 to 128 characters, none of them NUL.
abbrev is_name_text : Option String → Bool
is_name_text none = false
is_name_text (some s) =
    leb 1 (count s) && leb (count s) 128 && all_chars (λ c. not (beq (code c) 0)) s

abbrev short_labels : Dict String → Bool
short_labels [] = true
short_labels ((k, v) ∷ d) = leb (count k) 512 && leb (count v) 512 && short_labels d

-- The labels of a volume: a dict of texts within the bounds, or nothing.
abbrev bounded_labels : Option (Dict String) → Option (Dict String)
bounded_labels none = none
bounded_labels (some d) = if leb (length d) 128 && short_labels d then some d else none

unfoldable pub labels_of : Json → Option (Dict String)
unfolding members as_texts
labels_of null = some []
labels_of (object fs) = bounded_labels (as_texts (members fs))
labels_of _ = none

-- Whether `Options` is `None` or a dict, and whether it is empty.
unfoldable pub options_known : Json → Bool
options_known null = true
options_known (object fs) = true
options_known _ = false

unfoldable pub options_empty : Json → Bool
unfolding members
options_empty null = true
options_empty (object fs) = elim (members fs) [ [] ↦ true | _ ∷ _ ↦ false ]
options_empty _ = false

unfoldable pub texts_known : Dict Json → Bool
unfolding member as_text all_chars
texts_known attrs =
    all (λ key. is_name_text (as_text (member key attrs)))
      ("Name" ∷ "CreatedAt" ∷ "Driver" ∷ "Scope" ∷ [])

-- `attrs[key]` of a text
abbrev text_or : Option String → String
text_or none = ""
text_or (some s) = s

unfoldable pub is_local : Dict Json → Bool
unfolding member is_text is_null options_empty
is_local attrs =
    is_text (member "Driver" attrs) "local"
    && is_text (member "Scope" attrs) "local"
    && options_empty (member "Options" attrs)
    && is_null (member "ClusterVolume" attrs)

abbrev pub snapshot : String → Dict Json → Option (Dict String) → Outcome VolumeInspection
snapshot name attrs none = raised configuration_evidence
snapshot name attrs (some labels) =
    evident (options_known (member "Options" attrs))
    then returned (record {
      name = name;
      created_at = text_or (as_text (member "CreatedAt" attrs));
      labels = labels;
      local_storage = is_local attrs;
    })

abbrev pub inspection_of_attrs : Option (Dict Json) → String → Outcome VolumeInspection
inspection_of_attrs none name = raised configuration_evidence
inspection_of_attrs (some attrs) name =
    evident (is_text (member "Name" attrs) name)
    then evident (texts_known attrs)
    then snapshot name attrs (labels_of (member "Labels" attrs))

-- `_configuration_volume_inspection`
unfoldable pub configuration_volume_inspection : Json → String → Outcome VolumeInspection
unfolding as_object
configuration_volume_inspection attrs name = inspection_of_attrs (as_object attrs) name

-- `==` of two inspections
unfoldable pub same_inspection : VolumeInspection → VolumeInspection → Bool
unfolding dict_eq
same_inspection a b =
    (a.name == b.name)
    && (a.created_at == b.created_at)
    && dict_eq a.labels b.labels
    && (if a.local_storage then b.local_storage else not b.local_storage)

-- The row of `configuration_volume_in_use`: a container with an identity that has the volume mounted.
abbrev pub is_mount_of : String → Option (Dict Json) → Bool
unfolding member is_text
is_mount_of name none = false
is_mount_of name (some mount) =
    is_text (member "Type" mount) "volume" && is_text (member "Name" mount) name

unfoldable pub mounts_volume : String → Option (List Json) → Bool
unfolding as_object
mounts_volume name none = false
mounts_volume name (some mounts) =
    leb (length mounts) 256 && any (λ mount. is_mount_of name (as_object mount)) mounts

abbrev pub is_identity : Option String → Bool
is_identity none = false
is_identity (some identity) = is_hex64 identity

unfoldable pub is_row_of : String → Option (Dict Json) → Bool
unfolding member as_text as_array mounts_volume is_hex64
is_row_of name none = false
is_row_of name (some row) =
    is_identity (as_text (member "Id" row)) && mounts_volume name (as_array (member "Mounts" row))

unfoldable pub rows_in_use : String → Option (List Json) → Outcome Bool
unfolding as_object is_row_of
rows_in_use name none = raised configuration_evidence
rows_in_use name (some []) = returned false
rows_in_use name (some (row ∷ [])) = evident (is_row_of name (as_object row)) then returned true
rows_in_use name (some (_ ∷ _ ∷ _)) = raised configuration_evidence

module _ {D : Type 0} (docker : Volumes D) where
  -- `None` for a volume that is not found
  abbrev pub or_none : Exc → Eff D (Option VolumeInspection)
  or_none e = if docker.is_not_found e then pure none else raise e

  -- `inspect_configuration_volume`
  abbrev pub decode : String → Json → Outcome (Option VolumeInspection)
  decode name attrs = elim (configuration_volume_inspection attrs name) [
    | returned i ↦ returned (some i)
    | raised e ↦ raised e
  ]

  abbrev pub found : String → Outcome Json → Eff D (Option VolumeInspection)
  found name (returned attrs) = lift (decode name attrs)
  found name (raised e) = or_none e

  unfoldable pub inspect_configuration_volume : String → Eff D (Option VolumeInspection)
  inspect_configuration_volume name d =
      found name (docker.get_volume name d).0 (docker.get_volume name d).1

  -- `configuration_volume_in_use`
  unfoldable pub configuration_volume_in_use : String → Eff D Bool
  configuration_volume_in_use name =
      docker.containers_with name >>= λ rows. lift (rows_in_use name (as_array rows))

  -- `remove_configuration_volume`
  unfoldable pub remove_configuration_volume : VolumeInspection → Eff D (Unit {0})
  remove_configuration_volume expected =
      lift (evident expected.local_storage)
      >> docker.get_volume expected.name
      >>= (λ attrs. lift (configuration_volume_inspection attrs expected.name))
      >>= (λ seen. lift (evident (same_inspection seen expected)))
      >> catch (docker.remove_volume expected.name)
          (λ e. if docker.is_conflict e then raise volume_in_use else raise e)
