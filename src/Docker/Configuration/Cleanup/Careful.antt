-- ===== src/Docker/Configuration/Cleanup/Careful.antt =====
-- What `_cleanup_one` removes, and what it saw before: the calls of the `docker` package in a log.
use control_plane_kit_interp.Base.{
  String, Bool, true, false, ◌≡◌, ◌⊎◌, inl, inr, arith, List, [], ◌∷◌, Option, none, some,
}
use control_plane_kit_interp.Base.Json.{Json, as_array, as_object, is_text, member}
use control_plane_kit_interp.Base.Dict.{Dict}
use control_plane_kit_interp.Base.Lists.{Any}
use control_plane_kit_interp.Effect.{Outcome, returned}
use control_plane_kit_interp.Effect.Laws.{Outcome-cases, then-eq-returned}
use control_plane_kit_interp.Effect.Logged.{observed, Always, Always-map}
use control_plane_kit_interp.Docker.Names.{Hashing}
use control_plane_kit_interp.Docker.Configuration.{
  Instance, configuration_volume_name, configuration_volume_labels, has_labels,
  require_configuration_owner,
}
use control_plane_kit_interp.Docker.Configuration.Cleanup.{
  attempt, cleanup_configuration, cleanup_one, cleanup_rows, is_unknown, remove_seen,
}
use control_plane_kit_interp.Docker.Sdk.ConfigurationVolumes.{
  VolumeInspection, Volumes, inspection_of_attrs, snapshot, evident, texts_known, labels_of,
  options_known, configuration_volume_inspection, same_inspection, rows_in_use,
  inspect_configuration_volume, configuration_volume_in_use, remove_configuration_volume,
}

pub data Event : Type 0 where
  saw_volume saw_containers : String → Outcome Json → Event
  volume_removed : String → Outcome (Unit {0}) → Event

abbrev pub traced : {D : Type 0} → Volumes D → Volumes (D × List Event)
traced docker = record {
  get_volume = λ name. observed (saw_volume name) (docker.get_volume name);
  remove_volume = λ name. observed (volume_removed name) (docker.remove_volume name);
  containers_with = λ name. observed (saw_containers name) (docker.containers_with name);
  is_not_found = docker.is_not_found;
  is_conflict = docker.is_conflict;
}

module _ (h : Hashing) where
  -- The first of two descriptions shows a local volume that the reference owns, and the second is
  -- the same.
  abbrev pub IsClaimed : Instance → Outcome VolumeInspection → Outcome VolumeInspection → Type 0
  IsClaimed reference (returned seen) (returned again) =
      (has_labels h seen.labels (configuration_volume_labels h reference) ≡ true)
      × (seen.local_storage ≡ true)
      × (same_inspection again seen ≡ true)
  IsClaimed reference _ _ = ⊥

  -- The last three calls before a removal: a description of the volume, a search for containers that
  -- use it, which found none, and a second description.
  abbrev pub IsCleared : Instance → String → List Event → Type 0
  IsCleared reference name
        (saw_volume third (returned second)
          ∷ saw_containers searched (returned rows)
          ∷ saw_volume described (returned first)
          ∷ past) =
      (name ≡ configuration_volume_name h reference)
      × (third ≡ name)
      × (searched ≡ name)
      × (described ≡ name)
      × (rows_in_use name (as_array rows) ≡ returned false)
      × IsClaimed reference (configuration_volume_inspection first name)
          (configuration_volume_inspection second name)
  IsCleared reference name _ = ⊥

-- What is asked of a removal, and of nothing else.
abbrev pub Allows : (String → List Event → Type 0) → Event → List Event → Type 0
Allows Permitted (volume_removed name o) past = Permitted name past
Allows Permitted _ past = Unit

-- Every removal in the log is permitted by what stands before it.
abbrev pub IsCareful : (String → List Event → Type 0) → List Event → Type 0
IsCareful Permitted = Always (Allows Permitted)

inspection_of_attrs-name :
    (attrs : Option (Dict Json)) (name : String) (volume : VolumeInspection)
    → inspection_of_attrs attrs name ≡ returned volume
    → volume.name ≡ name
inspection_of_attrs-name none name volume h = cc
inspection_of_attrs-name (some attrs) name volume h =
    let (one, rest) = then-eq-returned (evident (is_text (member "Name" attrs) name)) _ h in
    let (two, rest) = then-eq-returned (evident (texts_known attrs)) _ rest in
    snapshot-name (labels_of (member "Labels" attrs)) rest
  where
    snapshot-name :
        (labels : Option (Dict String))
        → snapshot name attrs labels ≡ returned volume
        → volume.name ≡ name
    snapshot-name none h = cc
    snapshot-name (some labels) h =
        let (three, rest) =
          then-eq-returned (evident (options_known (member "Options" attrs))) _ h in
        cc

pub inspection-name :
    (attrs : Json) (name : String) (volume : VolumeInspection)
    → configuration_volume_inspection attrs name ≡ returned volume
    → volume.name ≡ name
unfolding configuration_volume_inspection
inspection-name attrs name volume h = inspection_of_attrs-name (as_object attrs) name volume h

Allows-map :
    (P Q : String → List Event → Type 0)
    → ((name : String) (log : List Event) → P name log → Q name log)
    → (event : Event) (past : List Event) → Allows P event past
    → Allows Q event past
Allows-map P Q f (volume_removed name o) past permitted = f name past permitted
Allows-map P Q f (saw_volume name o) past permitted = tt
Allows-map P Q f (saw_containers name o) past permitted = tt

IsCareful-map :
    (P Q : String → List Event → Type 0)
    → ((name : String) (log : List Event) → P name log → Q name log)
    → (log : List Event) → IsCareful P log
    → IsCareful Q log
IsCareful-map P Q f = Always-map (Allows P) (Allows Q) (Allows-map P Q f)

module _ {D : Type 0} (h : Hashing) (docker : Volumes D) where
  -- To clear volumes of `reference`, or to be permitted otherwise.
  abbrev OrCleared : Instance → (String → List Event → Type 0) → String → List Event → Type 0
  OrCleared reference P name past = IsCleared h reference name past ⊎ P name past

  -- The removal, after a description and a search that allow it.
  remove_seen-OrCleared :
      (P : String → List Event → Type 0) (reference : Instance) (attrs rows : Json)
      (volume : VolumeInspection) (d : D) (past : List Event)
      → configuration_volume_inspection attrs (configuration_volume_name h reference)
        ≡ returned volume
      → has_labels h volume.labels (configuration_volume_labels h reference) ≡ true
      → volume.local_storage ≡ true
      → rows_in_use (configuration_volume_name h reference) (as_array rows) ≡ returned false
      → IsCareful (OrCleared reference P) past
      → IsCareful
          (OrCleared reference P)
          (remove_seen h (traced docker) reference volume (
            d,
            saw_containers (configuration_volume_name h reference) (returned rows)
                ∷ saw_volume (configuration_volume_name h reference) (returned attrs)
                ∷ past,
          )).1.1
  unfolding remove_seen inspect_configuration_volume remove_configuration_volume observed
  remove_seen-OrCleared P reference attrs rows volume d past valid owned local unused careful =
      let same = inspection-name attrs (configuration_volume_name h reference) volume valid in
      elim (Outcome-cases (docker.get_volume volume.name d).0) [
        | inr (e, failed) ↦ ground arith
        | inl (again, seen) ↦
            elim (Outcome-cases (configuration_volume_inspection again volume.name)) [
              | inr (e, invalid) ↦ ground arith
              | inl (second, found) ↦ ground arith
            ]
      ]

  attempt-OrCleared :
      (P : String → List Event → Type 0) (reference : Instance) (d : D) (past : List Event)
      → IsCareful (OrCleared reference P) past
      → IsCareful (OrCleared reference P) (attempt h (traced docker) reference (d, past)).1.1
  unfolding attempt cleanup_one inspect_configuration_volume configuration_volume_in_use
      require_configuration_owner observed
  attempt-OrCleared P reference d past careful =
      let name = configuration_volume_name h reference in
      elim (Outcome-cases (docker.get_volume name d).0) [
        | inr (e, failed) ↦ ground arith
        | inl (attrs, seen) ↦ elim (Outcome-cases (configuration_volume_inspection attrs name)) [
          | inr (e, invalid) ↦ ground arith
          | inl (volume, valid) ↦
              elim (Outcome-cases (docker.containers_with name (docker.get_volume name d).1).0) [
                | inr (e, failed) ↦ ground arith
                | inl (rows, found) ↦
                    let removal =
                      remove_seen-OrCleared P reference attrs rows volume
                        (docker.containers_with name (docker.get_volume name d).1).1 past valid in
                    ground (arith, removal)
              ]
        ]
      ]

  attempt-IsCareful :
      (P : String → List Event → Type 0) (reference : Instance) (s : D × List Event)
      → ((name : String) (log : List Event) → IsCleared h reference name log → P name log)
      → IsCareful P s.1
      → IsCareful P (attempt h (traced docker) reference s).1.1
  attempt-IsCareful P reference (d, past) permit careful =
      IsCareful-map (OrCleared reference P) P
        (λ name log. elim [ inl cleared ↦ permit name log cleared | inr permitted ↦ permitted ])
        (attempt h (traced docker) reference (d, past)).1.1
        (attempt-OrCleared P reference d past
          (IsCareful-map P (OrCleared reference P) (λ name log. inr) past careful))

  rows-IsCareful :
      (instances : List Instance) (P : String → List Event → Type 0) (stopped : Bool)
      (s : D × List Event)
      → ((name : String) (log : List Event)
          → Any (λ reference. IsCleared h reference name log) instances
          → P name log)
      → IsCareful P s.1
      → IsCareful P (cleanup_rows h (traced docker) stopped instances s).1.1
  unfolding cleanup_rows
  rows-IsCareful [] P stopped s permit careful = careful
  rows-IsCareful (reference ∷ rest) P true s permit careful =
      rows-IsCareful rest P true s (λ name log other. permit name log (inr other)) careful
  rows-IsCareful (reference ∷ rest) P false s permit careful =
      let now = attempt h (traced docker) reference s in
      rows-IsCareful rest P (is_unknown now.0.0) now.1
        (λ name log other. permit name log (inr other))
        (attempt-IsCareful P reference s (λ name log cleared. permit name log (inl cleared))
          careful)

  -- Whatever the daemon answers, a cleanup removes only volumes of its references, and right before
  -- each removal it saw the volume with the labels of the reference, on local storage, then no container
  -- that uses it, and then the same volume again.
  pub cleanup_configuration-IsCareful :
      (instances : List Instance) (d : D)
      → IsCareful
          (λ name past. Any (λ reference. IsCleared h reference name past) instances)
          (cleanup_configuration h (traced docker) (λ rows. rows) instances (d, [])).1.1
  unfolding cleanup_configuration
  cleanup_configuration-IsCareful instances d =
      rows-IsCareful instances
        (λ name past. Any (λ reference. IsCleared h reference name past) instances) false (d, [])
        (λ name log cleared. cleared) tt
