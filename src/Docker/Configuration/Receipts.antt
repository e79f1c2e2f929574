-- ===== src/Docker/Configuration/Receipts.antt =====
-- What an attempt proves of the container that it leaves: the fingerprints of the containers before
-- and after it, and the receipts (docker/configuration.py, from `_container_incarnation_fingerprint`).
use control_plane_kit_interp.Base.{
  String, Bool, true, false, not, ◌&&◌, ◌≡◌, ◌==◌, arith, eq_iff, [], ◌∷◌, Option, none, some,
  text_eq?, is_none, if◌then◌else◌,
}
use control_plane_kit_interp.Effect.{Outcome, returned, raised, observation_unknown}
use control_plane_kit_interp.Docker.Names.{Hashing, Scalar}
use control_plane_kit_interp.Docker.Sdk.ConfigurationVolumes.{is_identity}
use control_plane_kit_interp.Docker.Configuration.Attempt.{
  Attempt, Disposition, created, reused, replaced,
}

-- disposition, prior and current fingerprint
abbrev pub IncarnationFields : Type 0
IncarnationFields = Disposition × Option String × String

module _ (h : Hashing) where
  -- the fingerprint of a text that is an identity
  abbrev pub fingerprint_of : String → String
  fingerprint_of identity = h.sha256 (
      h.utf8 (
        h.json_object (
          ("profile", Scalar.text "docker-container-incarnation.v1")
          ∷ ("provider", Scalar.text "docker")
          ∷ ("resource_kind", Scalar.text "container")
          ∷ ("container_id", Scalar.text identity)
          ∷ [])))

  -- `_container_incarnation_fingerprint`
  unfoldable pub container_incarnation_fingerprint : Option String → Outcome String
  container_incarnation_fingerprint none = raised observation_unknown
  container_incarnation_fingerprint (some identity) =
      if is_identity (some identity)
      then returned (fingerprint_of identity)
      else raised observation_unknown

  -- The three dispositions, by what the attempt knows of the old and the new container.
  unfoldable pub disposition_of : Option String → Option String → Bool → Outcome Disposition
  disposition_of old new removed =
      if is_none old && not removed
      then returned created
      else if text_eq? old new && not removed
      then returned reused
      else if not (is_none old) && not (text_eq? old new) && removed
      then returned replaced
      else raised observation_unknown

  abbrev prior_fingerprint : Option String → Outcome (Option String)
  prior_fingerprint none = returned none
  prior_fingerprint (some old) = elim (container_incarnation_fingerprint (some old)) [
    | returned fingerprint ↦ returned (some fingerprint)
    | raised e ↦ raised e
  ]

  abbrev all_fields :
      Outcome String → Outcome (Option String) → Outcome Disposition → Outcome IncarnationFields
  all_fields (returned current) (returned prior) (returned disposition) =
      returned (disposition, prior, current)
  all_fields (returned current) (returned prior) (raised e) = raised e
  all_fields (returned current) (raised e) disposition = raised e
  all_fields (raised e) prior disposition = raised e

  -- `_incarnation_fields`, of the four attributes that it reads
  unfoldable pub fields_of : Bool → Option String → Option String → Bool → Outcome IncarnationFields
  unfolding container_incarnation_fingerprint disposition_of
  fields_of unknown new old removed =
      if unknown
      then raised observation_unknown
      else all_fields (container_incarnation_fingerprint new) (prior_fingerprint old)
          (disposition_of old new removed)

  unfoldable pub incarnation_fields : Attempt → Outcome IncarnationFields
  unfolding fields_of
  incarnation_fields a =
      fields_of a.unknown_created_resource a.container_id a.old_container_id a.old_removed

  -- What the fields of a receipt say of the container before, which may have been removed.
  abbrev pub Says : Disposition → Option String → Bool → Option String → String → Type 0
  Says created old removed prior new = (old ≡ none) × (removed ≡ false) × (prior ≡ none)
  Says reused old removed prior new =
      (old ≡ some new) × (removed ≡ false) × (prior ≡ some (fingerprint_of new))
  Says replaced none removed prior new = ⊥
  Says replaced (some old) removed prior new =
      (is_identity (some old) ≡ true)
      × ((old == new) ≡ false)
      × (removed ≡ true)
      × (prior ≡ some (fingerprint_of old))

  -- The container after, with its identity.
  abbrev pub IsKnown :
      Disposition → Option String → Option String → Bool → Option String → String → Type 0
  IsKnown disposition none old removed prior current = ⊥
  IsKnown disposition (some new) old removed prior current =
      (is_identity (some new) ≡ true)
      × (current ≡ fingerprint_of new)
      × Says disposition old removed prior new

  fields_of-eq-returned :
      (unknown : Bool) (new old : Option String) (removed : Bool) (disposition : Disposition)
      (prior : Option String) (current : String)
      → fields_of unknown new old removed ≡ returned (disposition, prior, current)
      → (unknown ≡ false) × IsKnown disposition new old removed prior current
  unfolding fields_of
  fields_of-eq-returned unknown none old removed disposition prior current h' = ground arith
  fields_of-eq-returned unknown (some new) none removed disposition prior current h' = ground arith
  fields_of-eq-returned unknown (some new) (some old) removed disposition prior current h' =
      ground (arith, eq_iff old new)

  -- The fields of a receipt are those of an attempt that knows its container by a canonical identity
  -- and left nothing unknown: `created` without an earlier container, `reused` for the same one, and
  -- `replaced` only for another one that was removed, with its fingerprint.
  pub incarnation_fields-eq-returned :
      (a : Attempt) (disposition : Disposition) (prior : Option String) (current : String)
      → incarnation_fields a ≡ returned (disposition, prior, current)
      → (a.unknown_created_resource ≡ false)
        × IsKnown disposition a.container_id a.old_container_id a.old_removed prior current
  unfolding incarnation_fields
  incarnation_fields-eq-returned a disposition prior current h' =
      fields_of-eq-returned a.unknown_created_resource a.container_id a.old_container_id
        a.old_removed disposition prior current h'
