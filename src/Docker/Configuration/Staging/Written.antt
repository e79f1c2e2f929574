-- ===== src/Docker/Configuration/Staging/Written.antt =====
-- What `stage_configuration` writes, and what it saw before.
use control_plane_kit_interp.Base.{
  String, ℕ, suc, true, ◌≡◌, ◌⊎◌, inl, inr, arith, List, [], ◌∷◌, none, some,
}
use control_plane_kit_interp.Base.Dict.{Dict}
use control_plane_kit_interp.Base.Lists.{Any}
use control_plane_kit_interp.Effect.Laws.{Keeps, Keeps-bind}
use control_plane_kit_interp.Effect.Logged.{logged, observed, Always, Always-map}
use control_plane_kit_interp.Request.{Artifact}
use control_plane_kit_interp.Docker.Names.{Hashing}
use control_plane_kit_interp.Docker.Sdk.{Client}
use control_plane_kit_interp.Docker.Trace.{Event, Log, saw_volume, saw_file, volume_written, traced}
use control_plane_kit_interp.Docker.Configuration.{
  Instance, configuration_volume_name, configuration_volume_labels, has_labels,
  require_configuration_owner,
}
use control_plane_kit_interp.Docker.Configuration.Attempt.{Attempt}
use control_plane_kit_interp.Docker.Configuration.Staging.{
  stage_one, stage_from, stage_configuration, artifacts_by_id,
}

module _ (h : Hashing) where
  -- The last two calls before a file is written: the volume was there with the labels of the reference,
  -- and it held no file.
  abbrev pub IsEmptyVolume : Instance → String → Log → Type 0
  IsEmptyVolume reference name (saw_file looked none ∷ saw_volume seen (some volume) ∷ past) =
      (name ≡ configuration_volume_name h reference)
      × (looked ≡ name)
      × (seen ≡ name)
      × (has_labels h volume.labels (configuration_volume_labels h reference) ≡ true)
  IsEmptyVolume reference name _ = ⊥

-- What is asked of a write to a volume, and of nothing else.
abbrev pub Allows : (String → Log → Type 0) → Event → Log → Type 0
Allows Permitted (volume_written name) past = Permitted name past
Allows Permitted _ past = Unit

Allows-map :
    (P Q : String → Log → Type 0)
    → ((name : String) (log : Log) → P name log → Q name log)
    → (event : Event) (past : Log) → Allows P event past
    → Allows Q event past
Allows-map P Q f (volume_written name) past permitted = f name past permitted
Allows-map P Q f _ past permitted = tt

module _ {D : Type 0} (h : Hashing) (client : Client D) (artifacts : Dict Artifact) where
  -- To be an empty volume of `reference`, or to be permitted otherwise.
  abbrev OrEmpty : Instance → (String → Log → Type 0) → String → Log → Type 0
  OrEmpty reference P name past = IsEmptyVolume h reference name past ⊎ P name past

  stage_one-OrEmpty :
      (P : String → Log → Type 0) (index : ℕ) (reference : Instance) (d : D) (past : Log)
      (attempt : Attempt)
      → Always (Allows (OrEmpty reference P)) past
      → Always
          (Allows (OrEmpty reference P))
          (stage_one h (traced client) artifacts index reference ((d, past), attempt)).1.0.1
  unfolding stage_one require_configuration_owner logged observed
  stage_one-OrEmpty P index reference d past attempt known = ground arith

  stage_one-Keeps :
      (P : String → Log → Type 0) (index : ℕ) (reference : Instance)
      → ((name : String) (log : Log) → IsEmptyVolume h reference name log → P name log)
      → Keeps (λ s. Always (Allows P) s.0.1) (stage_one h (traced client) artifacts index reference)
  stage_one-Keeps P index reference permit = record {
    at = λ s known.
        Always-map (Allows (OrEmpty reference P)) (Allows P)
          (Allows-map (OrEmpty reference P) P
            (λ name log. elim [ inl empty ↦ permit name log empty | inr permitted ↦ permitted ]))
          (stage_one h (traced client) artifacts index reference s).1.0.1
          (stage_one-OrEmpty P index reference s.0.0 s.0.1 s.1 (
            Always-map (Allows P) (Allows (OrEmpty reference P))
              (Allows-map P (OrEmpty reference P) (λ name log. inr)) s.0.1 known));
  }

  stage_from-Keeps :
      (instances : List Instance) (P : String → Log → Type 0) (index : ℕ)
      → ((name : String) (log : Log)
          → Any (λ reference. IsEmptyVolume h reference name log) instances
          → P name log)
      → Keeps
          (λ s. Always (Allows P) s.0.1)
          (stage_from h (traced client) artifacts index instances)
  unfolding stage_from
  stage_from-Keeps [] P index permit = record { at = λ s known. known }
  stage_from-Keeps (reference ∷ rest) P index permit =
      Keeps-bind (λ s. Always (Allows P) s.0.1)
        (stage_one h (traced client) artifacts index reference) _
        (stage_one-Keeps P index reference (λ name log empty. permit name log (inl empty)))
        (λ mount.
          Keeps-bind (λ s. Always (Allows P) s.0.1)
            (stage_from h (traced client) artifacts (suc index) rest) _
            (stage_from-Keeps rest P (suc index) (λ name log other. permit name log (inr other)))
            (λ mounts. record { at = λ s known. known }))

-- Whatever the daemon answers, staging writes a file only into a volume of one of its references, and
-- right before each write it saw that volume with the labels of the reference, and then that there was
-- no file in it.
pub stage_configuration-writes_empty :
    {D : Type 0} (h : Hashing) (client : Client D) (artifacts : List Artifact)
    (instances : List Instance) (d : D) (attempt : Attempt)
    → Always
        (Allows (λ name past. Any (λ reference. IsEmptyVolume h reference name past) instances))
        (stage_configuration h (traced client) artifacts instances ((d, []), attempt)).1.0.1
unfolding stage_configuration
stage_configuration-writes_empty h client artifacts instances d attempt =
    (stage_from-Keeps h client (artifacts_by_id [] artifacts) instances _ 0
        (λ name log empty. empty)).at
      _ tt
