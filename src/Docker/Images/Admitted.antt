-- ===== src/Docker/Images/Admitted.antt =====
-- What `_admit_start_node_image` (docker/runtime.py) promises of the image that it returns.
use control_plane_kit_interp.Base.{
  String, Bool, true, ◌≡◌, inl, inr, arith, List, [], ◌∷◌, Option, none, some, ◌==◌, eq_iff,
  Bool-cases, Option-cases,
}
use control_plane_kit_interp.Base.Lists.{Any, any}
use control_plane_kit_interp.Effect.{returned, Eff, image_availability}
use control_plane_kit_interp.Effect.Laws.{>>=-eq-returned}
use control_plane_kit_interp.Request.{Material}
use control_plane_kit_interp.Docker.Sdk.{ImageInspection, AuthConfig}
use control_plane_kit_interp.Docker.Sdk.References.{
  matches_image_reference, permitted, mem_text, OciReference,
}
use control_plane_kit_interp.Docker.Interpreter.{Interpreter}
use control_plane_kit_interp.Docker.Interpreter.Calls.{provider_call-eq-returned}
use control_plane_kit_interp.Docker.Images.{
  inspect_or_pull, admit_start_node_image, available, admitted,
}

any-eq-true :
    {A : Type 0} (p : A → Bool) (P : A → Type 0) (xs : List A)
    → ((a : A) → p a ≡ true → P a)
    → any p xs ≡ true
    → Any P xs
any-eq-true p P [] f h = cc
any-eq-true p P (x ∷ xs) f h = elim (Bool-cases (p x)) [
  | inl it ↦ inl (f x it)
  | inr other ↦ inr (any-eq-true p P xs f (ground arith))
]

-- A spelling that the expected reference permits: the reference itself, or another spelling of an
-- official image, of what the constructor of Core makes of the parts.
abbrev pub Spells : (String → String → String → Option OciReference) → String → String → Type 0
Spells oci expected digest =
    (allowed : List String) × (permitted oci expected ≡ some allowed)
    × Any (λ spelling. digest ≡ spelling) allowed

matches-Spells :
    (oci : String → String → String → Option OciReference) (expected : String)
    (digests : List String)
    → matches_image_reference oci expected digests ≡ true
    → Any (Spells oci expected) digests
unfolding matches_image_reference
matches-Spells oci expected digests h = elim (Option-cases (permitted oci expected)) [
  | inl e ↦ absurd (ground arith)
  | inr (allowed, e) ↦
      any-eq-true (λ reference. mem_text reference allowed) (Spells oci expected) digests
        (λ digest m. (
          allowed,
          e,
          any-eq-true (λ t. digest == t) (λ t. digest ≡ t) allowed (λ t. (eq_iff digest t).0) m,
        ))
        (ground arith)
]

-- The image is what an inspection of the reference answered, before the state `d'`.
abbrev pub InspectedAs : {D : Type 0} → Interpreter D → String → ImageInspection → D → Type 0
InspectedAs {D} self reference image d' =
    (before : D) × (self.client.inspect_image reference before ≡ (returned (some image), d'))

module _ {D : Type 0} (self : Interpreter D) where
  call-eq-returned :
      {A : Type 0} (m : Eff D A) {a : A} {d d' : D}
      → available self m d ≡ (returned a, d')
      → m d ≡ (returned a, d')
  call-eq-returned m h = provider_call-eq-returned image_availability none m h

  inspect_or_pull-InspectedAs :
      (reference : String) (auth : Option AuthConfig) (image : ImageInspection) (d d' : D)
      → inspect_or_pull self reference auth d ≡ (returned (some image), d')
      → InspectedAs self reference image d'
  unfolding inspect_or_pull
  inspect_or_pull-InspectedAs reference auth image d d' h =
      let inspect = self.client.inspect_image reference in
      let (found, e, seen, rest) = >>=-eq-returned (available self inspect) _ h in
      elim (Option-cases found) [
        | inr (first, there) ↦
            let rest' = rw there at rest in
            let seen' = call-eq-returned inspect seen in
            let same : found ≡ some image = cc in let moved : e ≡ d' = cc in (d, cc)
        | inl missing ↦
            let rest' = rw missing at rest in
            let (_, e', pulled, again) =
              >>=-eq-returned (available self (self.client.pull_image reference auth)) _ rest' in
            (e', call-eq-returned inspect again)
      ]

  admitted-eq-returned :
      (reference : String) (found : Option ImageInspection) (e : D) (image : ImageInspection)
      (d' : D)
      → admitted self reference found e ≡ (returned image, d')
      → (found ≡ some image)
        × (e ≡ d')
        × (matches_image_reference self.oci reference image.repo_digests ≡ true)
  admitted-eq-returned reference none e image d' h = cc
  admitted-eq-returned reference (some found) e image d' h =
      elim (Bool-cases (matches_image_reference self.oci reference found.repo_digests)) [
        | inl fits ↦
            let h' = rw fits at h in let same : found ≡ image = cc in (cc, cc, rw (← same) fits)
        | inr unfit ↦ let h' = rw unfit at h in absurd cc
      ]

-- The image that is admitted is what an inspection of the declared reference answered in the course
-- of the call, and one of its repository digests spells that reference.
pub admit_start_node_image-eq-returned :
    {D : Type 0} (self : Interpreter D) (material : Material) (auth : Option AuthConfig)
    (image : ImageInspection) (d d' : D)
    → admit_start_node_image self material auth d ≡ (returned image, d')
    → Any (Spells self.oci material.image.execution_reference) image.repo_digests
      × InspectedAs self material.image.execution_reference image d'
unfolding admit_start_node_image
admit_start_node_image-eq-returned self material auth image d d' h =
    let reference = material.image.execution_reference in
    let (found, e, inspected, rest) = >>=-eq-returned (inspect_or_pull self reference auth) _ h in
    let (same, moved, fits) = admitted-eq-returned self reference found e image d' rest in
    let run : inspect_or_pull self reference auth d ≡ (returned (some image), d') = cc in
    (
      matches-Spells self.oci reference image.repo_digests fits,
      inspect_or_pull-InspectedAs self reference auth image d d' run,
    )
