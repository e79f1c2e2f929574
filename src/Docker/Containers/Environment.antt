-- ===== src/Docker/Containers/Environment.antt =====
-- When the parts of a container's environment merge (docker/runtime.py, `_container_environment`).
use control_plane_kit_interp.Base.{
  String, ◌≡◌, ◌⊎◌, refl, inl, inr, arith, List, [], ◌∷◌, none, some, ◌==◌, eq_iff, eq_refl,
  Option-cases, Bool-cases,
}
use control_plane_kit_interp.Base.Lists.{All}
use control_plane_kit_interp.Base.Dict.{Dict, Extends, get, put, get-put}
use control_plane_kit_interp.Effect.{returned, raised, Exc, precondition}
use control_plane_kit_interp.Effect.Laws.{Outcome-cases}
use control_plane_kit_interp.Docker.Containers.{merge_part, merge_parts, container_environment}

-- The environment has each binding of the part.
abbrev pub HasPart : Dict String → Dict String → Type 0
HasPart values part = All (λ (b : String × String). get b.0 values ≡ some b.1) part

HasPart-mono : (old new part : Dict String) → Extends old new → HasPart old part → HasPart new part
HasPart-mono old new [] ext h = tt
HasPart-mono old new ((k, v) ∷ part) ext (h, hs) = (ext k v h, HasPart-mono old new part ext hs)

Extends-put :
    (values : Dict String) (name value : String)
    → get name values ≡ none
    → Extends values (put name value values)
Extends-put values name value fresh k v held =
    ground (arith, get-put name k value values, eq_iff name k)

Extends-put_in :
    (values all : Dict String) (name value : String)
    → get name all ≡ some value
    → Extends values all
    → Extends (put name value values) all
Extends-put_in values all name value bound ext k v held = elim (Bool-cases (name == k)) [
  | inl same ↦
      let held' = rw (get-put, same) at held in
      let here : get k all ≡ some value = rw (← (eq_iff name k).0 same) bound in cc
  | inr other ↦ ext k v (rw (get-put, other) at held)
]

merge_part-HasPart :
    (values part : Dict String) {values' : Dict String}
    → merge_part values part ≡ returned values'
    → Extends values values' × HasPart values' part
unfolding merge_part
merge_part-HasPart values [] {values'} h =
    let same : values ≡ values' = cc in rw (← same) (λ k v held. held, tt)
merge_part-HasPart values ((name, value) ∷ part) {values'} h =
    elim (Option-cases (get name values)) [
      | inl fresh ↦
          let (ext, has) =
            merge_part-HasPart (put name value values) part (rw (merge_part, fresh) at h) in
          (
            λ k v held. ext k v (Extends-put values name value fresh k v held),
            (ext name value (ground (arith, get-put name name value values, eq_refl name)), has),
          )
      | inr (previous, bound) ↦ elim (Bool-cases (previous == value)) [
        | inl same ↦
            let (ext, has) = merge_part-HasPart values part (rw (merge_part, bound, same) at h) in
            (ext, (ext name value (ground (arith, eq_iff previous value)), has))
        | inr other ↦ let h' = rw (merge_part, bound, other) at h in absurd cc
      ]
    ]

merged-first :
    (values part : Dict String) (parts : List (Dict String)) {values' : Dict String}
    → merge_parts values (part ∷ parts) ≡ returned values'
    → (next : Dict String) × (merge_part values part ≡ returned next)
      × (merge_parts next parts ≡ returned values')
unfolding merge_parts
merged-first values part parts h = elim (Outcome-cases (merge_part values part)) [
  | inl (next, e) ↦ (next, e, rw (merge_parts, e) at h)
  | inr (x, e) ↦ let h' = rw (merge_parts, e) at h in absurd cc
]

merge_parts-HasPart :
    (values : Dict String) (parts : List (Dict String)) {values' : Dict String}
    → merge_parts values parts ≡ returned values'
    → Extends values values' × All (HasPart values') parts
unfolding merge_parts
merge_parts-HasPart values [] {values'} h =
    let same : values ≡ values' = cc in rw (← same) (λ k v held. held, tt)
merge_parts-HasPart values (part ∷ parts) {values'} h =
    let (next, merged, rest) = merged-first values part parts h in
    let (ext, has) = merge_part-HasPart values part merged in
    let (ext', all_has) = merge_parts-HasPart next parts rest in
    (λ k v held. ext' k v (ext k v held), (HasPart-mono next values' part ext' has, all_has))

merge_part-returns :
    (values all part : Dict String)
    → Extends values all
    → HasPart all part
    → (values' : Dict String) × (merge_part values part ≡ returned values') × Extends values' all
unfolding merge_part
merge_part-returns values all [] ext h = (values, refl, ext)
merge_part-returns values all ((name, value) ∷ part) ext (bound, h) =
    elim (Option-cases (get name values)) [
      | inl fresh ↦
          rw (merge_part, fresh)
            (merge_part-returns (put name value values) all part
              (Extends-put_in values all name value bound ext) h)
      | inr (previous, held) ↦
          let seen = ext name previous held in
          let same : previous ≡ value = cc in
          rw (merge_part, held, same, eq_refl) (merge_part-returns values all part ext h)
    ]

merge_parts-returns :
    (values all : Dict String) (parts : List (Dict String))
    → Extends values all
    → All (HasPart all) parts
    → (values' : Dict String) × (merge_parts values parts ≡ returned values')
unfolding merge_parts
merge_parts-returns values all [] ext h = (values, refl)
merge_parts-returns values all (part ∷ parts) ext (h, hs) =
    let (next, merged, ext') = merge_part-returns values all part ext h in
    rw (merge_parts, merged) (merge_parts-returns next all parts ext' hs)

-- The error of `_container_environment` where two parts bind a name to different values
abbrev pub binding_conflict : Exc
binding_conflict =
    precondition "docker.environment-binding-conflict" "container environment bindings conflict"

merge_part-eq-raised :
    (values part : Dict String) (e : Exc) → merge_part values part ≡ raised e → e ≡ binding_conflict
unfolding merge_part
merge_part-eq-raised values [] e h = absurd (ground arith)
merge_part-eq-raised values ((name, value) ∷ part) e h = elim (Option-cases (get name values)) [
  | inl fresh ↦ merge_part-eq-raised (put name value values) part e (rw (merge_part, fresh) at h)
  | inr (previous, bound) ↦ elim (Bool-cases (previous == value)) [
    | inl same ↦ merge_part-eq-raised values part e (rw (merge_part, bound, same) at h)
    | inr other ↦ let h' = rw (merge_part, bound, other) at h in ground arith
  ]
]

merge_parts-eq-raised :
    (values : Dict String) (parts : List (Dict String)) (e : Exc)
    → merge_parts values parts ≡ raised e
    → e ≡ binding_conflict
unfolding merge_parts
merge_parts-eq-raised values [] e h = absurd (ground arith)
merge_parts-eq-raised values (part ∷ parts) e h = elim (Outcome-cases (merge_part values part)) [
  | inl (next, merged) ↦ merge_parts-eq-raised next parts e (rw (merge_parts, merged) at h)
  | inr (x, failed) ↦
      let h' = rw (merge_parts, failed) at h in merge_part-eq-raised values part e (cc (failed, h'))
]

-- An environment that `_container_environment` returns has each binding of each part.
pub container_environment-eq-returned :
    (parts : List (Dict String)) (values : Dict String)
    → container_environment parts ≡ returned values
    → All (HasPart values) parts
unfolding container_environment
container_environment-eq-returned parts values h = (merge_parts-HasPart [] parts h).1

-- `_container_environment` of any parts either returns an environment that has each binding of each
-- part, or raises its conflict, and then no environment at all has each of them.
pub container_environment_cases :
    (parts : List (Dict String))
    → ((values : Dict String) × (container_environment parts ≡ returned values)
        × All (HasPart values) parts)
      ⊎ ((container_environment parts ≡ raised binding_conflict)
          × (¬ ((values : Dict String) × All (HasPart values) parts)))
unfolding container_environment
container_environment_cases parts = elim (Outcome-cases (merge_parts [] parts)) [
  | inl (values, run) ↦ inl (values, run, (merge_parts-HasPart [] parts run).1)
  | inr (e, failed) ↦ inr (
    rw (← merge_parts-eq-raised [] parts e failed) failed,
    λ agreed.
        let (values, run) =
          merge_parts-returns [] agreed.0 parts (λ k v held. absurd cc) agreed.1 in
        absurd (cc (run, failed)),
  )
]
