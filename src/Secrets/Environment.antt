-- ===== src/Secrets/Environment.antt =====
-- What a run of the loop over secret deliveries (secrets.py) leaves behind when it returns.
use mathlib.Core.List.{append-nil, append_assoc}
use control_plane_kit_interp.Base.{
  String, ◌≡◌, refl, inl, inr, arith, List, [], ◌∷◌, ◌++◌, Option, none, some, ◌==◌, eq_iff,
  eq_refl, Option-cases, Bool-cases,
}
use control_plane_kit_interp.Base.Lists.{All, Any, Any-append_left, Any-append_right}
use control_plane_kit_interp.Base.Dict.{Dict, Extends, get, get-put}
use control_plane_kit_interp.Effect.{returned, Eff, lift}
use control_plane_kit_interp.Effect.Laws.{>>=-eq-returned}
use control_plane_kit_interp.Request.{
  Reference, Intent, Delivery, environment_delivery, reference_delivery, file_delivery,
}
use control_plane_kit_interp.Secrets.{
  Deliveries, SecretFile, put_environment, deliver, deliver_all, bind_path, add_variable,
}

put_environment-eq-returned :
    (values : Dict String) (name value : String) {values' : Dict String}
    → put_environment values name value ≡ returned values'
    → Extends values values' × (get name values' ≡ some value)
unfolding put_environment
put_environment-eq-returned values name value h = elim (Option-cases (get name values)) [
  | inl fresh ↦ (
    λ k v held. ground (arith, get-put name k value values, eq_iff name k),
    ground (arith, get-put name name value values, eq_refl name),
  )
  | inr (previous, bound) ↦ elim (Bool-cases (previous == value)) [
    | inl same ↦ (λ k v held. ground arith, ground (arith, eq_iff previous value))
    | inr other ↦ absurd (ground arith)
  ]
]

-- The accumulator has grown: its environment extends the old one, and its files are the old files and
-- more.
abbrev pub IsGrown : Deliveries → Deliveries → Type 0
IsGrown old new =
    Extends old.environment new.environment
    × (more : List SecretFile) × (new.files ≡ old.files ++ more)

module _ {D : Type 0} (resolve : Reference → Intent → Eff D String) where
  -- The resolver answered this value, at some moment, for the reference and the intent.
  abbrev Answered : Reference → Intent → String → Type 0
  Answered reference intent value =
      (d : D) × (d' : D) × (resolve reference intent d ≡ (returned value, d'))

  -- A file with what the delivery asks for.
  abbrev IsFileOf : String → Reference → Intent → String → SecretFile → Type 0
  IsFileOf target reference intent mode file =
      (file.target_path ≡ target)
      × (file.reference ≡ reference)
      × (file.file_mode ≡ mode)
      × Answered reference intent file.value

  abbrev IsBound : Dict String → Option String → String → Type 0
  IsBound environment none target = Unit
  IsBound environment (some name) target = get name environment ≡ some target

  -- The delivery took place: its variable has a value that the resolver answered, or the reference
  -- itself, or its file is there and the variable for its path has the path.
  abbrev pub IsDelivered : Deliveries → Delivery → Type 0
  IsDelivered acc (environment_delivery name reference intent) =
      (value : String) × Answered reference intent value × (get name acc.environment ≡ some value)
  IsDelivered acc (reference_delivery name reference) = get name acc.environment ≡ some reference
  IsDelivered acc (file_delivery target reference intent mode binding) =
      Any (IsFileOf target reference intent mode) acc.files × IsBound acc.environment binding target

  IsDelivered-mono :
      (old new : Deliveries) (delivery : Delivery)
      → IsGrown old new
      → IsDelivered old delivery
      → IsDelivered new delivery
  IsDelivered-mono old new (environment_delivery name reference intent) (ext, _, _)
        (value, a, held) =
      (value, a, ext name value held)
  IsDelivered-mono old new (reference_delivery name reference) (ext, _, _) held =
      ext name reference held
  IsDelivered-mono old new (file_delivery target reference intent mode none) (ext, more, e) (f, b) =
      (rw e (Any-append_left (IsFileOf target reference intent mode) old.files more f), tt)
  IsDelivered-mono old new (file_delivery target reference intent mode (some name)) (ext, more, e)
        (f, b) =
      (
        rw e (Any-append_left (IsFileOf target reference intent mode) old.files more f),
        ext name target b,
      )

  add_variable-eq-returned :
      (acc acc' : Deliveries) (name value : String) (d d' : D)
      → add_variable acc name value d ≡ (returned acc', d')
      → (acc'.files ≡ acc.files)
        × Extends acc.environment acc'.environment
        × (get name acc'.environment ≡ some value)
  add_variable-eq-returned acc acc' name value d d' h =
      let (environment, e, put_eq, rest) =
        >>=-eq-returned (lift (put_environment acc.environment name value)) _ h in
      let placed : put_environment acc.environment name value ≡ returned environment = cc in
      let made : record acc { environment = environment } ≡ acc' = cc in
      let (ext, held) = put_environment-eq-returned acc.environment name value placed in
      rw (← made) (refl, ext, held)

  bind_path-eq-returned :
      (acc acc' : Deliveries) (binding : Option String) (target : String) (d d' : D)
      → bind_path acc binding target d ≡ (returned acc', d')
      → (acc'.files ≡ acc.files)
        × Extends acc.environment acc'.environment
        × IsBound acc'.environment binding target
  bind_path-eq-returned acc acc' none target d d' h =
      let made : acc ≡ acc' = cc in rw (← made) (refl, λ k v held. held, tt)
  bind_path-eq-returned acc acc' (some name) target d d' h =
      add_variable-eq-returned acc acc' name target d d' h

  IsGrown-same :
      (old new : Deliveries)
      → new.files ≡ old.files
      → Extends old.environment new.environment
      → IsGrown old new
  IsGrown-same old new same ext = (ext, [], rw (same, append-nil) refl)

  deliver-IsDelivered :
      (acc acc' : Deliveries) (delivery : Delivery) (d d' : D)
      → deliver resolve acc delivery d ≡ (returned acc', d')
      → IsGrown acc acc' × IsDelivered acc' delivery
  unfolding deliver
  deliver-IsDelivered acc acc' (environment_delivery name reference intent) d d' h =
      let (value, e, answer, rest) = >>=-eq-returned (resolve reference intent) _ h in
      let (same, ext, held) = add_variable-eq-returned acc acc' name value e d' rest in
      (IsGrown-same acc acc' same ext, (value, (d, e, answer), held))
  deliver-IsDelivered acc acc' (reference_delivery name reference) d d' h =
      let (same, ext, held) = add_variable-eq-returned acc acc' name reference d d' h in
      (IsGrown-same acc acc' same ext, held)
  deliver-IsDelivered acc acc' (file_delivery target reference intent mode binding) d d' h =
      let (value, e, answer, rest) = >>=-eq-returned (resolve reference intent) _ h in
      let (same, ext, bound) = bind_path-eq-returned _ acc' binding target e d' rest in
      (
        (ext, _, same),
        (
          rw same (
              Any-append_right (IsFileOf target reference intent mode) acc.files _
                (inl (refl, refl, refl, (d, e, answer)))),
          bound,
        ),
      )

  IsGrown-trans : (a b c : Deliveries) → IsGrown a b → IsGrown b c → IsGrown a c
  IsGrown-trans a b c (ext, more, e) (ext', more', e') =
      (λ k v h. ext' k v (ext k v h), more ++ more', rw (e', e) (append_assoc a.files more more'))

  -- Each delivery of a run that returned took place, and no later delivery undid it or lost what was
  -- there before.
  pub deliver_all-IsDelivered :
      (acc acc' : Deliveries) (deliveries : List Delivery) (d d' : D)
      → deliver_all resolve acc deliveries d ≡ (returned acc', d')
      → IsGrown acc acc' × All (IsDelivered acc') deliveries
  unfolding deliver_all
  deliver_all-IsDelivered acc acc' [] d d' h =
      let made : acc ≡ acc' = cc in rw (← made) ((λ k v held. held, [], rw append-nil refl), tt)
  deliver_all-IsDelivered acc acc' (delivery ∷ rest) d d' h =
      let (next, e, first, later) = >>=-eq-returned (deliver resolve acc delivery) _ h in
      let (grown, done) = deliver-IsDelivered acc next delivery d e first in
      let (grown', all_done) = deliver_all-IsDelivered next acc' rest e d' later in
      (
        IsGrown-trans acc next acc' grown grown',
        (IsDelivered-mono next acc' delivery grown' done, all_done),
      )
