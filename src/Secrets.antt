-- ===== src/Secrets.antt =====
-- secrets.py: the deliveries of a product's secrets are resolved to an environment and to files.
pub mod Environment
pub mod Grants
pub mod Selected
use control_plane_kit_interp.Base.{
  ℕ, String, Bool, true, false, List, [], ◌∷◌, ◌++◌, Option, none, some, ◌==◌, if◌then◌else◌,
}
use control_plane_kit_interp.Base.Dict.{Dict, get, put}
use control_plane_kit_interp.Effect.{
  Outcome, returned, raised, Eff, pure, raise, lift, ◌>>=◌, ◌>>◌, secret_resolution, missing,
  denied, malformed_reference, invalid_resolver_result,
}
use control_plane_kit_interp.Request.{
  Reference, Intent, Selection, Grant, operational, versioned, Delivery, environment_delivery,
  reference_delivery, file_delivery, Resolution, resolved, absent, refused, malformed,
  LegacyResolver, AuthorizedResolver,
}

-- `SecretFileRuntimeMaterial`
pub record SecretFile : Type 0 where
  pub reference : Reference
  pub target_path : String
  pub value : String
  pub file_mode : String
  pub path_environment_name : Option String
  pub selection : Option Selection

-- `ResolvedSecretDeliveries`, and the two variables of the loops that build it
pub record Deliveries : Type 0 where
  pub environment : Dict String
  pub files : List SecretFile

abbrev pub nothing : Deliveries
nothing = record { environment = []; files = [] }

-- `_put_environment`: the first value of a name stays, and another value is an error
unfoldable pub put_environment : Dict String → String → String → Outcome (Dict String)
unfolding get put
put_environment values name value = elim (get name values) [
  | none ↦ returned (put name value values)
  | some previous ↦
      if previous == value then returned values else raised (secret_resolution malformed_reference)
]

-- Grants that pass a test, in order: the `tuple(grant for grant in grants if …)` of both selections.
unfoldable pub matching : (Grant → Bool) → List Grant → List Grant
matching test [] = []
matching test (g ∷ gs) = let rest = matching test gs in if test g then g ∷ rest else rest

abbrev pub exactly_one : List Grant → Outcome Grant
exactly_one (g ∷ []) = returned g
exactly_one _ = raised (secret_resolution denied)

abbrev pub permits : Reference → Intent → Grant → Bool
permits reference intent (operational _ allowed) = allowed reference intent
permits reference intent (versioned _ _) = false

-- `secret_resolution_grant_for`
unfoldable pub grant_for : List Grant → Reference → Intent → Outcome Grant
unfolding matching
grant_for grants reference intent = exactly_one (matching (permits reference intent) grants)

module _ {D : Type 0} where
  -- The body of a loop over deliveries; `resolve` is what the loop asks for a secret.
  abbrev add_variable : Deliveries → String → String → Eff D Deliveries
  add_variable acc name value = do
    environment ← lift (put_environment acc.environment name value)
    pure (record acc { environment = environment })

  abbrev bind_path : Deliveries → Option String → String → Eff D Deliveries
  bind_path acc none target = pure acc
  bind_path acc (some name) target = add_variable acc name target

  unfoldable pub deliver :
      (Reference → Intent → Eff D String) → Deliveries → Delivery → Eff D Deliveries
  unfolding put_environment
  deliver resolve acc (environment_delivery name reference intent) = do
    value ← resolve reference intent
    add_variable acc name value
  deliver resolve acc (reference_delivery name reference) = add_variable acc name reference
  deliver resolve acc (file_delivery target reference intent mode binding) = do
    value ← resolve reference intent
    bind_path
        (record {
          environment = acc.environment;
          files =
              acc.files
              ++ (record {
                reference = reference;
                target_path = target;
                value = value;
                file_mode = mode;
                path_environment_name = binding;
                selection = none;
              }
                  ∷ []);
        })
        binding target

  unfoldable pub deliver_all :
      (Reference → Intent → Eff D String) → Deliveries → List Delivery → Eff D Deliveries
  deliver_all resolve acc [] = pure acc
  deliver_all resolve acc (d ∷ ds) = do next ← deliver resolve acc d; deliver_all resolve next ds

  -- `resolve_secret_deliveries`
  unfoldable pub resolve_secret_deliveries :
      List Delivery → Option (LegacyResolver D) → Eff D Deliveries
  unfolding deliver_all
  resolve_secret_deliveries [] none = pure nothing
  resolve_secret_deliveries (d ∷ ds) none = raise (secret_resolution missing)
  resolve_secret_deliveries ds (some resolver) =
      deliver_all (λ reference _. resolver.require_resolved reference) nothing ds

  -- `resolve_authorized_secret_deliveries`
  abbrev pub authorized_value :
      List Grant → AuthorizedResolver D → Reference → Intent → Eff D String
  authorized_value grants resolver reference intent = do
    grant ← lift (grant_for grants reference intent)
    resolver.require_authorized grant

  unfoldable pub resolve_authorized_secret_deliveries :
      List Delivery → List Grant → AuthorizedResolver D → Eff D Deliveries
  unfolding deliver_all grant_for
  resolve_authorized_secret_deliveries ds grants resolver =
      deliver_all (authorized_value grants resolver) nothing ds
