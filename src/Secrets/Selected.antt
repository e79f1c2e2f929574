-- ===== src/Secrets/Selected.antt =====
-- secrets.py: deliveries whose secret versions were selected beforehand.
use Prim.Native.Char.{code}
use Prim.Native.Nat.{Ordering}
use Prim.Native.String.{[] as nil, ◌∷◌ as cons, ◌++◌ as append, len, compare}
use control_plane_kit_interp.Base.{
  ℕ, ◌+◌, String, Bool, true, false, ◌&&◌, ◌||◌, List, [], ◌∷◌, ◌++◌, Option, none, some, ◌==◌, ltb,
  beq, if◌then◌else◌,
}
use control_plane_kit_interp.Base.Dict.{Dict}
use control_plane_kit_interp.Base.Lists.{length}
use control_plane_kit_interp.Effect.{
  Outcome, returned, raised, Eff, pure, raise, lift, ◌>>=◌, secret_resolution, missing, denied,
  invalid_resolver_result, value_error, key_error,
}
use control_plane_kit_interp.Request.{
  Reference, Intent, Selection, Grant, operational, versioned, Delivery, environment_delivery,
  reference_delivery, file_delivery, Resolution, resolved, absent, refused, malformed,
  AuthorizedResolver, Material, Operation, start_node, reconcile_node, Request,
}
use control_plane_kit_interp.Secrets.{
  SecretFile, Deliveries, nothing, matching, exactly_one, add_variable, bind_path,
}

abbrev pub same_selection : Selection → Selection → Bool
same_selection a b =
    a.reference == b.reference && a.intent == b.intent && a.version_id == b.version_id

abbrev pub is_for : Selection → Grant → Bool
is_for selection (operational _ _) = false
is_for selection (versioned _ granted) = same_selection granted selection

-- `selected_secret_grant_for`
unfoldable pub selected_grant_for : List Grant → Selection → Outcome Grant
unfolding matching
selected_grant_for grants selection = exactly_one (matching (is_for selection) grants)

-- Every selection has its grant: the loop of `validate_selected_secret_grants`.
unfoldable pub validate_grants : List Grant → List Selection → Outcome (Unit {0})
unfolding selected_grant_for
validate_grants grants [] = returned tt
validate_grants grants (s ∷ ss) = elim (selected_grant_for grants s) [
  | returned _ ↦ validate_grants grants ss
  | raised e ↦ raised e
]

-- `validate_selected_secret_grants`; `material, = request.products` raises unless there is one
abbrev validate_material : List Grant → Bool → List Material → Outcome (Unit {0})
validate_material grants no_resolver (material ∷ []) = elim material.secret_selections [
  | [] ↦ returned tt
  | s ∷ ss ↦
      if no_resolver then raised (secret_resolution missing) else validate_grants grants (s ∷ ss)
]
validate_material grants no_resolver _ = raised value_error

abbrev pub is_start_or_reconcile : Operation → Bool
is_start_or_reconcile start_node = true
is_start_or_reconcile reconcile_node = true
is_start_or_reconcile _ = false

unfoldable pub validate_selected_secret_grants : Request → Bool → Outcome (Unit {0})
unfolding validate_grants
validate_selected_secret_grants request no_resolver =
    if is_start_or_reconcile request.operation
    then validate_material request.grants no_resolver request.products
    else returned tt

-- The dict `values`, newest entry first.
abbrev pub Values : Type 0
Values = List (Selection × String)

unfoldable pub value_at : Reference → Intent → Values → Option (Selection × String)
value_at reference intent [] = none
value_at reference intent ((s, v) ∷ values) =
    if s.reference == reference && s.intent == intent
    then some (s, v)
    else value_at reference intent values

-- The checks of one resolution against its selection.
unfoldable pub checked_value : Selection → Resolution → Outcome String
checked_value selection absent = raised (secret_resolution missing)
checked_value selection refused = raised (secret_resolution denied)
checked_value selection malformed = raised (secret_resolution invalid_resolver_result)
checked_value selection (resolved reference value) =
    if reference == selection.reference
    then if ltb 65536 (len value)
      then raised (secret_resolution invalid_resolver_result)
      else returned value
    else raised (secret_resolution invalid_resolver_result)

-- `"\x00" in value`
unfoldable pub has_zero : String → Bool
has_zero nil = false
has_zero (cons c s) = beq (code c) 0 || has_zero s

-- The bytes of `key + "=" + value` over all variables.
unfoldable pub environment_bytes : Dict String → ℕ
environment_bytes [] = 0
environment_bytes ((k, v) ∷ env) = len (append k (append "=" v)) + environment_bytes env

abbrev lexicographic : Ordering → Bool → Bool
lexicographic Ordering.lt rest = true
lexicographic Ordering.eq rest = rest
lexicographic Ordering.gt rest = false

abbrev intent_of : SecretFile → Intent
intent_of f = elim f.selection [ none ↦ "" | some s ↦ s.intent ]

-- `(a.target_path, a.reference.reference_id, a.selection.intent.value) < …` of the sort key
unfoldable pub sorts_before : SecretFile → SecretFile → Bool
sorts_before a b = lexicographic (compare a.target_path b.target_path) (
    lexicographic (compare a.reference b.reference)
      (lexicographic (compare (intent_of a) (intent_of b)) false))

-- `files.sort(key=…)`, stable
unfoldable pub insert_file : SecretFile → List SecretFile → List SecretFile
unfolding sorts_before
insert_file f [] = f ∷ []
insert_file f (g ∷ gs) = if sorts_before g f then g ∷ insert_file f gs else f ∷ g ∷ gs

unfoldable pub sort_files : List SecretFile → List SecretFile
unfolding insert_file
sort_files [] = []
sort_files (f ∷ fs) = insert_file f (sort_files fs)

-- The adapter's capacity.
unfoldable pub within_capacity : Deliveries → Outcome Deliveries
unfolding environment_bytes
within_capacity acc =
    if ltb 1024 (length acc.environment) || ltb 1048576 (environment_bytes acc.environment)
    then raised (secret_resolution invalid_resolver_result)
    else returned acc

module _ {D : Type 0} where
  -- The loop over selections.
  unfoldable pub resolve_selections :
      List Grant → AuthorizedResolver D → Values → List Selection → Eff D Values
  unfolding selected_grant_for checked_value
  resolve_selections grants resolver values [] = pure values
  resolve_selections grants resolver values (s ∷ ss) = do
    grant ← lift (selected_grant_for grants s)
    result ← resolver.resolve grant
    value ← lift (checked_value s result)
    resolve_selections grants resolver ((s, value) ∷ values) ss

  abbrev selected_value : Values → Reference → Intent → Eff D (Selection × String)
  selected_value values reference intent = elim (value_at reference intent values) [
    | none ↦ raise key_error
    | some v ↦ pure v
  ]

  -- The body of the loop over deliveries.
  unfoldable pub deliver_selected : Values → Deliveries → Delivery → Eff D Deliveries
  unfolding value_at has_zero
  deliver_selected values acc (reference_delivery name reference) = add_variable acc name reference
  deliver_selected values acc (environment_delivery name reference intent) = do
    (_, value) ← selected_value values reference intent
    if has_zero value
        then raise (secret_resolution invalid_resolver_result)
        else add_variable acc name value
  deliver_selected values acc (file_delivery target reference intent mode binding) = do
    (selection, value) ← selected_value values reference intent
    bind_path
        (record {
          environment = acc.environment;
          files =
              acc.files
              ++ (record {
                reference = reference;
                target_path = target;
                value = value;
                file_mode = mode;
                path_environment_name = binding;
                selection = some selection;
              }
                  ∷ []);
        })
        binding target

  unfoldable pub deliver_all_selected : Values → Deliveries → List Delivery → Eff D Deliveries
  unfolding deliver_selected
  deliver_all_selected values acc [] = pure acc
  deliver_all_selected values acc (d ∷ ds) = do
    next ← deliver_selected values acc d
    deliver_all_selected values next ds

  unfoldable pub resolve_selected_secret_deliveries :
      List Delivery → List Selection → List Grant → AuthorizedResolver D → Eff D Deliveries
  unfolding resolve_selections deliver_all_selected within_capacity sort_files
  resolve_selected_secret_deliveries deliveries selections grants resolver = do
    values ← resolve_selections grants resolver [] selections
    acc ← deliver_all_selected values nothing deliveries
    lift (within_capacity (record acc { files = sort_files acc.files }))
