-- ===== src/Docker/Configuration/Evidence.antt =====
-- The results of an attempt with its evidence (docker/configuration.py, the methods of
-- `ConfigurationAttempt` and `secret_installation_evidence`).
use control_plane_kit_interp.Base.{ℕ, String, Bool, List, [], ◌∷◌, ◌++◌, Option, none, some}
use control_plane_kit_interp.Base.Dict.{Dict, update}
use control_plane_kit_interp.Base.Json.{
  Json, null, boolean, number, string, array, object, Items, end, item, Fields, stop, field,
}
use control_plane_kit_interp.Effect.{Outcome, returned, raised, Check, ◌then◌}
use control_plane_kit_interp.Request.{Request}
use control_plane_kit_interp.Docker.Names.{Hashing}
use control_plane_kit_interp.Docker.Sdk.{Inspection}
use control_plane_kit_interp.Docker.Result.{
  Kind, succeeded, failed, uncertain_kind, Failure, Endpoint,
}
use control_plane_kit_interp.Docker.Configuration.{Instance}
use control_plane_kit_interp.Docker.Configuration.Attempt.{
  Attempt, AttemptPhase, preflight, authority_preflight, network_phase, configuration_staging,
  container_preparation, container_remove, container_create, container_start,
  installed_verification, Correlation,
}
use control_plane_kit_interp.Docker.Configuration.Receipts.{IncarnationFields, incarnation_fields}

-- `RuntimeEffectResult` of an attempt, whose evidence holds nested values
pub record AttemptResult : Type 0 where
  pub effect_id : String
  pub kind : Kind
  pub evidence : Dict Json
  pub failure : Option Failure
  pub observations : List Endpoint

-- What an attempt takes from Core: the correlations of a request with the fingerprints of what was
-- selected, which may raise; its configuration instances; the descriptors of receipts; and the check of
-- a result with its failure, its completion and its size, which may raise; and from Python `sorted` of a set
-- of texts, and `==` of two inspections with all their attributes, those that are not modelled too.
pub record Core : Type 0 where
  pub invocation_correlation : Request → Outcome Correlation
  pub secret_installation_correlation : Request → Outcome Correlation
  pub instances : Request → List Instance
  pub completion : Correlation → Json
  pub installation_receipt : Correlation → IncarnationFields → Json
  pub secret_resolution_receipt : Correlation → Json
  pub secret_installation_receipt : Correlation → IncarnationFields → Json
  pub check_result : AttemptResult → Check
  pub sorted_set : List String → List String
  pub equal_inspections : Inspection → Inspection → Bool

abbrev phase_text : AttemptPhase → String
phase_text preflight = "preflight"
phase_text authority_preflight = "authority-preflight"
phase_text network_phase = "network"
phase_text configuration_staging = "configuration-staging"
phase_text container_preparation = "container-preparation"
phase_text container_remove = "container-remove"
phase_text container_create = "container-create"
phase_text container_start = "container-start"
phase_text installed_verification = "installed-verification"

abbrev numbers : List ℕ → Items
numbers [] = end
numbers (n ∷ ns) = item (number n) (numbers ns)

abbrev texts : List String → Items
texts [] = end
texts (s ∷ ss) = item (string s) (texts ss)

abbrev text_or_null : Option String → Json
text_or_null none = null
text_or_null (some s) = string s

abbrev number_or_null : Option ℕ → Json
number_or_null none = null
number_or_null (some n) = number n

abbrev fields : Dict Json → Fields
fields [] = stop
fields ((k, v) ∷ d) = field k v (fields d)

-- `"configuration_attempt"` and `"secret_attempt"` of `evidence`
abbrev configuration_evidence_of : Attempt → Option Correlation → Dict Json
configuration_evidence_of a none = []
configuration_evidence_of a (some correlation) =
    (
      "configuration_attempt",
      object (
          fields (
            ("profile", string "docker.configuration-attempt.v1")
            ∷ ("phase", string (phase_text a.phase))
            ∷ ("selection_fingerprint", string correlation.selection_fingerprint)
            ∷ ("attempted_indices", array (numbers a.attempted_indices))
            ∷ ("staged_indices", array (numbers a.staged_indices))
            ∷ ("old_container_id", text_or_null a.old_container_id)
            ∷ ("container_id", text_or_null a.container_id)
            ∷ ("old_removed", boolean a.old_removed)
            ∷ ("unknown_created_resource", boolean a.unknown_created_resource)
            ∷ ("configuration_volumes_removed", number 0)
            ∷ [])),
    )
    ∷ []

abbrev secret_evidence_of : Attempt → Option Correlation → Dict Json
secret_evidence_of a none = []
secret_evidence_of a (some correlation) =
    (
      "secret_attempt",
      object (
          fields (
            ("profile", string "docker.secret-attempt.v1")
            ∷ ("phase", string (phase_text a.phase))
            ∷ ("file_identity_profile", string "docker.selected-secret-file.v1")
            ∷ ("request_fingerprint", string correlation.request_fingerprint)
            ∷ ("selection_fingerprint", string correlation.selection_fingerprint)
            ∷ ("file_owner_uid", number_or_null a.file_owner_uid)
            ∷ ("attempted_indices", array (numbers a.secret_attempted_indices))
            ∷ ("staged_indices", array (numbers a.secret_staged_indices))
            ∷ ("retained_mounts", array (texts a.retained_mounts))
            ∷ ("old_container_id", text_or_null a.old_container_id)
            ∷ ("container_id", text_or_null a.container_id)
            ∷ ("old_removed", boolean a.old_removed)
            ∷ ("unknown_created_resource", boolean a.unknown_created_resource)
            ∷ ("unknown_materialization", boolean a.unknown_materialization)
            ∷ ("authority_close_unknown", boolean a.authority_close_unknown)
            ∷ ("secret_volumes_removed", number 0)
            ∷ [])),
    )
    ∷ []

-- `ConfigurationAttempt.evidence`
unfoldable pub evidence : Attempt → Dict Json
evidence a =
    ("action", string a.action)
    ∷ (configuration_evidence_of a a.correlation ++ secret_evidence_of a a.secret_correlation)

module _ (core : Core) (h : Hashing) (effect_id : String) where
  abbrev completion_of : Kind → Option Correlation → Dict Json
  completion_of succeeded (some correlation) =
      ("configuration_invocation_completion", core.completion correlation) ∷ []
  completion_of failed (some correlation) =
      ("configuration_invocation_completion", core.completion correlation) ∷ []
  completion_of _ _ = []

  abbrev pub checked : AttemptResult → Outcome AttemptResult
  checked result = core.check_result result then returned result

  -- `ConfigurationAttempt.result`
  unfoldable pub attempt_result :
      Attempt → Kind → Option Failure → List Endpoint → Dict Json → Outcome AttemptResult
  unfolding evidence update
  attempt_result a kind failure observations extra = checked (record {
    effect_id = effect_id;
    kind = kind;
    evidence = update (update (evidence a) extra) (completion_of kind a.correlation);
    failure = failure;
    observations = observations;
  })

  abbrev pub failure_of : String → String → Option Failure
  failure_of code message = some (record { code = code; message = message; details = [] })

  abbrev uncertain_failure : Option Correlation → Option Failure
  uncertain_failure none =
      failure_of "docker.secret-effect-uncertain" "Docker selected secret effect is uncertain"
  uncertain_failure (some _) =
      failure_of "docker.configuration-effect-uncertain" "Docker configuration effect is uncertain"

  -- `ConfigurationAttempt.uncertain`
  unfoldable pub uncertain_result : Attempt → Outcome AttemptResult
  unfolding attempt_result
  uncertain_result a = attempt_result a uncertain_kind (uncertain_failure a.correlation) [] []

  abbrev installation_evidence :
      Option Correlation → Outcome IncarnationFields → Outcome (Dict Json)
  installation_evidence none o = returned []
  installation_evidence (some correlation) (raised e) = raised e
  installation_evidence (some correlation) (returned known) =
      returned
        (("configuration_installation_receipt", core.installation_receipt correlation known) ∷ [])

  -- `_installation_receipt`, where the attempt has a correlation
  unfoldable pub configuration_receipt : Attempt → Outcome (Dict Json)
  unfolding incarnation_fields
  configuration_receipt a = installation_evidence a.correlation (incarnation_fields h a)

  abbrev secret_evidence : Option Correlation → Outcome IncarnationFields → Outcome (Dict Json)
  secret_evidence none o = returned []
  secret_evidence (some correlation) (raised e) = raised e
  secret_evidence (some correlation) (returned known) = returned (
      ("secret_resolution_receipt", core.secret_resolution_receipt correlation)
      ∷ ("secret_installation_receipt", core.secret_installation_receipt correlation known)
      ∷ [])

  -- `secret_installation_evidence`
  unfoldable pub secret_installation_evidence : Attempt → Outcome (Dict Json)
  unfolding incarnation_fields
  secret_installation_evidence a = secret_evidence a.secret_correlation (incarnation_fields h a)
