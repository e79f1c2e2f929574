-- ===== src/Docker/Configuration/Attempt.antt =====
-- `ConfigurationAttempt` (docker/configuration.py): what one invocation has done so far. The methods
-- that write to it run on the world together with it, and what they wrote stays when they raise.
use control_plane_kit_interp.Base.{ℕ, String, Bool, false, List, [], Option, none}
use control_plane_kit_interp.Effect.{Eff, returned}

-- The values of the attribute `phase`
pub data AttemptPhase : Type 0 where
  preflight authority_preflight network_phase configuration_staging container_preparation :
      AttemptPhase
  container_remove container_create container_start installed_verification : AttemptPhase

-- A correlation of Core with a request, by its fingerprint and that of what was selected
pub record Correlation : Type 0 where
  pub request_fingerprint : String
  pub selection_fingerprint : String

-- The attributes; the last two are set when the attempt is made.
pub record Attempt : Type 0 where
  pub phase : AttemptPhase
  pub attempted_indices : List ℕ
  pub staged_indices : List ℕ
  pub old_container_id : Option String
  pub container_id : Option String
  pub old_removed : Bool
  pub unknown_created_resource : Bool
  pub action : String
  pub file_owner_uid : Option ℕ
  pub secret_attempted_indices : List ℕ
  pub secret_staged_indices : List ℕ
  pub retained_mounts : List String
  pub unknown_materialization : Bool
  pub authority_close_unknown : Bool
  pub correlation : Option Correlation
  pub secret_correlation : Option Correlation

-- A new attempt: the defaults of the class.
abbrev pub new_attempt : Option Correlation → Option Correlation → Attempt
new_attempt correlation secret_correlation = record {
  phase = preflight;
  attempted_indices = [];
  staged_indices = [];
  old_container_id = none;
  container_id = none;
  old_removed = false;
  unknown_created_resource = false;
  action = "not-started";
  file_owner_uid = none;
  secret_attempted_indices = [];
  secret_staged_indices = [];
  retained_mounts = [];
  unknown_materialization = false;
  authority_close_unknown = false;
  correlation = correlation;
  secret_correlation = secret_correlation;
}

module _ {D : Type 0} where
  -- a call that does not see the attempt
  abbrev pub on : {A : Type 0} → Eff D A → Eff (D × Attempt) A
  on m s = ((m s.0).0, ((m s.0).1, s.1))

  -- an assignment to attributes of the attempt
  abbrev pub assign : (Attempt → Attempt) → Eff (D × Attempt) (Unit {0})
  assign f s = (returned tt, (s.0, f s.1))

-- `ConfigurationInstallationDisposition` of Core
pub data Disposition : Type 0 where
  created reused replaced : Disposition
