-- ===== src/Verification.antt =====
-- verification.py and timing.py: checks of a product, each run in a bounded number of attempts. The
-- checks and their results are Core's.
pub mod Http
pub mod Redis
pub mod Postgres
pub mod Attempts
mod Tests
use Prim.Native.Char.{Char}
use control_plane_kit_interp.Base.{
  ℕ, zero, suc, String, Bool, true, false, not, ◌&&◌, List, [], ◌∷◌, Option, none, some, ◌==◌, ltb,
  if◌then◌else◌,
}
use control_plane_kit_interp.Base.Text.{all_chars}
use control_plane_kit_interp.Effect.{
  Outcome, returned, Eff, pure, ◌>>=◌, ◌>>◌, require, ◌then◌, value_error, type_error,
}
use control_plane_kit_interp.Probes.Security.{Observation}

-- `VerificationOutcome`
pub data CheckOutcome : Type 0 where
  passed failed timed_out malformed rejected : CheckOutcome

-- `VerificationCapability`
pub data Capability : Type 0 where
  http postgres redis : Capability

-- `VerificationPolicy`; its times are for the transports and for the pause between attempts
pub record CheckPolicy : Type 0 where
  pub maximum_attempts : ℕ
  pub maximum_evidence_bytes : ℕ

pub record Authentication : Type 0 where
  pub password_reference : String
  pub database : String
  pub username : String

-- What `HttpCheck`, `PostgresQueryCheck` and `RedisCheck` hold, and any other check
pub data CheckKind : Type 0 where
  -- the path, the expected statuses and the expected digest of the body
  http_check : String → List ℕ → Option String → CheckKind
  postgres_check : Option Authentication → CheckKind
  redis_check other_check : CheckKind

-- `VerificationCheck`
pub record Check : Type 0 where
  pub check_id : String
  pub provider_socket : String
  pub policy : CheckPolicy
  pub kind : CheckKind

-- `VerificationCheckMaterial`
pub record CheckMaterial : Type 0 where
  pub node_id : String
  pub graph_id : String
  pub check : Check
  pub endpoint : Observation

-- `HttpVerificationEvidence` and `RedisVerificationEvidence`
pub data Evidence : Type 0 where
  -- the status, the size, the expected digest and whether the body has it
  http_evidence : ℕ → ℕ → Option String → Option Bool → Evidence
  redis_evidence : ℕ → Evidence

-- `VerificationCompleted`, with the fields of its `VerificationIdentity`
pub record Completed : Type 0 where
  pub node_id : String
  pub graph_id : String
  pub check_id : String
  pub capability : Capability
  pub outcome : CheckOutcome
  pub attempts : ℕ
  pub evidence : Option Evidence

-- `VerificationResult`
pub data CheckResult : Type 0 where
  completed : Completed → CheckResult
  unsupported_check : Capability → CheckResult

abbrev pub is_passed : CheckOutcome → Bool
is_passed passed = true
is_passed failed = false
is_passed timed_out = false
is_passed malformed = false
is_passed rejected = false

abbrev pub is_supported : CheckKind → Bool
is_supported (http_check path statuses digest) = true
is_supported (postgres_check authentication) = true
is_supported redis_check = true
is_supported other_check = false

-- `VerificationCheckMaterial(…)` with its `__post_init__`; `is_space` is `str.isspace` of a character
unfoldable pub check_material :
    (Char → Bool) → String → String → Check → Observation → Outcome CheckMaterial
unfolding all_chars
check_material is_space node_id graph_id check endpoint =
    require (not (all_chars is_space node_id) && not (all_chars is_space graph_id)) value_error
    then require (is_supported check.kind) type_error
    then require ((endpoint.subject_id == node_id) && (endpoint.graph_id == graph_id)) value_error
    then require (endpoint.socket_name == check.provider_socket) value_error
    then returned
        (record { node_id = node_id; graph_id = graph_id; check = check; endpoint = endpoint })

-- `_observation`, with `verification_identity`
unfoldable pub observation_of :
    CheckMaterial → Capability → CheckOutcome → ℕ → Option Evidence → Completed
observation_of material capability outcome attempts evidence = record {
  node_id = material.node_id;
  graph_id = material.graph_id;
  check_id = material.check.check_id;
  capability = capability;
  outcome = outcome;
  attempts = attempts;
  evidence = evidence;
}

-- What the body of a loop over attempts says: go on with the next one, or return.
pub data Step : Type 0 where
  again stop : Completed → Step

-- `if last.outcome is VerificationOutcome.PASSED: return last`
abbrev pub step_of : Completed → Step
step_of result = if is_passed result.outcome then stop result else again result

module _ {D : Type 0} (sleep : Eff D (Unit {0})) where
  -- `verification_attempts`: the pause before every attempt but the first
  abbrev pub pause : ℕ → Eff D (Unit {0})
  pause n = if ltb 1 n then sleep else pure tt

  abbrev pub settle_step : (Completed → Eff D Completed) → Step → Eff D Completed
  settle_step onward (stop result) = pure result
  settle_step onward (again result) = onward result

  -- The loop over `verification_attempts(policy)`: the attempts that are left, the ordinal of the
  -- next one, its body, and the result so far.
  unfoldable pub attempts_from : ℕ → ℕ → (ℕ → Eff D Step) → Completed → Eff D Completed
  attempts_from zero n body last = pure last
  attempts_from (suc left) n body last = do
    pause n
    step ← body n
    settle_step (attempts_from left (suc n) body) step

  unfoldable pub run_attempts : CheckPolicy → (ℕ → Eff D Step) → Completed → Eff D Completed
  unfolding attempts_from
  run_attempts policy body last = attempts_from policy.maximum_attempts 1 body last
