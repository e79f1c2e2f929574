-- ===== src/Effect.antt =====
-- Methods that act on the world outside the process (the Docker daemon, secret providers) and may
-- raise. The state of that world is explicit, and what a method did before it raised stays done.
-- `Exc` has the exception classes that the handlers of the program tell apart; any other exception
-- is an `other` with what the handlers ask of it.
pub mod Laws
pub mod Logged
use control_plane_kit_interp.Base.{String, Bool}

-- `_StartNodePhase` (docker/runtime.py)
pub data Phase : Type 0 where
  image_availability network configuration container_create container_start final_inspect : Phase

-- `_ContainerCreateSuboperation` (docker/sdk.py)
pub data Suboperation : Type 0 where
  inspection request endpoint create unknown : Suboperation

-- `_DockerFailureCategory` (docker/sdk.py)
pub data Category : Type 0 where
  timeout transport api material unexpected : Category

-- What `_docker_failure_category` and `_bounded_error_message` ask of an exception: whether it is an
-- instance of the classes for timeouts, for transport and of `APIError`, whether its exact class is
-- `TypeError`, `ValueError` or `InvalidArgument`, and the name of its class.
pub record Raised : Type 0 where
  pub is_timeout : Bool
  pub is_transport : Bool
  pub is_api : Bool
  pub is_material : Bool
  pub class_name : String

-- `SecretResolutionCode` of Core
pub data SecretCode : Type 0 where
  missing denied malformed_reference invalid_resolver_result : SecretCode

pub data Exc : Type 0 where
  -- `InvocationPortError` and the control error of the port
  control : Exc
  -- `RuntimeEffectContractError`
  contract : Exc
  -- `_DockerInterpreterUnsupportedAuthorityError(code)`
  unsupported_authority : String → Exc
  -- `_DockerInterpreterPreconditionError(code, message)`
  precondition : String → String → Exc
  -- `_DockerStartNodeUncertainError(phase, suboperation, category)`
  uncertain : Phase → Suboperation → Category → Exc
  -- `_DockerContainerCreateError(suboperation, category)`
  create_error : Suboperation → Category → Exc
  -- `ConfigurationObservationUnknown()`
  observation_unknown : Exc
  -- `ConfigurationMaterialConflict()`
  material_conflict : Exc
  -- `DockerSdkConfigurationVolumeInUse`
  volume_in_use : Exc
  -- `DockerSdkConfigurationEvidenceError` and `DockerSdkSecretFileEvidenceError`
  configuration_evidence secret_file_evidence : Exc
  -- `SecretResolutionError(code)`
  secret_resolution : SecretCode → Exc
  other : Raised → Exc

pub data Outcome {ℓ} (A : Type ℓ) : Type ℓ where
  returned : A → Outcome A
  raised : Exc → Outcome A

-- A method over a world whose states are `D`.
abbrev pub Eff : Type 0 → Type 0 → Type 0
Eff D A = D → Outcome A × D

module _ {D A : Type 0} where
  abbrev pub pure : A → Eff D A
  pure a d = (returned a, d)

  abbrev pub raise : Exc → Eff D A
  raise e d = (raised e, d)

  abbrev pub lift : Outcome A → Eff D A
  lift o d = (o, d)

module _ {D A B : Type 0} where
  abbrev pub continue : Outcome A → (A → Eff D B) → Eff D B
  continue (returned a) f d = f a d
  continue (raised e) f d = (raised e, d)

  infixl 5 ◌>>=◌ ◌>>◌
  abbrev pub ◌>>=◌ : Eff D A → (A → Eff D B) → Eff D B
  ◌>>=◌ m f d = continue (m d).0 f (m d).1

  abbrev pub ◌>>◌ : Eff D A → Eff D B → Eff D B
  m >> n = m >>= λ _. n

module _ {D A : Type 0} where
  abbrev pub handle : Outcome A → (Exc → Eff D A) → Eff D A
  handle (returned a) h d = (returned a, d)
  handle (raised e) h d = h e d

  -- `try: m` with one handler for every class
  abbrev pub catch : Eff D A → (Exc → Eff D A) → Eff D A
  catch m h d = handle (m d).0 h (m d).1

-- A check that only raises or passes.
abbrev pub Check : Type 0
Check = Outcome (Unit {0})

abbrev pub require : Bool → Exc → Check
require Bool.true e = returned tt
require Bool.false e = raised e

infixr 4 ◌then◌
abbrev pub ◌then◌ {ℓ} : {A : Type ℓ} → Check → Outcome A → Outcome A
returned _ then o = o
raised e then o = raised e

abbrev plain : Bool → String → Exc
plain is_material class_name = other (record {
  is_timeout = Bool.false;
  is_transport = Bool.false;
  is_api = Bool.false;
  is_material = is_material;
  class_name = class_name;
})

-- `ValueError`, `KeyError`, `IndexError` and `TypeError` of Python
abbrev pub value_error : Exc
value_error = plain Bool.true "ValueError"

abbrev pub key_error : Exc
key_error = plain Bool.false "KeyError"

abbrev pub index_error : Exc
index_error = plain Bool.false "IndexError"

abbrev pub type_error : Exc
type_error = plain Bool.true "TypeError"
