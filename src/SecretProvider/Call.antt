-- ===== src/SecretProvider/Call.antt =====
-- How a call of the provider ends: with a value, with a `SecretProviderClientError` that says
-- whether the provider may have acted, or with another exception (secret_provider/client.py). The
-- state of the world outside is explicit.
use control_plane_kit_interp.Base.{◌≡◌, ◌⊎◌, inl, inr, refl, Bool, true, false}
use control_plane_kit_interp.Effect.{Raised}

-- `SecretProviderClientCode`
pub data Code : Type 0 where
  malformed_configuration malformed_request denied missing revoked already_exists conflict : Code
  redirected timed_out transport_failed response_too_large malformed_response : Code
  integrity_failure unavailable : Code

-- `SecretProviderOutcomeCertainty`
pub data Certainty : Type 0 where
  definite uncertain : Certainty

pub data Failure : Type 0 where
  -- `SecretProviderClientError(code, certainty=…)`
  client_error : Code → Certainty → Failure
  -- `SecretProviderBootstrapError`
  bootstrap_error : Failure
  -- the `RuntimeError` of `ControlPlaneKitSecretsCustodian.revoke`
  mismatched_reference : Failure
  -- an exception that no handler of the package names
  foreign : Raised → Failure

pub data Answer {ℓ} (A : Type ℓ) : Type ℓ where
  ok : A → Answer A
  failed : Failure → Answer A

abbrev pub Call : Type 0 → Type 0 → Type 0
Call D A = D → Answer A × D

module _ {D A : Type 0} where
  abbrev pub give : A → Call D A
  give a d = (ok a, d)

  abbrev pub fail : Failure → Call D A
  fail f d = (failed f, d)

  abbrev pub settle : Answer A → Call D A
  settle a d = (a, d)

module _ {D A B : Type 0} where
  abbrev pub next : Answer A → (A → Call D B) → Call D B
  next (ok a) f d = f a d
  next (failed x) f d = (failed x, d)

  infixl 5 ◌>>=◌ ◌>>◌
  abbrev pub ◌>>=◌ : Call D A → (A → Call D B) → Call D B
  ◌>>=◌ m f d = next (m d).0 f (m d).1

  abbrev pub ◌>>◌ : Call D A → Call D B → Call D B
  m >> n = m >>= λ _. n

module _ {D A : Type 0} where
  -- `try: m` with a handler
  abbrev pub recover : Answer A → (Failure → Call D A) → Call D A
  recover (ok a) h d = (ok a, d)
  recover (failed x) h d = h x d

  abbrev pub rescue : Call D A → (Failure → Call D A) → Call D A
  rescue m h d = recover (m d).0 h (m d).1

-- A check passes or fails the call.
unfoldable pub demand : Bool → Failure → Answer (Unit {0})
demand true f = ok tt
demand false f = failed f

infixr 4 ◌then◌
unfoldable pub ◌then◌ {ℓ} : {A : Type ℓ} → Answer (Unit {0}) → Answer A → Answer A
ok _ then a = a
failed x then a = failed x

pub Answer-cases :
    {A : Type 0} (o : Answer A) → ((a : A) × (o ≡ ok a)) ⊎ ((x : Failure) × (o ≡ failed x))
Answer-cases (ok a) = inl (a, refl)
Answer-cases (failed x) = inr (x, refl)

abbrev pub certain : Code → Failure
certain code = client_error code definite

-- `_certainty`
unfoldable pub certainty : Bool → Certainty
certainty true = uncertain
certainty false = definite
