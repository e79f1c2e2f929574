-- ===== src/Docker/Configuration/Node/Errors.antt =====
-- What becomes of the errors of a configuration attempt.
use control_plane_kit_interp.Base.{Bool, true, false, ◌≡◌, ◌⊎◌, Option}
use control_plane_kit_interp.Effect.{Exc, returned, raised, control}
use control_plane_kit_interp.Request.{Request}
use control_plane_kit_interp.Docker.Result.{Kind, succeeded, failed, unsupported, uncertain_kind}
use control_plane_kit_interp.Docker.Interpreter.{Interpreter}
use control_plane_kit_interp.Docker.Configuration.Attempt.{Attempt, Correlation, new_attempt}
use control_plane_kit_interp.Docker.Configuration.Evidence.{AttemptResult, Core}
use control_plane_kit_interp.Docker.Configuration.Node.Execute.{attempt_node, correlations}

abbrev is_success : Kind → Bool
is_success succeeded = true
is_success failed = false
is_success unsupported = false
is_success uncertain_kind = false

module _ {D : Type 0} (self : Interpreter D) (core : Core) (request : Request) where
  -- Core refused a result of the request that claims no success, with the error `e`.
  abbrev pub IsRefused : Exc → Type 0
  IsRefused e =
      (result : AttemptResult) × (result.effect_id ≡ request.effect_id)
      × (is_success result.kind ≡ false)
      × (core.check_result result ≡ raised e)

  -- A control error passes through; any other error becomes a result, which Core may refuse.
  abbrev IsPassed : Exc → Exc → Type 0
  IsPassed x e = ((e ≡ control) × (x ≡ control)) ⊎ IsRefused e

  -- The body of the `try` raised a control error.
  abbrev pub IsControlled : D → Type 0
  IsControlled d =
      (correlation secret_correlation : Option Correlation) × (correlations self core request
        ≡ returned (correlation, secret_correlation))
      × ((attempt_node self core request correlation secret_correlation
            (d, new_attempt correlation secret_correlation)).0
          ≡ raised control)
