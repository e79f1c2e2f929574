-- ===== src/Invocations/Tests.antt =====
-- A port that counts its admissions, at concrete calls.
use control_plane_kit_interp.Base.{
  ℕ, suc, String, Bool, true, false, ◌≡◌, ◌⊎◌, refl, List, [], ◌∷◌, none, ◌==◌,
}
use control_plane_kit_interp.Effect.{Eff, Exc, Outcome, returned, raised, contract, control}
use control_plane_kit_interp.Request.{Grant, operational, Resolution, resolved, AuthorizedResolver}
use control_plane_kit_interp.Invocations.{Port, PortValue, bounded, Classes}
use control_plane_kit_interp.Invocations.Protocol.{
  Event, admission, call, record_of, run, invoke-eq-returned, invoke-eq-raised, Surfaces,
  acknowledged,
}
use control_plane_kit_interp.Invocations.Prepared.{
  Entries, unprepared, authorization_id, resolve, seal,
}
use control_plane_kit_interp.Invocations.Prepared.Cache.{resolve-resolve}

abbrev is_control : Exc → Bool
is_control control = true
is_control _ = false

abbrev port : Port ℕ
port = record {
  Permit = Unit;
  admit = λ kind authorization n. (returned tt, suc n);
  record_outcome = λ permit outcome n. (returned tt, n);
  is_control = is_control;
}

abbrev classes : Classes
classes = record { is_cancelled = λ e. false; is_exception = λ e. true }

abbrev answering : Eff ℕ String
answering n = (returned "value", n)

abbrev failing : Eff ℕ String
failing n = (raised contract, n)

invoke-eq-returned_example :
    ((run classes port "effect" none answering 0).1.1
      ≡ record_of "returned" ∷ call ∷ admission ∷ [])
    × ((answering (port.admit "effect" none 0).1).0 ≡ returned "value")
unfolding control_plane_kit_interp.Invocations.invoke control_plane_kit_interp.Effect.Logged.logged
invoke-eq-returned_example = invoke-eq-returned classes port "effect" none answering 0 "value" refl

abbrev failed_run : Outcome String × (ℕ × List Event)
failed_run = run classes port "effect" none failing 0

invoke-eq-raised_example :
    ((failed_run.1.1 ≡ admission ∷ []) × ((port.admit "effect" none 0).0 ≡ raised contract))
    ⊎ ((failed_run.1.1 ≡ call ∷ admission ∷ [])
        × (port.is_control contract ≡ true)
        × ((failing (port.admit "effect" none 0).1).0 ≡ raised contract))
    ⊎ ((failed_run.1.1 ≡ record_of "unknown" ∷ call ∷ admission ∷ [])
        × ((permit : port.Permit) × (error : Exc) × ((port.admit "effect" none 0).0
              ≡ returned permit)
            × ((failing (port.admit "effect" none 0).1).0 ≡ raised error)
            × (port.is_control error ≡ false)
            × Surfaces classes port "effect" none failing 0 permit error contract))
    ⊎ ((failed_run.1.1 ≡ record_of "returned" ∷ call ∷ admission ∷ [])
        × ((permit : port.Permit) × (a : String) × ((port.admit "effect" none 0).0
              ≡ returned permit)
            × ((failing (port.admit "effect" none 0).1).0 ≡ returned a)
            × (acknowledged classes port "effect" none failing 0 permit "returned"
                ≡ raised contract)))
unfolding control_plane_kit_interp.Invocations.invoke control_plane_kit_interp.Effect.Logged.logged
invoke-eq-raised_example = invoke-eq-raised classes port "effect" none failing 0 contract refl

abbrev resolver : AuthorizedResolver ℕ
resolver = record {
  require_authorized = λ grant n. (raised contract, n);
  resolve = λ grant n. (returned (resolved "token" "value"), suc n);
}

abbrev same : Grant → Grant → Bool
same one two = authorization_id one == authorization_id two

abbrev token : Grant
token = operational "g" (λ reference intent. true)

abbrev first_asked : Outcome Resolution × (ℕ × Entries)
first_asked = resolve classes (bounded port) resolver same token (0, unprepared)

resolve-resolve_example :
    (resolve classes (bounded port) resolver same token first_asked.1
      ≡ (returned (resolved "token" "value"), first_asked.1))
    × (resolve classes (bounded port) resolver same token (seal first_asked.1).1
        ≡ (returned (resolved "token" "value"), (seal first_asked.1).1))
unfolding resolve control_plane_kit_interp.Invocations.invoke
resolve-resolve_example =
    resolve-resolve classes (bounded port) resolver same token (resolved "token" "value")
      (0, unprepared) first_asked.1 refl refl
