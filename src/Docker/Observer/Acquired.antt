-- ===== src/Docker/Observer/Acquired.antt =====
-- `_observe_acquired` (docker/observer.py): the client is acquired, read and closed, and the errors of the
-- provider become a postcondition that is not established.
pub mod Closed
use control_plane_kit_interp.Base.{
  Bool, true, false, not, ◌&&◌, ◌||◌, Option, none, some, if◌then◌else◌,
}
use control_plane_kit_interp.Effect.{Eff, pure, raise, ◌>>=◌, ◌>>◌, Exc, Outcome, returned, raised}
use control_plane_kit_interp.Docker.Observer.{Postcondition, unestablished}

-- What `acquire` gives: the inspection with the client, and the close of the client where it is to be
-- closed after the observation.
pub record Acquired (D : Type 0) : Type 0 where
  pub inspected : Eff D Postcondition
  pub close : Option (Eff D (Unit {0}))

module _ (is_control is_provider_error : Exc → Bool) where
  -- Whether an error is raised again: a control error, or not one of the provider.
  abbrev pub escapes : Exc → Bool
  escapes e = is_control e || not (is_provider_error e)

  abbrev after_close :
      {D : Type 0} → Outcome Postcondition → Outcome (Unit {0}) → Eff D Postcondition
  after_close (returned verdict) (returned _) = pure verdict
  after_close (returned verdict) (raised e) = if escapes e then raise e else pure unestablished
  after_close (raised e) (returned _) = if escapes e then raise e else pure unestablished
  after_close (raised e) (raised e') =
      if escapes e then raise e else if escapes e' then raise e' else pure unestablished

  abbrev pub closing :
      {D : Type 0} → Option (Eff D (Unit {0})) → Outcome Postcondition → Eff D Postcondition
  closing none verdict d = after_close verdict (returned tt) d
  closing (some close) verdict d = after_close verdict (close d).0 (close d).1

  abbrev pub with_client : {D : Type 0} → Outcome (Acquired D) → Eff D Postcondition
  with_client (raised e) d = (if escapes e then raise e else pure unestablished) d
  with_client (returned binding) d =
      closing binding.close (binding.inspected d).0 (binding.inspected d).1

  -- `_observe_acquired`, whose result `_result` makes of the postcondition
  unfoldable pub observe_acquired : {D : Type 0} → Eff D (Acquired D) → Eff D Postcondition
  observe_acquired acquire d = with_client (acquire d).0 (acquire d).1
