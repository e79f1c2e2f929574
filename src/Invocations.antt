-- ===== src/Invocations.antt =====
-- invocations.py: a call of a capability is admitted by the port first, and its outcome is recorded
-- after.
pub mod Protocol
pub mod Prepared
mod Tests
use control_plane_kit_interp.Base.{String, Bool, true, false, Option, none, some, if◌then◌else◌}
use control_plane_kit_interp.Effect.{
  Eff, pure, raise, lift, ◌>>=◌, ◌>>◌, Exc, control, Outcome, returned, raised, handle, catch,
  require, Check,
}

-- What the port gives: `admit(kind, authorization_id)`, `record_outcome(permit, outcome)`, and
-- which exceptions are instances of its `control_error`.
pub record Port (D : Type 0) : Type 1 where
  pub Permit : Type 0
  pub admit : String → Option String → Eff D Permit
  pub record_outcome : Permit → String → Eff D (Unit {0})
  pub is_control : Exc → Bool

-- The argument `port`: `None`, an object that is no port, or a port.
pub data PortValue (D : Type 0) : Type 1 where
  no_port : PortValue D
  bad_port : PortValue D
  bounded : Port D → PortValue D

-- What Python asks of an exception: is it `asyncio.CancelledError`, and is it an `Exception`?
pub record Classes : Type 0 where
  pub is_cancelled : Exc → Bool
  pub is_exception : Exc → Bool

module _ {D : Type 0} where
  -- `control_errors`: which exceptions are control errors; `control` is an `InvocationPortError`
  unfoldable pub control_errors : Bool → PortValue D → Outcome (Exc → Bool)
  control_errors true no_port = raised control
  control_errors false no_port = returned (λ e. false)
  control_errors required bad_port = raised control
  control_errors required (bounded port) = returned port.is_control

module _ {D : Type 0} (classes : Classes) where
  -- A cancelled call: a failed acknowledgement is dropped if it is an `Exception`.
  abbrev pub acknowledge : {B : Type 0} → Eff D (Unit {0}) → Exc → Eff D B
  acknowledge ack error =
      catch ack (λ e. if classes.is_exception e then pure tt else raise e) >> raise error

  -- `_finish`, and what `invoke` does after it: the error is raised again, the value is returned
  unfoldable pub finish : {A : Type 0} (port : Port D) → port.Permit → Outcome A → Eff D A
  finish port permit (returned a) = port.record_outcome permit "returned" >> pure a
  finish port permit (raised error) =
      if classes.is_cancelled error
      then acknowledge (port.record_outcome permit "unknown") error
      else port.record_outcome permit "unknown" >> raise error

  -- After the call: a control error is raised at once, with no record.
  abbrev pub settle : {A : Type 0} (port : Port D) → port.Permit → Outcome A → Eff D A
  settle port permit (returned a) = finish port permit (returned a)
  settle port permit (raised error) =
      if port.is_control error then raise error else finish port permit (raised error)

  abbrev pub observed : {A : Type 0} → Eff D A → (Outcome A → Eff D A) → Eff D A
  observed call after d = after (call d).0 (call d).1

  abbrev admitted : {A : Type 0} → PortValue D → String → Option String → Eff D A → Eff D A
  admitted no_port kind authorization call = call
  admitted bad_port kind authorization call = raise control
  admitted (bounded port) kind authorization call = do
    permit ← port.admit kind authorization
    observed call (settle port permit)

  -- `invoke`; `invoke_async` awaits the call, and is else the same
  unfoldable pub invoke : {A : Type 0} → PortValue D → String → Option String → Eff D A → Eff D A
  unfolding control_errors finish
  invoke port kind authorization call =
      lift (control_errors false port) >> admitted port kind authorization call
