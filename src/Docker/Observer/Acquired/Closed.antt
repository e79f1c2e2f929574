-- ===== src/Docker/Observer/Acquired/Closed.antt =====
-- What an observation that returns stands on.
use control_plane_kit_interp.Base.{Bool, ◌≡◌, ◌≢◌, arith, Option, none, some}
use control_plane_kit_interp.Effect.{Eff, Exc, Outcome, returned, raised}
use control_plane_kit_interp.Docker.Observer.{Postcondition, unestablished}
use control_plane_kit_interp.Docker.Observer.Acquired.{
  Acquired, observe_acquired, with_client, closing,
}

-- The close, where there is one, returned in that state.
abbrev pub IsClosed : {D : Type 0} → Option (Eff D (Unit {0})) → D → D → Type 0
IsClosed none d d' = d ≡ d'
IsClosed (some close) d d' = close d ≡ (returned tt, d')

-- The client was acquired, the inspection answered with the postcondition, and the client was closed.
abbrev pub IsWhole : {D : Type 0} → Postcondition → Outcome (Acquired D) × D → D → Type 0
IsWhole verdict (returned binding, d) d' =
    ((binding.inspected d).0 ≡ returned verdict) × IsClosed binding.close (binding.inspected d).1 d'
IsWhole verdict (raised e, d) d' = ⊥

module _ {D : Type 0} (is_control is_provider_error : Exc → Bool) where
  closing-IsWhole :
      (close : Option (Eff D (Unit {0}))) (read : Outcome Postcondition) (verdict : Postcondition)
      (d d' : D)
      → verdict ≢ unestablished
      → closing is_control is_provider_error close read d ≡ (returned verdict, d')
      → (read ≡ returned verdict) × IsClosed close d d'
  closing-IsWhole none (returned seen) verdict d d' known h = (cc, cc)
  closing-IsWhole none (raised e) verdict d d' known h = ground arith
  closing-IsWhole (some close) (returned seen) verdict d d' known h = ground arith
  closing-IsWhole (some close) (raised e) verdict d d' known h = ground arith

  with_client-IsWhole :
      (o : Outcome (Acquired D)) (verdict : Postcondition) (d d' : D)
      → verdict ≢ unestablished
      → with_client is_control is_provider_error o d ≡ (returned verdict, d')
      → IsWhole verdict (o, d) d'
  with_client-IsWhole (returned binding) verdict d d' known h =
      closing-IsWhole binding.close (binding.inspected d).0 verdict (binding.inspected d).1 d' known
        h
  with_client-IsWhole (raised e) verdict d d' known h = ground arith

  -- An observation that returns a postcondition which is established stands on a client that was
  -- acquired, an inspection that answered with it, and a close, where there is one, that returned; any
  -- error on the way raises or leaves it unestablished.
  pub observe_acquired-IsWhole :
      (acquire : Eff D (Acquired D)) (verdict : Postcondition) (d d' : D)
      → verdict ≢ unestablished
      → observe_acquired is_control is_provider_error acquire d ≡ (returned verdict, d')
      → IsWhole verdict (acquire d) d'
  unfolding observe_acquired
  observe_acquired-IsWhole acquire verdict d d' known h =
      with_client-IsWhole (acquire d).0 verdict (acquire d).1 d' known h
