-- ===== src/Invocations/Prepared/Cache.antt =====
-- A prepared grant is resolved once, and after `seal` no new one is.
use control_plane_kit_interp.Base.{
  Bool, true, false, ◌≡◌, refl, arith, List, [], ◌∷◌, ◌++◌, Option, none, some,
}
use control_plane_kit_interp.Effect.{returned}
use control_plane_kit_interp.Effect.Laws.{>>=-eq-returned}
use control_plane_kit_interp.Request.{Grant, Resolution, AuthorizedResolver}
use control_plane_kit_interp.Invocations.{PortValue, Classes, invoke}
use control_plane_kit_interp.Invocations.Prepared.{
  Entries, prepared_for, resolve, seal, authorization_id, below, remember, answer,
}

prepared_for-append :
    (same : Grant → Grant → Bool) (g : Grant) (r : Resolution) (entries : List (Grant × Resolution))
    → same g g ≡ true
    → prepared_for same g entries ≡ none
    → prepared_for same g (entries ++ (g, r) ∷ []) ≡ some r
unfolding prepared_for
prepared_for-append same g r [] reflexive fresh = rw reflexive refl
prepared_for-append same g r ((h, x) ∷ entries) reflexive fresh =
    ground (arith, prepared_for-append same g r entries)

module _ {D : Type 0} (classes : Classes) (invocations : PortValue D)
    (resolver : AuthorizedResolver D) (same : Grant → Grant → Bool) where
  remember-prepares :
      (grant : Grant) (r result : Resolution) (s s' : D × Entries)
      → same grant grant ≡ true
      → prepared_for same grant s.1.entries ≡ none
      → remember grant r s ≡ (returned result, s')
      → prepared_for same grant s'.1.entries ≡ some result
  remember-prepares grant r result s s' reflexive fresh h =
      let same_result : r ≡ result = cc in
      let grown : s.1.entries ++ (grant, r) ∷ [] ≡ s'.1.entries = cc in
      rw (← grown, ← same_result) (prepared_for-append same grant r s.1.entries reflexive fresh)

  answer-prepares :
      (grant : Grant) (result : Resolution) (sealed : Bool) (o : Option Resolution)
      (s s' : D × Entries)
      → same grant grant ≡ true
      → prepared_for same grant s.1.entries ≡ o
      → answer classes invocations resolver same grant sealed o s ≡ (returned result, s')
      → prepared_for same grant s'.1.entries ≡ some result
  answer-prepares grant result sealed (some r) s s' reflexive found h =
      let same_state : s ≡ s' = cc in
      let same_result : r ≡ result = cc in rw (← same_state, ← same_result) found
  answer-prepares grant result true none s s' reflexive fresh h = absurd cc
  answer-prepares grant result false none s s' reflexive fresh h =
      let call =
        invoke classes invocations "secret-resolution" (some (authorization_id grant))
          (resolver.resolve grant) in
      let (r, e, called, rest) = >>=-eq-returned (below call) _ h in
      let kept : s.1 ≡ e.1 = λ i. (called i).1.1 in
      remember-prepares grant r result e s' reflexive (rw (← kept) fresh) rest

  -- After a resolution that returned, the grant is prepared with that answer.
  resolve-prepares :
      (grant : Grant) (result : Resolution) (s s' : D × Entries)
      → same grant grant ≡ true
      → resolve classes invocations resolver same grant s ≡ (returned result, s')
      → prepared_for same grant s'.1.entries ≡ some result
  unfolding resolve
  resolve-prepares grant result s s' reflexive h =
      answer-prepares grant result s.1.sealed (prepared_for same grant s.1.entries) s s' reflexive
        refl h

  -- A resolution that returned is remembered: asking for the same grant again, before or after the
  -- resolver is sealed, gives the same answer and changes nothing, neither the entries nor the world.
  pub resolve-resolve :
      (grant : Grant) (result : Resolution) (s s' : D × Entries)
      → same grant grant ≡ true
      → resolve classes invocations resolver same grant s ≡ (returned result, s')
      → (resolve classes invocations resolver same grant s' ≡ (returned result, s'))
        × (resolve classes invocations resolver same grant (seal s').1
            ≡ (returned result, (seal s').1))
  unfolding resolve seal
  resolve-resolve grant result s s' reflexive h =
      let found = resolve-prepares grant result s s' reflexive h in
      (rw (resolve, found) refl, rw (resolve, found) refl)
