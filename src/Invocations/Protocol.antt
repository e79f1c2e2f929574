-- ===== src/Invocations/Protocol.antt =====
-- In which order `invoke` (invocations.py) admits, calls and records.
use control_plane_kit_interp.Base.{
  String, true, false, ◌≡◌, ◌⊎◌, inl, inr, arith, List, [], ◌∷◌, Option, Bool-cases,
}
use control_plane_kit_interp.Effect.{Eff, Exc, Outcome, returned, raised}
use control_plane_kit_interp.Effect.Laws.{Outcome-cases}
use control_plane_kit_interp.Effect.Logged.{logged}
use control_plane_kit_interp.Invocations.{Port, bounded, Classes, invoke}

-- What the port and the capability see.
pub data Event : Type 0 where
  admission call : Event
  record_of : String → Event

abbrev pub traced : {D : Type 0} → Port D → Port (D × List Event)
traced port = record {
  Permit = port.Permit;
  admit = λ kind authorization. logged admission (port.admit kind authorization);
  record_outcome =
      λ permit outcome. logged (record_of outcome) (port.record_outcome permit outcome);
  is_control = port.is_control;
}

module _ {D A : Type 0} (classes : Classes) (port : Port D) (kind : String)
    (authorization : Option String) (m : Eff D A) (d : D) where
  -- The run of `invoke` with the port `port` and the call `m`, from an empty log.
  abbrev pub run : Outcome A × (D × List Event)
  run = invoke classes (bounded (traced port)) kind authorization (logged call m) (d, [])

  -- With a port, a value that `invoke` returns comes from one admitted call, which returned it, and one
  -- acknowledgement that it did.
  pub invoke-eq-returned :
      (a : A)
      → run.0 ≡ returned a
      → (run.1.1 ≡ record_of "returned" ∷ call ∷ admission ∷ [])
        × ((m (port.admit kind authorization d).1).0 ≡ returned a)
  unfolding invoke logged
  invoke-eq-returned a h = ground arith

  -- The acknowledgement `outcome` of a call that was admitted and has run.
  abbrev pub acknowledged : port.Permit → String → Outcome (Unit {0})
  acknowledged permit outcome =
      (port.record_outcome permit outcome (m (port.admit kind authorization d).1).1).0

  -- What becomes of another error of the call than a control error, once `unknown` was to be recorded:
  -- the error itself, unless the acknowledgement raised in its place. A cancelled call lets only an
  -- acknowledgement take its place that raises what is no `Exception`.
  abbrev pub Surfaces : port.Permit → Exc → Exc → Type 0
  Surfaces permit error e =
      ((e ≡ error)
        × ((acknowledged permit "unknown" ≡ returned tt) ⊎ (classes.is_cancelled error ≡ true)))
      ⊎ ((acknowledged permit "unknown" ≡ raised e)
          × ((classes.is_cancelled error ≡ false) ⊎ (classes.is_exception e ≡ false)))

  -- With a port, the error that `invoke` raises is that of the admission, and then nothing was called;
  -- or a control error of the call, and then nothing was recorded; or, `unknown` having been recorded
  -- after another error of the call, that error, or what the acknowledgement raised in its place; or
  -- what the acknowledgement of a value raised.
  pub invoke-eq-raised :
      (e : Exc)
      → run.0 ≡ raised e
      → ((run.1.1 ≡ admission ∷ []) × ((port.admit kind authorization d).0 ≡ raised e))
        ⊎ ((run.1.1 ≡ call ∷ admission ∷ [])
            × (port.is_control e ≡ true)
            × ((m (port.admit kind authorization d).1).0 ≡ raised e))
        ⊎ ((run.1.1 ≡ record_of "unknown" ∷ call ∷ admission ∷ [])
            × ((permit : port.Permit) × (error : Exc) × ((port.admit kind authorization d).0
                  ≡ returned permit)
                × ((m (port.admit kind authorization d).1).0 ≡ raised error)
                × (port.is_control error ≡ false)
                × Surfaces permit error e))
        ⊎ ((run.1.1 ≡ record_of "returned" ∷ call ∷ admission ∷ [])
            × ((permit : port.Permit) × (a : A) × ((port.admit kind authorization d).0
                  ≡ returned permit)
                × ((m (port.admit kind authorization d).1).0 ≡ returned a)
                × (acknowledged permit "returned" ≡ raised e)))
  unfolding invoke logged
  invoke-eq-raised e h = elim (Outcome-cases (port.admit kind authorization d).0) [
    | inr (x, refused) ↦ ground arith
    | inl (permit, passed) ↦ elim (Outcome-cases (m (port.admit kind authorization d).1).0) [
      | inl (a, value) ↦ inr (inr (inr (ground arith, (permit, a, passed, value, ground arith))))
      | inr (x, failed) ↦ elim (Bool-cases (port.is_control x)) [
        | inl is ↦ ground arith
        | inr other ↦ inr (
            inr (
              inl (
                ground arith,
                (permit, x, passed, failed, other, surfaces permit x passed failed other),
              )))
      ]
    ]
  ]
    where
      surfaces :
          (permit : port.Permit) (x : Exc)
          → (port.admit kind authorization d).0 ≡ returned permit
          → (m (port.admit kind authorization d).1).0 ≡ raised x
          → port.is_control x ≡ false
          → Surfaces permit x e
      surfaces permit x passed failed other = elim (Outcome-cases (acknowledged permit "unknown")) [
        | inl (_, known) ↦ elim (Bool-cases (classes.is_cancelled x)) [
          | inl cancelled ↦ inl (ground arith, inr cancelled)
          | inr going ↦ inl (ground arith, inl known)
        ]
        | inr (y, lost) ↦ elim (Bool-cases (classes.is_cancelled x)) [
          | inl cancelled ↦ elim (Bool-cases (classes.is_exception y)) [
            | inl caught ↦ inl (ground arith, inr cancelled)
            | inr fatal ↦ inr (ground arith, inr (ground arith))
          ]
          | inr going ↦ inr (ground arith, inl going)
        ]
      ]
