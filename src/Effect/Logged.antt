-- ===== src/Effect/Logged.antt =====
-- Actions over a world with a log of events, the newest first.
use control_plane_kit_interp.Base.{List, [], ◌∷◌}
use control_plane_kit_interp.Effect.{Eff, Outcome}

module _ {E D A : Type 0} where
  -- one event, whether the action returned or raised
  unfoldable pub logged : E → Eff D A → Eff (D × List E) A
  logged event m s = ((m s.0).0, ((m s.0).1, event ∷ s.1))

  -- an event that tells what the action answered
  unfoldable pub observed : (Outcome A → E) → Eff D A → Eff (D × List E) A
  observed event m s = ((m s.0).0, ((m s.0).1, event (m s.0).0 ∷ s.1))

-- an action that leaves no event
unfoldable pub unlogged : {E D A : Type 0} → Eff D A → Eff (D × List E) A
unlogged m s = ((m s.0).0, ((m s.0).1, s.1))

-- What every event of a log has, in view of the events before it.
abbrev pub Always : {E : Type 0} → (E → List E → Type 0) → List E → Type 0
Always P [] = Unit
Always P (event ∷ past) = P event past × Always P past

pub Always-map :
    {E : Type 0} (P Q : E → List E → Type 0)
    → ((event : E) (past : List E) → P event past → Q event past)
    → (log : List E) → Always P log
    → Always Q log
Always-map P Q f [] holds = tt
Always-map P Q f (event ∷ past) (now, before) = (f event past now, Always-map P Q f past before)
