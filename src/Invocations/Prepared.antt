-- ===== src/Invocations/Prepared.antt =====
-- `_PreparedSecretResolver` (secrets.py): the resolutions of one dispatch, each asked for once.
pub mod Cache
use control_plane_kit_interp.Base.{
  String, Bool, true, false, List, [], ◌∷◌, ◌++◌, Option, none, some, if◌then◌else◌,
}
use control_plane_kit_interp.Effect.{Eff, pure, raise, ◌>>=◌, ◌>>◌, control, Outcome, returned}
use control_plane_kit_interp.Request.{Grant, operational, versioned, Resolution, AuthorizedResolver}
use control_plane_kit_interp.Invocations.{PortValue, Classes, invoke}

-- `_entries` and `_sealed`
pub record Entries : Type 0 where
  pub entries : List (Grant × Resolution)
  pub sealed : Bool

abbrev pub unprepared : Entries
unprepared = record { entries = []; sealed = false }

-- `grant.authorization_id`
abbrev pub authorization_id : Grant → String
authorization_id (operational id _) = id
authorization_id (versioned id _) = id

-- The first entry of a grant of the same type that is equal; `same` is Core's equality of grants.
unfoldable pub prepared_for :
    (Grant → Grant → Bool) → Grant → List (Grant × Resolution) → Option Resolution
prepared_for same grant [] = none
prepared_for same grant ((prepared, result) ∷ rest) =
    if same grant prepared then some result else prepared_for same grant rest

module _ {D : Type 0} where
  -- An action of the world below, beside the entries.
  abbrev pub below : {A : Type 0} → Eff D A → Eff (D × Entries) A
  below m s = ((m s.0).0, ((m s.0).1, s.1))

  abbrev pub remember : Grant → Resolution → Eff (D × Entries) Resolution
  remember grant result s =
      (returned result, (s.0, record s.1 { entries = s.1.entries ++ (grant, result) ∷ [] }))

  unfoldable pub seal : Eff (D × Entries) (Unit {0})
  seal s = (returned tt, (s.0, record s.1 { sealed = true }))

module _ {D : Type 0} (classes : Classes) (invocations : PortValue D)
    (resolver : AuthorizedResolver D) (same : Grant → Grant → Bool) where
  abbrev ask : Grant → Eff (D × Entries) Resolution
  ask grant = do
    result ← below (
        invoke classes invocations "secret-resolution" (some (authorization_id grant))
          (resolver.resolve grant))
    remember grant result

  abbrev unprepared_grant : Grant → Bool → Eff (D × Entries) Resolution
  unprepared_grant grant true = raise control
  unprepared_grant grant false = ask grant

  abbrev answer : Grant → Bool → Option Resolution → Eff (D × Entries) Resolution
  answer grant sealed (some result) = pure result
  answer grant sealed none = unprepared_grant grant sealed

  -- `resolve` of a grant of one of Core's two types
  unfoldable pub resolve : Grant → Eff (D × Entries) Resolution
  unfolding prepared_for
  resolve grant s = answer grant s.1.sealed (prepared_for same grant s.1.entries) s
