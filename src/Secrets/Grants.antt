-- ===== src/Secrets/Grants.antt =====
-- Which grants a resolver is asked about (secrets.py, `resolve_authorized_secret_deliveries`).
use control_plane_kit_interp.Base.{Bool, true, ◌≡◌, refl, inl, inr, List, [], ◌∷◌, Bool-cases}
use control_plane_kit_interp.Base.Lists.{All}
use control_plane_kit_interp.Effect.{Outcome, returned, raised, lift, ◌>>=◌}
use control_plane_kit_interp.Request.{
  Reference, Intent, Grant, Delivery, environment_delivery, reference_delivery, file_delivery,
  AuthorizedResolver,
}
use control_plane_kit_interp.Secrets.{
  Deliveries, nothing, matching, exactly_one, permits, grant_for, authorized_value, deliver,
  deliver_all, resolve_authorized_secret_deliveries,
}

matching-All :
    (test : Grant → Bool) (grants : List Grant) → All (λ g. test g ≡ true) (matching test grants)
unfolding matching
matching-All test [] = tt
matching-All test (g ∷ gs) = elim (Bool-cases (test g)) [
  | inl passes ↦ rw (matching, passes) (passes, matching-All test gs)
  | inr fails ↦ rw (matching, fails) (matching-All test gs)
]

exactly_one-eq-returned :
    (P : Grant → Type 0) (found : List Grant) {g : Grant}
    → All P found
    → exactly_one found ≡ returned g
    → P g
exactly_one-eq-returned P [] h e = absurd cc
exactly_one-eq-returned P (f ∷ []) {g} (h, _) e = let same : f ≡ g = cc in rw (← same) h
exactly_one-eq-returned P (f ∷ f' ∷ fs) h e = absurd cc

grant_for-permits :
    (grants : List Grant) (reference : Reference) (intent : Intent) {g : Grant}
    → grant_for grants reference intent ≡ returned g
    → permits reference intent g ≡ true
unfolding grant_for
grant_for-permits grants reference intent e =
    exactly_one-eq-returned (λ g. permits reference intent g ≡ true) _
      (matching-All (permits reference intent) grants) e

module _ {D : Type 0} (grants : List Grant) (one two : AuthorizedResolver D) where
  -- The two resolvers answer alike for every grant that permits the secret.
  abbrev AgreeOn : Reference → Intent → Type 0
  AgreeOn reference intent =
      (g : Grant)
      → permits reference intent g ≡ true
      → one.require_authorized g ≡ two.require_authorized g

  -- They do so for the secret of a delivery.
  abbrev pub AgreeFor : Delivery → Type 0
  AgreeFor (environment_delivery name reference intent) = AgreeOn reference intent
  AgreeFor (reference_delivery name reference) = Unit
  AgreeFor (file_delivery target reference intent mode binding) = AgreeOn reference intent

  lift-agree :
      (reference : Reference) (intent : Intent) (o : Outcome Grant)
      → AgreeOn reference intent
      → ((g : Grant) → o ≡ returned g → permits reference intent g ≡ true)
      → (lift o >>= λ g. one.require_authorized g) ≡ (lift o >>= λ g. two.require_authorized g)
  lift-agree reference intent (returned g) agree permitted = agree g (permitted g refl)
  lift-agree reference intent (raised e) agree permitted = refl

  authorized_value-agree :
      (reference : Reference) (intent : Intent)
      → AgreeOn reference intent
      → authorized_value grants one reference intent ≡ authorized_value grants two reference intent
  authorized_value-agree reference intent agree =
      lift-agree reference intent (grant_for grants reference intent) agree
        (λ g. grant_for-permits grants reference intent)

  deliver-agree :
      (acc : Deliveries) (delivery : Delivery)
      → AgreeFor delivery
      → deliver (authorized_value grants one) acc delivery
        ≡ deliver (authorized_value grants two) acc delivery
  unfolding deliver
  deliver-agree acc (environment_delivery name reference intent) agree = λ i.
      deliver (λ _ _. authorized_value-agree reference intent agree i) acc
        (environment_delivery name reference intent)
  deliver-agree acc (reference_delivery name reference) agree = refl
  deliver-agree acc (file_delivery target reference intent mode binding) agree = λ i.
      deliver (λ _ _. authorized_value-agree reference intent agree i) acc
        (file_delivery target reference intent mode binding)

  deliver_all-agree :
      (acc : Deliveries) (deliveries : List Delivery)
      → All AgreeFor deliveries
      → deliver_all (authorized_value grants one) acc deliveries
        ≡ deliver_all (authorized_value grants two) acc deliveries
  unfolding deliver_all
  deliver_all-agree acc [] agree = refl
  deliver_all-agree acc (delivery ∷ rest) (agree, agrees) =
      λ i. deliver-agree acc delivery agree i >>= λ next. deliver_all-agree next rest agrees i

  -- The resolution depends on the resolver only through grants that permit the secret of a delivery:
  -- two resolvers that answer alike for these give the same run.
  pub resolve_authorized_secret_deliveries-agree :
      (deliveries : List Delivery)
      → All AgreeFor deliveries
      → resolve_authorized_secret_deliveries deliveries grants one
        ≡ resolve_authorized_secret_deliveries deliveries grants two
  unfolding resolve_authorized_secret_deliveries
  resolve_authorized_secret_deliveries-agree deliveries agree =
      deliver_all-agree nothing deliveries agree
