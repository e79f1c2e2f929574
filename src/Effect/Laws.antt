-- ===== src/Effect/Laws.antt =====
-- Inversion of effects that returned, and what a wrapped effect can raise.
use control_plane_kit_interp.Base.{◌≡◌, ◌⊎◌, inl, inr, refl, Bool, true}
use control_plane_kit_interp.Effect.{
  Exc, Outcome, returned, raised, Eff, Check, continue, require, ◌>>=◌, ◌then◌,
}

-- To split on what an effect did and keep the equation.
pub Outcome-cases :
    {A : Type 0} (o : Outcome A) → ((a : A) × (o ≡ returned a)) ⊎ ((e : Exc) × (o ≡ raised e))
Outcome-cases (returned a) = inl (a, refl)
Outcome-cases (raised e) = inr (e, refl)

-- The state in which a bound effect went on, its value, and the rest of the run.
continue-eq-returned :
    {D A B : Type 0} (o : Outcome A) (e : D) (f : A → Eff D B) {d' : D} {b : B}
    → continue o f e ≡ (returned b, d')
    → (a : A) × (o ≡ returned a) × (f a e ≡ (returned b, d'))
continue-eq-returned (returned a) e f h = (a, refl, h)
continue-eq-returned (raised x) e f h = cc

pub >>=-eq-returned :
    {D A B : Type 0} (m : Eff D A) (f : A → Eff D B) {d d' : D} {b : B}
    → (m >>= f) d ≡ (returned b, d')
    → (a : A) × (e : D) × (m d ≡ (returned a, e)) × (f a e ≡ (returned b, d'))
>>=-eq-returned m f {d} h =
    let (a, e, rest) = continue-eq-returned (m d).0 (m d).1 f h in (a, (m d).1, cc e, rest)

pub then-eq-returned {ℓ} :
    {A : Type ℓ} (c : Check) (o : Outcome A) {a : A}
    → (c then o) ≡ returned a
    → (c ≡ returned tt) × (o ≡ returned a)
then-eq-returned (returned tt) o h = (refl, h)
then-eq-returned (raised e) o h = cc

pub require-eq-returned : (b : Bool) (e : Exc) → require b e ≡ returned tt → b ≡ true
require-eq-returned true e h = refl
require-eq-returned Bool.false e h = cc

-- What holds of a run of `m` that returns: `Q` of the state before, the value and the state after.
pub record Returns {D A : Type 0} (m : Eff D A) (Q : D → A → D → Type 0) : Type 0 where
  pub at : (d : D) (a : A) (d' : D) → m d ≡ (returned a, d') → Q d a d'

module _ {D A B : Type 0} where
  -- A bound effect: what the first part is known to do is at hand for the rest.
  pub Returns-bind :
      (m : Eff D A) (f : A → Eff D B) (P : D → A → D → Type 0) (Q : B → D → Type 0)
      → Returns m P
      → ((a : A) (d e : D) → P d a e → Returns (f a) (λ _. Q))
      → Returns (m >>= f) (λ _. Q)
  Returns-bind m f P Q first rest = record {
    at = λ d b d' h.
        let (a, e, one, two) = >>=-eq-returned m f h in
        (rest a d e (first.at d a e one)).at e b d' two;
  }

  -- A bound effect whose first part may do anything.
  pub Returns-skip :
      (m : Eff D A) (f : A → Eff D B) (Q : B → D → Type 0)
      → ((a : A) → Returns (f a) (λ _. Q))
      → Returns (m >>= f) (λ _. Q)
  Returns-skip m f Q rest = record {
    at = λ d b d' h. let (a, e, one, two) = >>=-eq-returned m f h in (rest a).at e b d' two;
  }

pub Returns-map :
    {D A : Type 0} {m : Eff D A} {P Q : D → A → D → Type 0}
    → ((d : D) (a : A) (d' : D) → P d a d' → Q d a d')
    → Returns m P
    → Returns m Q
Returns-map f runs = record { at = λ d a d' h. f d a d' (runs.at d a d' h) }

-- What a run of `m` keeps, whether it returns or raises.
pub record Keeps {D A : Type 0} (P : D → Type 0) (m : Eff D A) : Type 0 where
  pub at : (d : D) → P d → P (m d).1

module _ {D A B : Type 0} (P : D → Type 0) where
  continue-keeps :
      (o : Outcome A) (e : D) (f : A → Eff D B)
      → ((a : A) → Keeps P (f a))
      → P e
      → P (continue o f e).1
  continue-keeps (returned a) e f rest holds = (rest a).at e holds
  continue-keeps (raised x) e f rest holds = holds

  pub Keeps-bind :
      (m : Eff D A) (f : A → Eff D B) → Keeps P m → ((a : A) → Keeps P (f a)) → Keeps P (m >>= f)
  Keeps-bind m f first rest = record {
    at = λ d holds. continue-keeps (m d).0 (m d).1 f rest (first.at d holds);
  }
