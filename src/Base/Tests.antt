-- ===== src/Base/Tests.antt =====
-- Boolean tests, the conditional, and case lemmas that keep the equation of what is split.
use Prim.Native.Nat.{ℕ, compare, Ordering}
use Prim.Native.String.{String}
use mathlib.Core.Path.{◌≡◌, refl}
use mathlib.Core.Logic.{◌⊎◌, inl, inr}
use mathlib.Core.Bool.{Bool, true, false}
use mathlib.Core.Option.{Option, none, some}
use text.Mathlib.Text.{◌==◌}

abbrev pub ltb : ℕ → ℕ → Bool
ltb a b = elim (compare a b) [ Ordering.lt ↦ true | _ ↦ false ]

abbrev pub leb : ℕ → ℕ → Bool
leb a b = elim (compare a b) [ Ordering.gt ↦ false | _ ↦ true ]

-- Equality of numbers; `==` is the equality of texts.
abbrev pub beq : ℕ → ℕ → Bool
beq a b = elim (compare a b) [ Ordering.eq ↦ true | _ ↦ false ]

infix 1 if◌then◌else◌
abbrev pub if◌then◌else◌ {ℓ} : {A : Type ℓ} → Bool → A → A → A
if true then x else y = x
if false then x else y = y

-- What a conditional that came to `r` came to on the branch that was taken.
pub if-true {ℓ} : {A : Type ℓ} (b : Bool) (x y r : A) → b ≡ true → (if b then x else y) ≡ r → x ≡ r
if-true true x y r e h = h
if-true false x y r e h = absurd (cc e)

pub if-false {ℓ} :
    {A : Type ℓ} (b : Bool) (x y r : A) → b ≡ false → (if b then x else y) ≡ r → y ≡ r
if-false true x y r e h = absurd (cc e)
if-false false x y r e h = h

-- The same of a conditional between functions, at an argument.
pub if-true_at {ℓ} :
    {A B : Type ℓ} (b : Bool) (f g : A → B) (a : A) (r : B)
    → b ≡ true
    → (if b then f else g) a ≡ r
    → f a ≡ r
if-true_at true f g a r e h = h
if-true_at false f g a r e h = absurd (cc e)

pub if-false_at {ℓ} :
    {A B : Type ℓ} (b : Bool) (f g : A → B) (a : A) (r : B)
    → b ≡ false
    → (if b then f else g) a ≡ r
    → g a ≡ r
if-false_at true f g a r e h = absurd (cc e)
if-false_at false f g a r e h = h

pub Bool-cases : (b : Bool) → (b ≡ true) ⊎ (b ≡ false)
Bool-cases true = inl refl
Bool-cases false = inr refl

pub Option-cases {ℓ} : {A : Type ℓ} (o : Option A) → (o ≡ none) ⊎ ((a : A) × (o ≡ some a))
Option-cases none = inl refl
Option-cases (some a) = inr (a, refl)

-- `a == b` where either text may be missing, as Python's `==` on `str | None`.
abbrev pub text_eq? : Option String → Option String → Bool
text_eq? none none = true
text_eq? none (some b) = false
text_eq? (some a) none = false
text_eq? (some a) (some b) = a == b

abbrev pub is_none {ℓ} : {A : Type ℓ} → Option A → Bool
is_none none = true
is_none (some a) = false
