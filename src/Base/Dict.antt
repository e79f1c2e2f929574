-- ===== src/Base/Dict.antt =====
-- A Python dict with text keys: an association list in insertion order. Two dicts are equal, as in
-- Python, when they have the same keys with the same values, whatever the order.
use Prim.Native.String.{String}
use text.Mathlib.Text.{◌==◌}
use mathlib.Core.Path.{◌≡◌, refl, ◌∙◌}
use mathlib.Core.Logic.{◌↔◌, ◌≢◌, inl, inr}
use mathlib.Core.Bool.{Bool, true, ◌&&◌}
use mathlib.Core.Option.{Option, none, some}
use mathlib.Core.List.{List, [], ◌∷◌}
use native.Mathlib.Omega.{arith}
use text.Mathlib.TextEquality.{eq_iff}
use text.Mathlib.TextPositions.{eq_refl}
use control_plane_kit_interp.Base.Tests.{if◌then◌else◌, text_eq?, Bool-cases, Option-cases}
use control_plane_kit_interp.Base.Lists.{all}

abbrev pub Dict {ℓ} : Type ℓ → Type ℓ
Dict V = List (String × V)

module _ {ℓ} {V : Type ℓ} where
  -- `d.get(key)`
  unfoldable pub get : String → Dict V → Option V
  get k [] = none
  get k ((j, v) ∷ d) = if j == k then some v else get k d

  -- `d[key] = value`: a new key goes to the end
  unfoldable pub put : String → V → Dict V → Dict V
  put k v [] = (k, v) ∷ []
  put k v ((j, w) ∷ d) = if j == k then (j, v) ∷ d else (j, w) ∷ put k v d

  -- `{**a, **b}`
  unfoldable pub update : Dict V → Dict V → Dict V
  unfolding put
  update a [] = a
  update a ((k, v) ∷ b) = update (put k v a) b

  pub get-put :
      (k j : String) (v : V) (d : Dict V) → get j (put k v d) ≡ (if k == j then some v else get j d)
  unfolding get put
  get-put k j v [] = refl
  get-put k j v ((i, w) ∷ d) = ground (arith, eq_iff k j, eq_iff i k, eq_iff i j, get-put k j v d)

  -- `{k: v for k, v in d.items() if keep(k)}`
  unfoldable pub filter_keys : (String → Bool) → Dict V → Dict V
  filter_keys keep [] = []
  filter_keys keep ((j, v) ∷ d) =
      let rest = filter_keys keep d in if keep j then (j, v) ∷ rest else rest

  unfoldable pub keys : Dict V → List String
  keys [] = []
  keys ((j, v) ∷ d) = j ∷ keys d

  pub get-filter_keys :
      (keep : String → Bool) (k : String) (d : Dict V)
      → get k (filter_keys keep d) ≡ (if keep k then get k d else none)
  unfolding get filter_keys
  get-filter_keys keep k [] = ground arith
  get-filter_keys keep k ((j, v) ∷ d) = elim (Bool-cases (j == k)) [
    | inl same ↦ rw ((eq_iff j k).0 same) (ground (arith, eq_refl k, get-filter_keys keep k d))
    | inr other ↦ ground (arith, get-filter_keys keep k d)
  ]

  pub get-update : (k : String) (a b : Dict V) → get k b ≡ none → get k (update a b) ≡ get k a
  unfolding update get
  get-update k a [] h = refl
  get-update k a ((j, v) ∷ b) h = elim (Bool-cases (j == k)) [
    | inl same ↦ ground arith
    | inr other ↦ get-update k (put j v a) b (ground arith) ∙ (rw get-put (ground arith))
  ]

-- The second dict has the keys of the first, with the same values.
abbrev pub Extends : Dict String → Dict String → Type 0
Extends old new = (k v : String) → get k old ≡ some v → get k new ≡ some v

-- Equality of dicts with text values, `a == b`.
agree_on : List String → Dict String → Dict String → Bool
agree_on ks a b = all (λ k. text_eq? (get k a) (get k b)) ks

unfoldable pub dict_eq : Dict String → Dict String → Bool
unfolding agree_on get keys
dict_eq a b = agree_on (keys a) a b && agree_on (keys b) a b

pub text_eq?_iff : (a b : Option String) → (text_eq? a b ≡ true) ↔ (a ≡ b)
text_eq?_iff none none = ground arith
text_eq?_iff none (some b) = ground arith
text_eq?_iff (some a) none = ground arith
text_eq?_iff (some a) (some b) = ground (arith, eq_iff a b)

agree_on-get :
    (d a b : Dict String) (k : String)
    → agree_on (keys d) a b ≡ true
    → get k d ≢ none
    → get k a ≡ get k b
unfolding agree_on keys get
agree_on-get [] a b k h n = absurd (n refl)
agree_on-get ((j, v) ∷ d) a b k h n = elim (Bool-cases (j == k)) [
  | inl same ↦ rw (← (eq_iff j k).0 same) ((text_eq?_iff (get j a) (get j b)).0 (ground arith))
  | inr other ↦ agree_on-get d a b k (ground arith) (ground arith)
]

agree_on_of_eq :
    (ks : List String) (a b : Dict String)
    → ((k : String) → get k a ≡ get k b)
    → agree_on ks a b ≡ true
unfolding agree_on
agree_on_of_eq [] a b h = refl
agree_on_of_eq (k ∷ ks) a b h =
    ground (arith, (text_eq?_iff (get k a) (get k b)).1 (h k), agree_on_of_eq ks a b h)

pub dict_eq_iff : (a b : Dict String) → (dict_eq a b ≡ true) ↔ ((k : String) → get k a ≡ get k b)
unfolding dict_eq
dict_eq_iff a b = (
  λ h k. elim (Option-cases (get k a)) [
    | inr (v, e) ↦ agree_on-get a a b k (ground arith) (λ n. cc (e, n))
    | inl e ↦ elim (Option-cases (get k b)) [
      | inr (v, e') ↦ agree_on-get b a b k (ground arith) (λ n. cc (e', n))
      | inl e' ↦ cc (e, e')
    ]
  ],
  λ h. ground (arith, agree_on_of_eq (keys a) a b h, agree_on_of_eq (keys b) a b h),
)
