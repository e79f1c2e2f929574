-- ===== src/Docker/Labels/Correlation.antt =====
-- When a container correlates with a request: `_node_correlation_labels` compares, label by label,
-- what the interpreter put on the container, and under the two allowances only that a plan or a
-- graph was recorded.
use text.Mathlib.Text.{starts_with}
use mathlib.Core.Bool.{false≢true, or-true}
use control_plane_kit_interp.Base.{
  String, Bool, true, false, ◌&&◌, ◌||◌, ◌≡◌, ◌↔◌, refl, sym, ◌∙◌, inl, inr, arith, Option, none,
  some, ◌==◌, eq_iff, eq_refl, if◌then◌else◌, Bool-cases, Option-cases,
}
use control_plane_kit_interp.Base.Dict.{Dict, get, get-put, get-filter_keys, dict_eq, dict_eq_iff}
use control_plane_kit_interp.Docker.Labels.{
  label, hide, cpk_ownership_labels, node_correlation_labels,
}

-- What is left of a label whose value may differ: whether it is there and has text.
pub data Presence : Type 0 where
  absent blank recorded : Presence

abbrev pub presence : Option String → Presence
presence none = absent
presence (some value) = if value == "" then blank else recorded

-- The labels whose values may differ under the allowances.
abbrev pub may_differ : Bool → Bool → String → Bool
may_differ plan graph k = plan && label "plan" == k || graph && label "desired-graph" == k

abbrev pub Agrees : Bool → Option String → Option String → Type 0
Agrees true a b = presence a ≡ presence b
Agrees false a b = a ≡ b

abbrev marked : String → Option String → Option String
marked mark none = none
marked mark (some v) = if v == "" then some v else some mark

get-hide_self :
    (key mark : String) (d : Dict String) → get key (hide true key mark d) ≡ marked mark (get key d)
get-hide_self key mark d = elim (Option-cases (get key d)) [
  | inl e ↦ rw (e, hide, marked) e
  | inr (v, e) ↦ elim (Bool-cases (v == "")) [
    | inl blank_value ↦ rw (e, hide, marked) (rw blank_value e)
    | inr text ↦ rw (e, hide, marked) (rw (text, get-put, eq_refl) refl)
  ]
]

get-hide :
    (allowed : Bool) (key mark k : String) (d : Dict String)
    → get k (hide allowed key mark d)
      ≡ (if allowed && key == k then marked mark (get k d) else get k d)
get-hide false key mark k d = refl
get-hide true key mark k d = elim (Bool-cases (key == k)) [
  | inl same ↦ rw (same) (rw (← (eq_iff key k).0 same) (get-hide_self key mark d))
  | inr other ↦ elim (Option-cases (get key d)) [
    | inl e ↦ rw (other, e, hide) refl
    | inr (v, e) ↦ elim (Bool-cases (v == "")) [
      | inl blank_value ↦ rw (other, e, hide) (rw blank_value refl)
      | inr text ↦ rw (other, e, hide) (rw (text, get-put, other) refl)
    ]
  ]
]

marked_iff :
    (mark : String)
    → (mark == "") ≡ false
    → (a b : Option String) → (marked mark a ≡ marked mark b) ↔ (presence a ≡ presence b)
marked_iff mark m none none = ground arith
marked_iff mark m none (some v) = ground arith
marked_iff mark m (some v) none = ground arith
marked_iff mark m (some v) (some w) = elim (Bool-cases (v == "")) [
  | inl ev ↦ elim (Bool-cases (w == "")) [
    | inl ew ↦ ground (arith, (eq_iff v "").0 ev, (eq_iff w "").0 ew)
    | inr nw ↦ ground (arith, (eq_iff v "").0 ev, eq_iff mark "")
  ]
  | inr nv ↦ elim (Bool-cases (w == "")) [
    | inl ew ↦ ground (arith, (eq_iff w "").0 ew, eq_iff mark "")
    | inr nw ↦ ground arith
  ]
]

is_cpk : String → Bool
is_cpk k = starts_with k "org.openj92.cpk."

-- The hidden form of one label, seen from outside.
hidden : Bool → Bool → String → Option String → Option String
hidden plan graph k a =
    if graph && label "desired-graph" == k
    then marked "<recorded-graph>" a
    else if plan && label "plan" == k
    then marked "<recorded-plan>" a
    else a

not-both : (k : String) → (label "desired-graph" == k) ≡ true → (label "plan" == k) ≡ true → ⊥
not-both k g p = false≢true (
    (eq_iff (label "plan") (label "desired-graph")).1
      ((eq_iff (label "plan") k).0 p ∙ sym ((eq_iff (label "desired-graph") k).0 g)))

hide-hide :
    (plan graph : Bool) (k : String) (a : Option String)
    → (if graph && label "desired-graph" == k
        then marked "<recorded-graph>"
            (if plan && label "plan" == k then marked "<recorded-plan>" a else a)
        else if plan && label "plan" == k
        then marked "<recorded-plan>" a
        else a)
      ≡ hidden plan graph k a
unfolding hidden
hide-hide plan graph k a = ground (arith, not-both k)

get-labels :
    (plan graph : Bool) (k : String) (d : Dict String)
    → get k (node_correlation_labels plan graph d)
      ≡ hidden plan graph k (if is_cpk k then get k d else none)
unfolding node_correlation_labels cpk_ownership_labels is_cpk
get-labels plan graph k d =
    rw
      (
        get-hide graph (label "desired-graph") "<recorded-graph>" k _,
        get-hide plan (label "plan") "<recorded-plan>" k _,
        get-filter_keys _ k d,
      )
      (hide-hide plan graph k _)

hidden_iff :
    (plan graph : Bool) (k : String) (a b : Option String)
    → (hidden plan graph k a ≡ hidden plan graph k b) ↔ Agrees (may_differ plan graph k) a b
unfolding hidden
hidden_iff plan graph k a b = elim (Bool-cases (graph && label "desired-graph" == k)) [
  | inl g ↦ rw (g, or-true) (marked_iff "<recorded-graph>" refl a b)
  | inr ng ↦ elim (Bool-cases (plan && label "plan" == k)) [
    | inl p ↦ rw (ng, p) (marked_iff "<recorded-plan>" refl a b)
    | inr np ↦ rw (ng, np) (λ e. e, λ e. e)
  ]
]

-- The comparison passes exactly when the two resources agree on every label of the interpreter:
-- they have the same value, or, for the plan and the graph where a prior one is allowed, both have
-- none, both an empty one, or both some text.
pub correlation_iff :
    (plan graph : Bool) (observed expected : Dict String)
    → (dict_eq
          (node_correlation_labels plan graph observed)
          (node_correlation_labels plan graph expected)
        ≡ true)
      ↔ ((k : String)
          → starts_with k "org.openj92.cpk." ≡ true
          → Agrees (may_differ plan graph k) (get k observed) (get k expected))
unfolding is_cpk
correlation_iff plan graph observed expected = (
  λ e k cpk.
      (hidden_iff plan graph k _ _).0
        ((rw (get-labels, get-labels, cpk) at ((dict_eq_iff _ _).0 e k))),
  λ h. (dict_eq_iff _ _).1 λ k.
      rw (get-labels, get-labels)
        (elim (Bool-cases (is_cpk k)) [
          | inl cpk ↦ rw cpk ((hidden_iff plan graph k _ _).1 (h k cpk))
          | inr foreign ↦ rw foreign refl
        ]),
)
