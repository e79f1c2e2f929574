-- ===== src/Docker/Health/Wait/Passed.antt =====
-- A product that is reported healthy: the results of its checks (`_wait_for_healthy` of
-- docker/runtime.py).
use control_plane_kit_interp.Base.{
  ℕ, suc, ◌+◌, String, Bool, true, false, List, [], ◌∷◌, ◌++◌, Option, none, some, ◌≡◌, refl, ap,
  Bool-cases, if-true_at, if-false_at, inl, inr, arith,
}
use control_plane_kit_interp.Base.Lists.{All, length}
use control_plane_kit_interp.Effect.{returned, Eff, pure}
use control_plane_kit_interp.Effect.Laws.{>>=-eq-returned}
use control_plane_kit_interp.Request.{Request, Material}
use control_plane_kit_interp.Docker.Result.{Kind, succeeded, failed, unsupported}
use control_plane_kit_interp.Docker.Interpreter.{single_product}
use control_plane_kit_interp.Docker.Health.{Healing, HealthResult, endpoint_named}
use control_plane_kit_interp.Docker.Health.Wait.{
  Progress, Children, recorded, no_progress, at_material, is_executable, after_check, at_address,
  at_endpoint, run_check, run_checks, wait_for_checks, endpoints_of, wait_for_healthy,
}
use control_plane_kit_interp.Probes.Security.{
  Address, Observation, literal, secret_reference, other_material,
}
use control_plane_kit_interp.Verification.{
  CheckKind, http_check, postgres_check, redis_check, other_check, Check, Completed, CheckResult,
  completed, unsupported_check, is_passed,
}

abbrev pub HavePassed : List Completed → Type 0
HavePassed results = All (λ (c : Completed). is_passed c.outcome ≡ true) results

-- Results of `n` checks, all of them passed.
pub record ArePassed (observations checks : List Completed) (n : ℕ) : Type 0 where
  pub observed : HavePassed observations
  pub described : HavePassed checks
  pub counted : length observations + length checks ≡ n

All-snoc :
    (results : List Completed) (result : Completed)
    → HavePassed results
    → is_passed result.outcome ≡ true
    → HavePassed (results ++ (result ∷ []))
All-snoc [] result h p = (p, tt)
All-snoc (r ∷ rs) result (now, h) p = (now, All-snoc rs result h p)

length-snoc :
    (results : List Completed) (result : Completed)
    → length (results ++ (result ∷ [])) ≡ length results + 1
length-snoc [] result = omega arith
length-snoc (r ∷ rs) result = omega (arith, length-snoc rs result)

recorded-ArePassed :
    (kind : CheckKind) (result : Completed) (progress : Progress) (n : ℕ)
    → ArePassed progress.observations progress.checks n
    → is_passed result.outcome ≡ true
    → ArePassed
        (recorded kind result progress).observations
        (recorded kind result progress).checks
        (n + 1)
unfolding recorded
recorded-ArePassed (http_check path statuses digest) result progress n so_far p = record {
  observed = All-snoc progress.observations result so_far.observed p;
  described = so_far.described;
  counted = omega (arith, length-snoc progress.observations result, so_far.counted);
}
recorded-ArePassed (postgres_check authentication) result progress n so_far p = record {
  observed = so_far.observed;
  described = All-snoc progress.checks result so_far.described p;
  counted = omega (arith, length-snoc progress.checks result, so_far.counted);
}
recorded-ArePassed redis_check result progress n so_far p = record {
  observed = so_far.observed;
  described = All-snoc progress.checks result so_far.described p;
  counted = omega (arith, length-snoc progress.checks result, so_far.counted);
}
recorded-ArePassed other_check result progress n so_far p = record {
  observed = so_far.observed;
  described = All-snoc progress.checks result so_far.described p;
  counted = omega (arith, length-snoc progress.checks result, so_far.counted);
}

-- A result of another kind is no success.
abbrev is_succeeded : Kind → Bool
is_succeeded succeeded = true
is_succeeded failed = false
is_succeeded unsupported = false
is_succeeded Kind.uncertain_kind = false

module _ {D : Type 0} where
  other-succeeded :
      (made result : HealthResult) (d d' : D)
      → pure made d ≡ (returned result, d')
      → is_succeeded made.kind ≡ false
      → result.kind ≡ succeeded
      → ⊥
  other-succeeded made result d d' h other k =
      let same : made ≡ result = ground arith in
      ground (arith, ap (λ (r : HealthResult). is_succeeded r.kind) same)

module _ {D : Type 0} (self : Healing D) (request : Request) (material : Material)
    (children : Children D) (endpoints : List Observation) where
  -- What the rest of the loop does with what is there so far.
  abbrev Onward : (Progress → Eff D HealthResult) → ℕ → Type 0
  Onward onward left =
      (progress : Progress) (n : ℕ) (d d' : D) (result : HealthResult)
      → ArePassed progress.observations progress.checks n
      → onward progress d ≡ (returned result, d')
      → result.kind ≡ succeeded
      → ArePassed result.observations result.checks (n + left)

  after_check-ArePassed :
      (onward : Progress → Eff D HealthResult) (left : ℕ) (check : Check) (answer : CheckResult)
      (progress : Progress) (n : ℕ) (d d' : D) (result : HealthResult)
      → Onward onward left
      → ArePassed progress.observations progress.checks n
      → after_check self request material children endpoints onward check progress answer d
        ≡ (returned result, d')
      → result.kind ≡ succeeded
      → ArePassed result.observations result.checks (n + suc left)
  after_check-ArePassed onward left check (unsupported_check capability) progress n d d' result rest
        so_far h k =
      absurd (other-succeeded _ result d d' h refl k)
  after_check-ArePassed onward left check (completed seen) progress n d d' result rest so_far h k =
      elim (Bool-cases (is_passed seen.outcome)) [
        | inl p ↦
            let more : ArePassed result.observations result.checks (n + 1 + left) =
              rest (recorded check.kind seen progress) (n + 1) d d' result
                (recorded-ArePassed check.kind seen progress n so_far p) (if-true_at _ _ _ _ _ p h)
                k in
            record {
              observed = more.observed;
              described = more.described;
              counted = omega (arith, more.counted);
            }
        | inr p ↦ absurd (other-succeeded _ result d d' (if-false_at _ _ _ _ _ p h) refl k)
      ]

  at_address-ArePassed :
      (onward : Progress → Eff D HealthResult) (left : ℕ) (check : Check) (endpoint : Observation)
      (address : String) (progress : Progress) (n : ℕ) (d d' : D) (result : HealthResult)
      → Onward onward left
      → ArePassed progress.observations progress.checks n
      → at_address self request material children endpoints onward check progress endpoint address d
        ≡ (returned result, d')
      → result.kind ≡ succeeded
      → ArePassed result.observations result.checks (n + suc left)
  at_address-ArePassed onward left check endpoint address progress n d d' result rest so_far h k =
      elim (Bool-cases (is_executable self check.kind)) [
        | inl known ↦
            let (answer, e, _, judged) =
              >>=-eq-returned (run_check self request material children check endpoint address)
                (after_check self request material children endpoints onward check progress)
                (if-true_at _ _ _ _ _ known h) in
            after_check-ArePassed onward left check answer progress n e d' result rest so_far judged
              k
        | inr unknown ↦
            absurd (other-succeeded _ result d d' (if-false_at _ _ _ _ _ unknown h) refl k)
      ]

  at_material-ArePassed :
      (onward : Progress → Eff D HealthResult) (left : ℕ) (check : Check) (endpoint : Observation)
      (address : Address) (progress : Progress) (n : ℕ) (d d' : D) (result : HealthResult)
      → Onward onward left
      → ArePassed progress.observations progress.checks n
      → at_material self request material children endpoints onward check progress endpoint address
          d
        ≡ (returned result, d')
      → result.kind ≡ succeeded
      → ArePassed result.observations result.checks (n + suc left)
  at_material-ArePassed onward left check endpoint (literal address) progress n d d' result rest
        so_far h k =
      at_address-ArePassed onward left check endpoint address progress n d d' result rest so_far h k
  at_material-ArePassed onward left check endpoint (secret_reference reference) progress n d d'
        result rest so_far h k =
      absurd (other-succeeded _ result d d' h refl k)
  at_material-ArePassed onward left check endpoint other_material progress n d d' result rest so_far
        h k =
      absurd (other-succeeded _ result d d' h refl k)

  at_endpoint-ArePassed :
      (onward : Progress → Eff D HealthResult) (left : ℕ) (check : Check)
      (endpoint : Option Observation) (progress : Progress) (n : ℕ) (d d' : D)
      (result : HealthResult)
      → Onward onward left
      → ArePassed progress.observations progress.checks n
      → at_endpoint self request material children endpoints onward check progress endpoint d
        ≡ (returned result, d')
      → result.kind ≡ succeeded
      → ArePassed result.observations result.checks (n + suc left)
  at_endpoint-ArePassed onward left check none progress n d d' result rest so_far h k =
      absurd (other-succeeded _ result d d' h refl k)
  at_endpoint-ArePassed onward left check (some endpoint) progress n d d' result rest so_far h k =
      at_material-ArePassed onward left check endpoint endpoint.address progress n d d' result rest
        so_far h k

  finished-ArePassed :
      (made result : HealthResult) (d d' : D) (n : ℕ)
      → ArePassed made.observations made.checks n
      → pure made d ≡ (returned result, d')
      → ArePassed result.observations result.checks n
  finished-ArePassed made result d d' n so_far h =
      let same : made ≡ result = ground arith in rw (← same) so_far

  run_checks-ArePassed :
      (checks : List Check) (progress : Progress) (n : ℕ) (d d' : D) (result : HealthResult)
      → ArePassed progress.observations progress.checks n
      → run_checks self request material children endpoints checks progress d
        ≡ (returned result, d')
      → result.kind ≡ succeeded
      → ArePassed result.observations result.checks (n + length checks)
  unfolding run_checks
  run_checks-ArePassed [] progress n d d' result so_far h k =
      finished-ArePassed _ result d d' (n + 0)
        (record {
          observed = so_far.observed;
          described = so_far.described;
          counted = omega (arith, so_far.counted);
        })
        h
  run_checks-ArePassed (check ∷ checks) progress n d d' result so_far h k =
      at_endpoint-ArePassed (run_checks self request material children endpoints checks)
        (length checks) check (endpoint_named check.provider_socket endpoints) progress n d d'
        result (run_checks-ArePassed checks) so_far h k

-- Where nothing ran.
none-ArePassed : ArePassed [] [] 0
none-ArePassed = record { observed = tt; described = tt; counted = refl }

module _ {D : Type 0} (self : Healing D) (request : Request) (endpoints : Option (List Observation))
    (children : Children D) where
  wait_for_checks-ArePassed :
      (material : Material) (checks : List Check) (d d' : D) (result : HealthResult)
      → wait_for_checks self request material endpoints children checks d ≡ (returned result, d')
      → result.kind ≡ succeeded
      → ArePassed result.observations result.checks (length checks)
  wait_for_checks-ArePassed material [] d d' result h k =
      finished-ArePassed self request material children [] _ result d d' 0 none-ArePassed h
  wait_for_checks-ArePassed material (check ∷ checks) d d' result h k =
      let (found, e, _, ran) = >>=-eq-returned (endpoints_of self request material endpoints) _ h in
      let passed : ArePassed result.observations result.checks (0 + length (check ∷ checks)) =
        run_checks-ArePassed self request material children found (check ∷ checks) no_progress 0 e
          d' result none-ArePassed ran k in
      record {
        observed = passed.observed;
        described = passed.described;
        counted = omega (arith, passed.counted);
      }

  single_product-returned :
      (products : List Material) (d d' : D) (material : Material)
      → request.products ≡ products
      → single_product request d ≡ (returned material, d')
      → products ≡ material ∷ []
  unfolding single_product
  single_product-returned [] d d' material e h = absurd (ground arith)
  single_product-returned (only ∷ []) d d' material e h = ground arith
  single_product-returned (first ∷ second ∷ more) d d' material e h = absurd (ground arith)

  -- Where `_wait_for_healthy` returns a success, the request has exactly one product, and the result
  -- holds as many results as the product has checks, all of them passed.
  pub wait_for_healthy-succeeded :
      (d d' : D) (result : HealthResult)
      → wait_for_healthy self request endpoints children d ≡ (returned result, d')
      → result.kind ≡ succeeded
      → (material : Material) × (request.products ≡ material ∷ [])
        × ArePassed result.observations result.checks (length (self.checks_of material))
  unfolding wait_for_healthy
  wait_for_healthy-succeeded d d' result h k =
      let (material, e, chosen, rest) = >>=-eq-returned (single_product request) _ h in
      (
        material,
        single_product-returned request.products d e material refl chosen,
        wait_for_checks-ArePassed material (self.checks_of material) e d' result rest k,
      )
