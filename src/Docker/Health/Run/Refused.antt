-- ===== src/Docker/Health/Run/Refused.antt =====
-- HTTP checks of a Docker product outside the network of its runtime: the policy that they are given
-- trusts no host and no public name.
use control_plane_kit_interp.Base.{
  not, ◌&&◌, ◌==◌, ℕ, zero, suc, String, Bool, false, List, Option, none, ◌≡◌, ◌≢◌, refl, sym, ◌∙◌,
  ap, if-false_at, arith,
}
use control_plane_kit_interp.Base.Text.{all_chars}
use control_plane_kit_interp.Effect.{
  returned, Eff, pure, require, ◌then◌, Exc, value_error, type_error,
}
use control_plane_kit_interp.Effect.Laws.{>>=-eq-returned, then-eq-returned}
use control_plane_kit_interp.Request.{Request, Material}
use control_plane_kit_interp.Docker.Result.{Context, runtime_private, host_local, public}
use control_plane_kit_interp.Docker.Health.{Healing}
use control_plane_kit_interp.Docker.Health.Run.{
  trusting, single_attempt, material_for, unless_zero, http_interpreter, http_round, numbered,
  has_passed, http_rounds, direct_http_check, http_health_check,
}
use control_plane_kit_interp.Probes.Security.{
  Verdict, allowed, blocked, broke, Observation, SecurityCode, Target, resolve_address,
  unresolved_endpoint, invalid_endpoint, untrusted_address, unsafe_url,
}
use control_plane_kit_interp.Probes.Security.Trusted.{authorize_probe_endpoint-IsTrusted, IsTrusted}
use control_plane_kit_interp.Verification.{
  Check, CheckKind, rejected, http, http_check, postgres_check, redis_check, other_check,
  CheckMaterial, Completed, CheckResult, completed, unsupported_check, is_passed, is_supported,
  check_material, observation_of, Step, again, stop, pause, settle_step, attempts_from,
  run_attempts,
}
use control_plane_kit_interp.Verification.Http.{
  HttpInterpreter, seen, refused, authorize, public_step, public_attempt, first_result, direct_run,
  run_http, by_kind, execute_http,
}

-- A run whose result, where it has one, did not pass.
record Fails {D : Type 0} (run : Eff D CheckResult) : Type 0 where
  at : (d d' : D) (answer : CheckResult) → run d ≡ (returned answer, d') → has_passed answer ≡ false

untrusted :
    {D : Type 0} (self : Healing D) (address : String) (context : Context) (d : D) (target : Target)
    → context ≢ runtime_private
    → IsTrusted self.net (trusting address) none d context target
    → ⊥
untrusted self address runtime_private d target outside trusted = outside refl
untrusted self address host_local d target outside (now, at) = absurd (ground arith)
untrusted self address public d target outside trusted = trusted

-- A step that goes on or returns with a result that did not pass.
abbrev HasFailed : Step → Type 0
HasFailed (again result) = is_passed result.outcome ≡ false
HasFailed (stop result) = is_passed result.outcome ≡ false

module _ {D : Type 0} (sleep : Eff D (Unit {0})) (body : ℕ → Eff D Step)
    (fails : (n : ℕ) (d d' : D) (step : Step)
      → body n d ≡ (returned step, d')
      → HasFailed step) where
  abbrev Onward : ℕ → Type 0
  Onward left =
      (n : ℕ) (last : Completed) (d d' : D) (result : Completed)
      → is_passed last.outcome ≡ false
      → attempts_from sleep left n body last d ≡ (returned result, d')
      → is_passed result.outcome ≡ false

  settled-failed :
      (left n : ℕ) (step : Step) (d d' : D) (result : Completed)
      → Onward left
      → HasFailed step
      → settle_step sleep (attempts_from sleep left (suc n) body) step d ≡ (returned result, d')
      → is_passed result.outcome ≡ false
  settled-failed left n (stop seen) d d' result more failed h =
      let same : seen ≡ result = ground arith in rw (← same) failed
  settled-failed left n (again seen) d d' result more failed h =
      more (suc n) seen d d' result failed h

  attempts_from-failed : (left : ℕ) → Onward left
  unfolding attempts_from
  attempts_from-failed zero n last d d' result failed h =
      let same : last ≡ result = ground arith in rw (← same) failed
  attempts_from-failed (suc left) n last d d' result failed h =
      let (_, e, _, rest) = >>=-eq-returned (pause sleep n) _ h in
      let (step, e', judged, final) = >>=-eq-returned (body n) _ rest in
      settled-failed left n step e' d' result (attempts_from-failed left) (fails n e e' step judged)
        final

module _ {D : Type 0} (self : Healing D) (address : String) (material : CheckMaterial)
    (outside : material.endpoint.context ≢ runtime_private) where
  abbrev interpreter : HttpInterpreter D
  interpreter = http_interpreter self address

  never-allowed :
      (d : D) (target : Target) → (authorize interpreter material d).0 ≡ allowed target → ⊥
  unfolding authorize
  never-allowed d target h =
      untrusted self address material.endpoint.context
        (resolve_address self.net material.endpoint.address none d).1 target outside
        (authorize_probe_endpoint-IsTrusted self.net (trusting address) material.endpoint none none
          d (authorize interpreter material d).1 target
          (λ i. (h i, (authorize interpreter material d).1)))

  direct_run-failed :
      (v : Verdict Target) (path : String) (statuses : List ℕ) (d d' : D) (answer : CheckResult)
      → ((target : Target) → v ≡ allowed target → ⊥)
      → direct_run interpreter material self.security_error path statuses v d
        ≡ (returned answer, d')
      → has_passed answer ≡ false
  unfolding observation_of
  direct_run-failed (allowed target) path statuses d d' answer never h = absurd (never target refl)
  direct_run-failed (blocked code) path statuses d d' answer never h =
      let same : completed (seen interpreter material rejected 1 none) ≡ answer = ground arith in
      rw (← same) refl
  direct_run-failed (broke e) path statuses d d' answer never h = absurd (ground arith)

  refused-failed : (n : ℕ) (code : SecurityCode) → HasFailed (refused interpreter material n code)
  unfolding observation_of
  refused-failed n unresolved_endpoint = refl
  refused-failed n invalid_endpoint = refl
  refused-failed n untrusted_address = refl
  refused-failed n unsafe_url = refl

  public_step-failed :
      (v : Verdict Target) (path : String) (statuses : List ℕ) (n : ℕ) (d d' : D) (step : Step)
      → ((target : Target) → v ≡ allowed target → ⊥)
      → public_step interpreter material self.security_error path statuses n v d
        ≡ (returned step, d')
      → HasFailed step
  public_step-failed (allowed target) path statuses n d d' step never h = absurd (never target refl)
  public_step-failed (blocked code) path statuses n d d' step never h =
      let same : refused interpreter material n code ≡ step = ground arith in
      rw (← same) (refused-failed n code)
  public_step-failed (broke e) path statuses n d d' step never h = absurd (ground arith)

  public_run-failed :
      (path : String) (statuses : List ℕ) (d d' : D) (result : Completed)
      → run_attempts self.sleep material.check.policy
          (public_attempt interpreter material self.security_error path statuses)
          (first_result interpreter material)
          d
        ≡ (returned result, d')
      → is_passed result.outcome ≡ false
  unfolding run_attempts public_attempt observation_of
  public_run-failed path statuses d d' result h =
      attempts_from-failed self.sleep _
        (λ n e e' step g. public_step-failed _ path statuses n _ e' step (never-allowed e) g)
        material.check.policy.maximum_attempts 1 (first_result interpreter material) d d' result
        refl h

  completed-failed :
      (result : Completed) (d d' : D) (answer : CheckResult)
      → is_passed result.outcome ≡ false
      → pure (completed result) d ≡ (returned answer, d')
      → has_passed answer ≡ false
  completed-failed result d d' answer failed h =
      let same : completed result ≡ answer = ground arith in rw (← same) failed

  run_http-failed :
      (context : Context) (path : String) (statuses : List ℕ) (d d' : D) (answer : CheckResult)
      → context ≢ runtime_private
      → run_http interpreter material self.security_error context path statuses d
        ≡ (returned answer, d')
      → has_passed answer ≡ false
  run_http-failed runtime_private path statuses d d' answer other h = absurd (other refl)
  run_http-failed host_local path statuses d d' answer other h =
      direct_run-failed _ path statuses _ d' answer (never-allowed d) h
  run_http-failed public path statuses d d' answer other h =
      let (result, e, run, final) =
        >>=-eq-returned
          (run_attempts self.sleep material.check.policy
            (public_attempt interpreter material self.security_error path statuses)
            (first_result interpreter material))
          (λ r. pure (completed r)) h in
      completed-failed result e d' answer (public_run-failed path statuses d e result run) final

  by_kind-failed :
      (kind : CheckKind) (d d' : D) (answer : CheckResult)
      → by_kind interpreter material self.security_error kind d ≡ (returned answer, d')
      → has_passed answer ≡ false
  by_kind-failed (http_check path statuses digest) d d' answer h =
      run_http-failed material.endpoint.context path statuses d d' answer outside h
  by_kind-failed (postgres_check authentication) d d' answer h = ground arith
  by_kind-failed redis_check d d' answer h = ground arith
  by_kind-failed other_check d d' answer h = ground arith

-- Four checks that passed let their value through.
admitted-eq :
    {A : Type 0} (a s b c : Bool) (e f : Exc) (made found : A)
    → (require a e then require s f then require b e then require c e then returned made)
      ≡ returned found
    → made ≡ found
admitted-eq a s b c e f made found h =
    let (_, typed) =
      then-eq-returned (require a e)
        (require s f then require b e then require c e then returned made) h in
    let (_, later) =
      then-eq-returned (require s f) (require b e then require c e then returned made) typed in
    let (_, last) = then-eq-returned (require b e) (require c e then returned made) later in
    let (_, same) = then-eq-returned (require c e) (returned made) last in ground arith

module _ {D : Type 0} (self : Healing D) (material : Material) (request : Request) (check : Check)
    (endpoint : Observation) (address : String) (outside : endpoint.context ≢ runtime_private) where
  same_endpoint :
      (made : CheckMaterial) (d d' : D)
      → material_for self material request (single_attempt check) endpoint d ≡ (returned made, d')
      → made.endpoint ≡ endpoint
  unfolding check_material
  same_endpoint made d d' h = sym (
      ap (λ (m : CheckMaterial). m.endpoint)
        (admitted-eq
          (not (all_chars self.interpreter.is_space material.node_id)
            && not (all_chars self.interpreter.is_space request.desired_graph_id))
          (is_supported check.kind)
          ((endpoint.subject_id == material.node_id)
            && (endpoint.graph_id == request.desired_graph_id))
          (endpoint.socket_name == check.provider_socket) value_error type_error
          (record {
            node_id = material.node_id;
            graph_id = request.desired_graph_id;
            check = single_attempt check;
            endpoint = endpoint;
          })
          made (λ i. (h i).0)))

  http_round-Fails : Fails (http_round self material request check endpoint address)
  unfolding http_round execute_http
  http_round-Fails = record {
    at = λ d d' answer h.
        let (made, e, admitted, run) =
          >>=-eq-returned (material_for self material request (single_attempt check) endpoint) _
            h in
        by_kind-failed self address made
          (λ inside.
            outside (
              ap (λ (o : Observation). o.context) (sym (same_endpoint made d e admitted)) ∙ inside))
          made.check.kind e d' answer run;
  }

numbered-failed :
    (n : ℕ) (answer : CheckResult)
    → has_passed answer ≡ false
    → has_passed (numbered n answer) ≡ false
numbered-failed n (completed result) h = h
numbered-failed n (unsupported_check capability) h = refl

module _ {D : Type 0} (self : Healing D) (round : Eff D CheckResult) (fails : Fails round) where
  http_rounds-failed :
      (left maximum n : ℕ) (last : CheckResult) (d d' : D) (answer : CheckResult)
      → has_passed last ≡ false
      → http_rounds self left maximum round n last d ≡ (returned answer, d')
      → has_passed answer ≡ false
  unfolding http_rounds
  http_rounds-failed zero maximum n last d d' answer failed h =
      let same : numbered maximum last ≡ answer = ground arith in
      rw (← same) (numbered-failed maximum last failed)
  http_rounds-failed (suc left) maximum n last d d' answer failed h =
      let (_, e, _, rest) = >>=-eq-returned (pause self.sleep n) _ h in
      let (seen_now, e', judged, final) = >>=-eq-returned round _ rest in
      let failed_now : has_passed seen_now ≡ false = fails.at e e' seen_now judged in
      http_rounds-failed left maximum (suc n) seen_now e' d' answer failed_now
        (if-false_at _ _ _ _ _ failed_now final)

module _ {D : Type 0} (self : Healing D) where
  direct_http_check-failed :
      (material : Material) (request : Request) (check : Check) (endpoint : Observation)
      (address : String) (maximum : ℕ) (d d' : D) (answer : CheckResult)
      → endpoint.context ≢ runtime_private
      → unless_zero self maximum
          (http_rounds self maximum maximum
            (http_round self material request check endpoint address)
            1
            (unsupported_check http))
          d
        ≡ (returned answer, d')
      → has_passed answer ≡ false
  direct_http_check-failed material request check endpoint address zero d d' answer outside h =
      absurd (ground arith)
  direct_http_check-failed material request check endpoint address (suc left) d d' answer outside
        h =
      http_rounds-failed self (http_round self material request check endpoint address)
        (http_round-Fails self material request check endpoint address outside) (suc left)
        (suc left) 1 (unsupported_check http) d d' answer refl h

  by_context-failed :
      (context : Context) (material : Material) (request : Request) (check : Check)
      (endpoint : Observation) (address path : String) (statuses : List ℕ) (digest : Option String)
      (d d' : D) (answer : CheckResult)
      → context ≢ runtime_private
      → endpoint.context ≢ runtime_private
      → http_health_check self context material request check endpoint address path statuses digest
          d
        ≡ (returned answer, d')
      → has_passed answer ≡ false
  unfolding http_health_check direct_http_check
  by_context-failed runtime_private material request check endpoint address path statuses digest d
        d' answer other outside h =
      absurd (other refl)
  by_context-failed host_local material request check endpoint address path statuses digest d d'
        answer other outside h =
      direct_http_check-failed material request check endpoint address check.policy.maximum_attempts
        d d' answer outside h
  by_context-failed public material request check endpoint address path statuses digest d d' answer
        other outside h =
      direct_http_check-failed material request check endpoint address check.policy.maximum_attempts
        d d' answer outside h

  -- `_execute_http_health_check` of an endpoint outside the network of the runtime never returns a
  -- result that passed, whatever the endpoint would answer.
  pub http_health_check-refused :
      (material : Material) (request : Request) (check : Check) (endpoint : Observation)
      (address path : String) (statuses : List ℕ) (digest : Option String) (d d' : D)
      (answer : CheckResult)
      → endpoint.context ≢ runtime_private
      → http_health_check self endpoint.context material request check endpoint address path
          statuses digest d
        ≡ (returned answer, d')
      → has_passed answer ≡ false
  http_health_check-refused material request check endpoint address path statuses digest d d' answer
        outside h =
      by_context-failed endpoint.context material request check endpoint address path statuses
        digest d d' answer outside outside h
