-- ===== src/SecretProvider/Trace/Requests.antt =====
-- `_request_json` (secret_provider/client.py) as a whole, for a mutation.
use control_plane_kit_interp.Base.{ℕ, String, true, false, List, [], ◌∷◌, Option, ◌≡◌, refl, ◌∙◌}
use control_plane_kit_interp.Base.Dict.{Dict}
use control_plane_kit_interp.Base.Json.{Json}
use control_plane_kit_interp.SecretProvider.Call.{
  malformed_request, Answer, ok, failed, Call, next, settle, ◌>>=◌, demand, certain,
}
use control_plane_kit_interp.SecretProvider.Wire.{Response, Sending, no_response, answered, Sent}
use control_plane_kit_interp.SecretProvider.Exchange.{Client, audit_allowed, declared_fits}
use control_plane_kit_interp.SecretProvider.Exchange.Bounded.{
  body_of, bounded_body, read_response, judge_response, received, exchange, credential,
  request_json,
}
use control_plane_kit_interp.SecretProvider.Trace.{
  answered_with, Log, event_of, traced, is_definite, is_unapplied, IsHonest,
}
use control_plane_kit_interp.SecretProvider.Trace.Exchanged.{
  broken-uncertain, declared_fits-uncertain, read_response-uncertain, judge_response-refusal,
}

module _ {D A B : Type 0} where
  -- What is settled without the provider comes before an honest rest.
  pub settle-IsHonest :
      (a : Answer A) (f : A → Call (D × Log) B)
      → ((x : A) → IsHonest (f x))
      → IsHonest (settle a >>= f)
  settle-IsHonest (ok x) f rest = record { at = λ d h. (rest x).at d h }
  settle-IsHonest (failed x) f rest = record { at = λ d h. refl }

  -- After an honest call, a judgement that is never definite.
  pub IsHonest-settle :
      (m : Call (D × Log) A) (g : A → Answer B)
      → IsHonest m
      → ((x : A) → is_definite (g x) ≡ false)
      → IsHonest (m >>= λ x. settle (g x))
  IsHonest-settle m g honest judged = record { at = λ d h. after d (m (d, [])) (honest.at d) h }
    where
      after :
          (d : D) (r : Answer A × (D × Log))
          → (is_definite r.0 ≡ true → is_unapplied r.1.1 ≡ true)
          → is_definite (((λ _. r) >>= λ x. settle (g x)) (d, [])).0 ≡ true
          → is_unapplied (((λ _. r) >>= λ x. settle (g x)) (d, [])).1.1 ≡ true
      after d (ok x, s) k h = absurd (cc (judged x, h))
      after d (failed x, s) k h = k h

module _ {D : Type 0} (self : Client D) where
  open self use {wire}

  -- After the response was read, its log is still the one event of its status.
  judged :
      (response : Response) (r : Answer (List ℕ) × (D × Log))
      → (is_definite r.0 ≡ false) × (r.1.1 ≡ answered_with response.status ∷ [])
      → is_definite
          (next r.0 (λ content. settle (judge_response (traced self) true response content)) r.1).0
        ≡ true
      → is_unapplied
          (next r.0
            (λ content. settle (judge_response (traced self) true response content))
            r.1).1.1
        ≡ true
  judged response (ok content, s) (u, e) h = rw e (judge_response-refusal self response content h)
  judged response (failed x, s) (u, e) h = absurd (cc (u, h))

  fitting :
      (started : wire.Time) (response : Response) (a : Answer (Unit {0})) (s : D × Log)
      → is_definite a ≡ false
      → s.1 ≡ answered_with response.status ∷ []
      → is_definite
          (next a
            (λ _. read_response (traced self) true started response >>= λ content.
              settle (judge_response (traced self) true response content))
            s).0
        ≡ true
      → is_unapplied
          (next a
            (λ _. read_response (traced self) true started response >>= λ content.
              settle (judge_response (traced self) true response content))
            s).1.1
        ≡ true
  fitting started response (ok _) s u e h =
      let (uncertain, same) = read_response-uncertain self started response s in
      judged response (read_response (traced self) true started response s) (uncertain, same ∙ e) h
  fitting started response (failed x) s u e h = absurd (cc (u, h))

  received-refusal :
      (started : wire.Time) (sending : Sending) (d : D)
      → is_definite (received (traced self) true started sending (d, event_of sending ∷ [])).0
        ≡ true
      → is_unapplied (received (traced self) true started sending (d, event_of sending ∷ [])).1.1
        ≡ true
  received-refusal started (no_response b) d h = absurd (cc (broken-uncertain b, h))
  received-refusal started (answered response) d h =
      fitting started response
        (declared_fits self.python true self.policy.maximum_response_bytes response.content_length)
        (d, answered_with response.status ∷ [])
        (declared_fits-uncertain self.python self.policy.maximum_response_bytes
          response.content_length)
        refl h

  authorized :
      (a : Answer String) (request : String → Sent) (d : D)
      → is_definite (next a (λ token. exchange (traced self) true (request token)) (d, [])).0 ≡ true
      → is_unapplied (next a (λ token. exchange (traced self) true (request token)) (d, [])).1.1
        ≡ true
  authorized (ok token) request d h =
      received-refusal (wire.now d).0 (wire.send (request token) (wire.now d).1).0
        (wire.send (request token) (wire.now d).1).1 h
  authorized (failed x) request d h = refl

  pub request_json-IsHonest :
      (method path : String) (payload : Option (Dict Json)) (audit : Option String)
      → IsHonest (request_json (traced self) true method path payload audit)
  unfolding request_json
  request_json-IsHonest method path payload audit =
      settle-IsHonest (demand (audit_allowed audit) (certain malformed_request)) _ λ _.
        settle-IsHonest
          (bounded_body self.policy.maximum_request_bytes (body_of self.python payload)) _
          λ body. record {
            at = λ d h.
                authorized (credential self true d).0
                  (λ token. record {
                    base_url = self.configuration.base_url;
                    method = method;
                    path = path;
                    token = token;
                    audit = audit;
                    body = body;
                  })
                  (credential self true d).1 h;
          }
