-- ===== src/SecretProvider/Trace/Exchanged.antt =====
-- The definite errors of one exchange of secret_provider/client.py that may change the provider.
use control_plane_kit_interp.Base.{
  ℕ, String, true, false, List, [], ◌∷◌, ◌++◌, Option, none, some, ◌≡◌, refl, ap, ◌∙◌, ◌||◌, leb,
  ltb, arith,
}
use control_plane_kit_interp.Base.Dict.{Dict}
use control_plane_kit_interp.Base.Json.{Json, as_object, as_text, member}
use control_plane_kit_interp.SecretProvider.Call.{demand, ◌then◌, Answer, ok, failed, certainty}
use control_plane_kit_interp.SecretProvider.Wire.{Python, Broken, Piece, chunk, broke, Response}
use control_plane_kit_interp.SecretProvider.Exchange.{
  Client, broken, judge_length, declared_fits, provider_error, refusal_with, refusal_of,
}
use control_plane_kit_interp.SecretProvider.Exchange.Bounded.{
  read_pieces, closing, read_response, decoded, answer_of, judge_response,
}
use control_plane_kit_interp.SecretProvider.Trace.{
  Log, traced, claims_definite, is_definite, is_refusal,
}

pub broken-uncertain : (b : Broken) → claims_definite (broken true b) ≡ false
unfolding broken certainty
broken-uncertain Broken.timeout = refl
broken-uncertain Broken.http_error = refl
broken-uncertain (Broken.other_error e) = refl

pub declared_fits-uncertain :
    (python : Python) (limit : ℕ) (declared : Option String)
    → is_definite (declared_fits python true limit declared) ≡ false
unfolding declared_fits demand certainty
declared_fits-uncertain python limit none = refl
declared_fits-uncertain python limit (some declared) =
    elim (python.to_int declared) as (λ n. is_definite (judge_length true limit n) ≡ false) [
      | none ↦ refl
      | some n ↦ ground arith
    ]

decoded-uncertain : (value : Option Json) → is_definite (decoded true value) ≡ false
unfolding decoded certainty
decoded-uncertain none = refl
decoded-uncertain (some value) = ground arith

refusal_with-refusal :
    (status : ℕ) (outcome code : Option String)
    → claims_definite (refusal_with status true outcome code) ≡ true
    → leb 500 status ≡ false
unfolding certainty
refusal_with-refusal status none code h = absurd (ground arith)
refusal_with-refusal status (some outcome) none h = absurd (ground arith)
refusal_with-refusal status (some outcome) (some code) h = ground arith

refusal_of-refusal :
    (status : ℕ) (detail : Option (Dict Json))
    → claims_definite (refusal_of status true detail) ≡ true
    → leb 500 status ≡ false
unfolding certainty
refusal_of-refusal status none h = absurd (ground arith)
refusal_of-refusal status (some detail) h = ground (
  arith,
  refusal_with-refusal status (as_text (member "outcome" detail)) (as_text (member "code" detail)),
)

provider_error-refusal :
    (status : ℕ) (payload : Dict Json)
    → claims_definite (provider_error status payload true) ≡ true
    → leb 500 status ≡ false
unfolding provider_error certainty
provider_error-refusal status payload h =
    ground (arith, refusal_of-refusal status (as_object (member "detail" payload)))

module _ {D : Type 0} (self : Client D) where
  open self use {wire}

  read_pieces-uncertain :
      (pieces : List Piece) (started : wire.Time) (content : List ℕ) (s : D × Log)
      → (is_definite (read_pieces (traced self) true started content pieces s).0 ≡ false)
        × ((read_pieces (traced self) true started content pieces s).1.1 ≡ s.1)
  unfolding read_pieces demand ◌then◌ certainty
  read_pieces-uncertain [] started content s = ground arith
  read_pieces-uncertain (broke b ∷ rest) started content s = (broken-uncertain b, refl)
  read_pieces-uncertain (chunk bytes ∷ rest) started content s =
      ground (arith, read_pieces-uncertain rest started (content ++ bytes) ((wire.now s.0).1, s.1))

  closing-uncertain :
      (a : Answer (List ℕ)) (r : Option Broken × (D × Log))
      → is_definite a ≡ false
      → (is_definite (closing (traced self) true a r).0 ≡ false)
        × ((closing (traced self) true a r).1 ≡ r.1)
  closing-uncertain a (none, s) h = (h, refl)
  closing-uncertain a (some b, s) h = (broken-uncertain b, refl)

  pub read_response-uncertain :
      (started : wire.Time) (response : Response) (s : D × Log)
      → (is_definite (read_response (traced self) true started response s).0 ≡ false)
        × ((read_response (traced self) true started response s).1.1 ≡ s.1)
  unfolding read_response
  read_response-uncertain started response s =
      let (uncertain, same) = read_pieces-uncertain response.pieces started [] s in
      let (result, state) =
        closing-uncertain (read_pieces (traced self) true started [] response.pieces s).0
          ((traced self).wire.close (read_pieces (traced self) true started [] response.pieces s).1)
          uncertain in
      (result, ap (λ r. r.1) state ∙ same)

  answer_of-refusal :
      (response : Response) (a : Answer (Dict Json))
      → is_definite a ≡ false
      → (ltb response.status 300 || leb 400 response.status) ≡ true
      → is_definite (answer_of (traced self) true response a) ≡ true
      → is_refusal response.status ≡ true
  answer_of-refusal response (failed x) u n h = absurd (ground arith)
  answer_of-refusal response (ok payload) u n h =
      ground (arith, provider_error-refusal response.status payload)

  pub judge_response-refusal :
      (response : Response) (content : List ℕ)
      → is_definite (judge_response (traced self) true response content) ≡ true
      → is_refusal response.status ≡ true
  unfolding judge_response certainty
  judge_response-refusal response content h = ground (
    arith,
    decoded-uncertain (self.python.loads content),
    answer_of-refusal response (decoded true (self.python.loads content)),
  )
