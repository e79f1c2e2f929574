-- ===== src/SecretProvider/Trace.antt =====
-- The exchanges that a client of the provider makes: any wire, with a log of what was sent and of
-- the status that came back. The newest event stands first.
pub mod Exchanged
pub mod Requests
pub mod Judgements
pub mod Mutations
use control_plane_kit_interp.Base.{
  Bool-cases, inl, inr, arith, not, ℕ, Bool, true, false, ◌&&◌, ◌||◌, List, [], ◌∷◌, ◌≡◌, ltb, leb,
}
use control_plane_kit_interp.SecretProvider.Call.{
  Certainty, definite, uncertain, Failure, client_error, bootstrap_error, mismatched_reference,
  foreign, Answer, ok, failed, Call,
}
use control_plane_kit_interp.SecretProvider.Wire.{Response, Sending, no_response, answered, Wire}
use control_plane_kit_interp.SecretProvider.Exchange.{Client}

pub data Event : Type 0 where
  -- a request without a response
  lost : Event
  -- a request that was answered with a status
  answered_with : ℕ → Event

abbrev pub Log : Type 0
Log = List Event

abbrev pub event_of : Sending → Event
event_of (no_response b) = lost
event_of (answered response) = answered_with response.status

module _ {D : Type 0} where
  abbrev pub traced_wire : Wire D → Wire (D × Log)
  traced_wire w = record {
    Time = w.Time;
    now = λ s. ((w.now s.0).0, ((w.now s.0).1, s.1));
    late = w.late;
    read_file = λ path s. ((w.read_file path s.0).0, ((w.read_file path s.0).1, s.1));
    send = λ request s.
        ((w.send request s.0).0, ((w.send request s.0).1, event_of (w.send request s.0).0 ∷ s.1));
    close = λ s. ((w.close s.0).0, ((w.close s.0).1, s.1));
  }

  abbrev pub traced : Client D → Client (D × Log)
  traced self = record {
    configuration = self.configuration;
    policy = self.policy;
    python = self.python;
    wire = traced_wire self.wire;
  }

-- A failure that says that the provider did nothing.
abbrev pub claims_definite : Failure → Bool
claims_definite (client_error code definite) = true
claims_definite (client_error code uncertain) = false
claims_definite bootstrap_error = false
claims_definite mismatched_reference = false
claims_definite (foreign e) = false

abbrev pub is_definite : {A : Type 0} → Answer A → Bool
is_definite (ok a) = false
is_definite (failed x) = claims_definite x

-- A status that refuses: no success, no redirection, and no error of the server.
abbrev pub is_refusal : ℕ → Bool
is_refusal status = (ltb status 200 || leb 400 status) && ltb status 500

-- Nothing was sent, or the one request was refused.
abbrev pub is_unapplied : Log → Bool
is_unapplied [] = true
is_unapplied (lost ∷ log) = false
is_unapplied (answered_with status ∷ []) = is_refusal status
is_unapplied (answered_with status ∷ event ∷ log) = false

-- A run from an empty log that ends with a definite failure has applied nothing.
pub record IsHonest {D A : Type 0} (m : Call (D × Log) A) : Type 0 where
  pub at : (d : D) → is_definite (m (d, [])).0 ≡ true → is_unapplied (m (d, [])).1.1 ≡ true

-- A run from an empty log does not claim to be without an effect where it may have had one.
abbrev pub is_honest : {D A : Type 0} → Call (D × Log) A → D → Bool
is_honest m d = not (is_definite (m (d, [])).0) || is_unapplied (m (d, [])).1.1

pub IsHonest-is_honest :
    {D A : Type 0} (m : Call (D × Log) A) (d : D) → IsHonest m → is_honest m d ≡ true
IsHonest-is_honest m d h = elim (Bool-cases (is_definite (m (d, [])).0)) [
  | inl sure ↦ ground (arith, h.at d sure)
  | inr other ↦ ground arith
]
