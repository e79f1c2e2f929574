-- ===== src/Docker/Result.antt =====
-- `RuntimeEffectResult` of Core, as the interpreter builds it.
use control_plane_kit_interp.Base.{String, List, [], Option, none, some}
use control_plane_kit_interp.Base.Dict.{Dict}
use control_plane_kit_interp.Request.{Request}

-- `EffectResultKind`
pub data Kind : Type 0 where
  succeeded failed unsupported uncertain_kind : Kind

-- `RuntimeEffectFailure`
pub record Failure : Type 0 where
  pub code : String
  pub message : String
  pub details : Dict String

-- `EndpointContext`
pub data Context : Type 0 where
  runtime_private host_local public : Context

-- `RuntimeEndpointObservation` with literal address material
pub record Endpoint : Type 0 where
  pub subject_id : String
  pub socket_name : String
  pub graph_id : String
  pub protocol : String
  pub context : Context
  pub address : String

pub record Result : Type 0 where
  pub effect_id : String
  pub kind : Kind
  pub evidence : Dict String
  pub failure : Option Failure
  pub observations : List Endpoint

abbrev pub succeed : Request → Dict String → List Endpoint → Result
succeed request evidence observations = record {
  effect_id = request.effect_id;
  kind = succeeded;
  evidence = evidence;
  failure = none;
  observations = observations;
}

abbrev pub fail : Kind → Request → String → String → Dict String → Result
fail kind request code message details = record {
  effect_id = request.effect_id;
  kind = kind;
  evidence = [];
  failure = some (record { code = code; message = message; details = details });
  observations = [];
}

-- `_unsupported`, `_failed`
abbrev pub unsupported_result : Request → String → Result
unsupported_result request code =
    fail unsupported request code "Docker runtime interpreter does not support request" []

abbrev pub failed_result : Request → String → String → Result
failed_result request code message = fail failed request code message []
