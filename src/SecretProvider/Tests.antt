-- ===== src/SecretProvider/Tests.antt =====
-- The client of the secret provider against a provider that answers what it is told to.
use Prim.Native.Char.{code}
use Prim.Native.String.{[] as nil, ◌∷◌ as cons}
use control_plane_kit_interp.Base.{
  ℕ, zero, suc, String, List, [], ◌∷◌, Option, none, some, refl, true, false, ◌≡◌, arith,
}
use control_plane_kit_interp.Base.Lists.{All}
use control_plane_kit_interp.Base.Json.{
  Json, null, string, array, object, end, item, stop, field, as_text, member,
}
use control_plane_kit_interp.SecretProvider.Call.{ok, give, Call}
use control_plane_kit_interp.SecretProvider.Wire.{Python, Wire, answered, chunk}
use control_plane_kit_interp.SecretProvider.Exchange.{Client, Configuration, Policy}
use control_plane_kit_interp.SecretProvider.Client.{value_base64, decoded_value, write}
use control_plane_kit_interp.SecretProvider.Client.Keys.{
  Core, gateway_probe, generate_delegation_key,
}
use control_plane_kit_interp.SecretProvider.Client.Revocations.{revoke, revoke_version}
use control_plane_kit_interp.SecretProvider.Client.Values.{IsUtf8, decoded_value-value_base64}
use control_plane_kit_interp.SecretProvider.Policy.{GrantRecord, PolicyCore, PolicyClient}
use control_plane_kit_interp.SecretProvider.Policy.Pages.{
  ListRequest, Page, PageCore, any_intent, list,
}
use control_plane_kit_interp.SecretProvider.Policy.Pages.Walk.{
  Walk, Fits, IsAscending, Walk-IsAscending,
}
use control_plane_kit_interp.SecretProvider.Trace.{traced, is_honest}
use control_plane_kit_interp.SecretProvider.Trace.Mutations.{mutations-is_honest}

-- A codec for the texts that are used here.
unfoldable codes : String → List ℕ
codes nil = []
codes (cons c s) = code c ∷ codes s

-- A grant of the provider, as JSON and as a record.
abbrev grant_json : String → Json
grant_json grant_id = object (
    field "subject" null (
      field "workspace_id" null (
        field "action" null (
          field "intent" null (
            field "grant_id" (string grant_id) (
              field "provider_id" (string "provider") (
                field "origin" null (
                  field "granted_by" null (
                    field "grant_correlation_id" null (
                      field "granted_at" null (
                        field "revoked_by" null (
                          field "revoke_correlation_id" null
                            (field "revoked_at" null stop)))))))))))))

abbrev grant_of_id : String → GrantRecord
grant_of_id grant_id = record {
  grant_id = grant_id;
  provider_id = "provider";
  coordinate = record { subject = "s"; workspace_id = "w"; action = "read"; intent = none };
  revoked_at = none;
}

abbrev page_json : String → Json → Json
page_json grant_id next = object (
    field "revision" null
      (field "grants" (array (item (grant_json grant_id) end)) (field "next_after" next stop)))

-- The first page has the grant `a` and a cursor, the second one the grant `b`.
abbrev loads : List ℕ → Option Json
loads [] = none
loads (zero ∷ rest) = some (page_json "a" (string "a"))
loads (suc n ∷ rest) = some (page_json "b" null)

abbrev python : Python
python = record {
  dumps = λ payload. some (b'{' ∷ b'}' ∷ []);
  loads = loads;
  quote = λ text. text;
  utf8 = codes;
  decode_utf8 = λ bytes. some "key";
  decode_ascii = λ bytes. some "token";
  to_int = λ text. none;
}

-- The world counts the requests: each is answered with a page, which its number names.
abbrev wire : Wire ℕ
wire = record {
  Time = Unit;
  now = λ d. (tt, d);
  late = λ started now. false;
  read_file = λ path d. (some [], d);
  send = λ request d. (
    answered (record {
      status = 200;
      content_length = none;
      content_type = some "application/json";
      pieces = chunk (d ∷ []) ∷ [];
    }),
    suc d,
  );
  close = λ d. (none, d);
}

abbrev client : Client ℕ
client = record {
  configuration = record {
    endpoint_reference = "endpoint";
    base_url = "https://secrets.test";
    credential_reference = "credential";
    credential_file = "/run/token";
  };
  policy = record { maximum_request_bytes = 1024; maximum_response_bytes = 4096 };
  python = python;
  wire = wire;
}

key-IsUtf8 : IsUtf8 python "key"
unfolding codes
key-IsUtf8 = record { bytes = (omega arith, (omega arith, (omega arith, tt))); decodes = refl }

decoded_value-value_base64_example :
    decoded_value python (string (value_base64 python "key")) ≡ ok "key"
unfolding codes
decoded_value-value_base64_example =
    decoded_value-value_base64 python "key" key-IsUtf8 (omega arith) (omega arith)

abbrev core : Core
core = record {
  purpose_value = λ purpose. "gateway-probe";
  gateway_probe_signing_key = "gateway-probe-signing-key";
  gateway_node_control_transit_signing_key = "transit";
  workload_node_control_signing_key = "workload";
  health_signing_intent_for = λ purpose. "health";
  public_key = λ algorithm id text. none;
}

mutations-is_honest_example :
    (is_honest (write (traced client) "ws" "ref" "key" "intent" "caller" "corr") 0 ≡ true)
    × (is_honest
          (generate_delegation_key core
            (traced client)
            "ws"
            "ref"
            gateway_probe
            "issuer"
            "caller"
            "corr")
          0
        ≡ true)
    × (is_honest (revoke (traced client) "ws" "ref" "caller" "corr") 0 ≡ true)
    × (is_honest (revoke_version (traced client) "ws" "ref" "v1" 1 "caller" "corr") 0 ≡ true)
mutations-is_honest_example =
    mutations-is_honest core client "ws" "ref" "caller" "corr" "key" "intent" "issuer" "v1"
      gateway_probe 1 0

abbrev policy_core : PolicyCore
policy_core = record {
  command_result = λ value. none;
  grant_record = λ value. elim (as_text (member "grant_id" value)) [
    | none ↦ none
    | some grant_id ↦ some (grant_of_id grant_id)
  ];
  matches = λ result command. false;
  fresh = "uuid";
}

abbrev page_core : PageCore
page_core = record {
  is_revision = λ value. true;
  page_cursor = λ revision grants next. some (as_text next);
  encode = λ wanted. "limit=1";
}

abbrev policy_client : PolicyClient ℕ
policy_client = record {
  logical_provider_id = "logical";
  provider_id = "provider";
  client = client;
}

abbrev wanted_after : Option String → ListRequest
wanted_after after = record {
  logical_provider_id = "logical";
  subject = none;
  workspace_id = none;
  action = none;
  intent = none;
  intent_mode = any_intent;
  limit = 1;
  after_grant_id = after;
}

abbrev page_of : String → Option String → Page
page_of grant_id next = record {
  revision = null;
  grants = grant_of_id grant_id ∷ [];
  next_after = next;
}

abbrev both_grants : List GrantRecord
both_grants = grant_of_id "a" ∷ grant_of_id "b" ∷ []

-- Two pages.
two_pages : Walk policy_core page_core policy_client (wanted_after none) both_grants
unfolding list control_plane_kit_interp.SecretProvider.Call.demand
    control_plane_kit_interp.SecretProvider.Exchange.Bounded.read_response
    control_plane_kit_interp.SecretProvider.Call.◌then◌
    control_plane_kit_interp.SecretProvider.Exchange.Bounded.judge_response
two_pages =
    Walk.go_on (wanted_after none) 0 1 (page_of "a" (some "a")) "a" (grant_of_id "b" ∷ []) refl refl
      (Walk.stop_at (wanted_after (some "a")) 1 2 (page_of "b" none) refl)

Walk-IsAscending_example :
    IsAscending "" both_grants × All (Fits "provider" (wanted_after none)) both_grants
Walk-IsAscending_example =
    Walk-IsAscending policy_core page_core policy_client (wanted_after none) both_grants two_pages
