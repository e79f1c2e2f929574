-- ===== src/Probes/Security.antt =====
-- probes/security.py: which endpoint a probe may connect to, under a policy of trusted addresses.
pub mod Trusted
use Prim.Native.Char.{code}
use Prim.Native.String.{[] as nil, ◌∷◌ as cons, ◌++◌ as append}
use text.Mathlib.Text.{starts_with}
use control_plane_kit_interp.Base.{
  ℕ, String, Bool, true, false, not, ◌&&◌, ◌||◌, List, [], ◌∷◌, Option, none, some, ◌==◌, ltb, beq,
  is_none, if◌then◌else◌,
}
use control_plane_kit_interp.Base.Lists.{all, any}
use control_plane_kit_interp.Base.Text.{lower}
use control_plane_kit_interp.Effect.{Exc, Outcome, returned, raised, Eff, value_error}
use control_plane_kit_interp.Url.{Split}
use control_plane_kit_interp.Docker.Result.{Context, runtime_private, host_local, public}

-- `ProbeSecurityCode`
pub data SecurityCode : Type 0 where
  invalid_endpoint unresolved_endpoint untrusted_address unsafe_url : SecurityCode

-- How an authorization ends: with a value, a `ProbeSecurityError(code)` or another exception.
pub data Verdict (A : Type 0) : Type 0 where
  allowed : A → Verdict A
  blocked : SecurityCode → Verdict A
  broke : Exc → Verdict A

-- `LiteralEndpointMaterial`, `SecretEndpointMaterial`, or other material
pub data Address : Type 0 where
  literal secret_reference : String → Address
  other_material : Address

-- `RuntimeEndpointObservation`
pub record Observation : Type 0 where
  pub subject_id : String
  pub graph_id : String
  pub socket_name : String
  pub protocol : String
  pub context : Context
  pub address : Address

-- `ProbeAddressPolicy`
pub record AddressPolicy : Type 0 where
  pub runtime_private_authorities : List String
  pub public_hosts : List String
  pub allow_host_local : Bool
  pub allow_plaintext_public_http : Bool

-- An address of Python's `ipaddress`, with `str` of it.
pub record Ip : Type 0 where
  pub version : ℕ
  pub value : ℕ
  pub is_global : Bool
  pub is_loopback : Bool
  pub text : String

-- `AuthorizedProbeTarget`
pub record Target : Type 0 where
  pub context : Context
  pub base_url : String
  pub connect_host : String
  pub port : ℕ
  pub host_header : Option String
  pub sni_hostname : Option String

-- What the module takes from Python and Core: `urlsplit` (`none` is its `ValueError`), `ip_address`
-- in the same way, the decimal text of a number, the schemes of a protocol, whether an exception is
-- an `Exception`, and the code of one that is a `ProbeSecurityError`.
pub record Network : Type 0 where
  pub urlsplit : String → Option Split
  pub ip_address : String → Option Ip
  pub decimal : ℕ → String
  pub protocol_endpoint_schemes : String → List String
  pub is_exception : Exc → Bool
  pub security_code : Exc → Option SecurityCode

abbrev pub is_in : List String → String → Bool
is_in values value = any (λ v. v == value) values

-- `":" in host`
unfoldable pub has_colon : String → Bool
has_colon nil = false
has_colon (cons c s) = beq (code c) b':' || has_colon s

abbrev bracketed : String → String
bracketed host = if has_colon host then append "[" (append host "]") else host

-- The order of `(version, int)`.
abbrev pub is_less : Ip → Ip → Bool
is_less a b = ltb a.version b.version || beq a.version b.version && ltb a.value b.value

-- `sorted(addresses, key=…)[0]`: the first of the least
unfoldable pub least : Ip → List Ip → Ip
least best [] = best
least best (ip ∷ ips) = least (if is_less ip best then ip else best) ips

module _ (net : Network) where
  -- `_origin`, and the URL of a pinned address
  unfoldable pub authority_url : String → String → ℕ → String
  unfolding has_colon
  authority_url scheme host port =
      append scheme (append "://" (append (bracketed host) (append ":" (net.decimal port))))

  -- `_is_loopback`
  abbrev loopback_ip : Option Ip → Bool
  loopback_ip none = false
  loopback_ip (some ip) = ip.is_loopback

  unfoldable pub is_loopback : String → Bool
  unfolding lower
  is_loopback host = lower host == "localhost" || loopback_ip (net.ip_address host)

  -- `tuple(ip_address(value) for value in values)`
  abbrev both : Option Ip → Option (List Ip) → Option (List Ip)
  both none rest = none
  both (some ip) none = none
  both (some ip) (some rest) = some (ip ∷ rest)

  unfoldable pub addresses_of : List String → Option (List Ip)
  addresses_of [] = some []
  addresses_of (value ∷ values) = both (net.ip_address value) (addresses_of values)

  unfoldable pub pin : List String → Verdict Ip
  unfolding addresses_of least
  pin values = elim (addresses_of values) [
    | none ↦ blocked unresolved_endpoint
    | some found ↦ elim found [
      | [] ↦ blocked unresolved_endpoint
      | ip ∷ ips ↦
          if all (λ (a : Ip). a.is_global) (ip ∷ ips)
          then allowed (least ip ips)
          else blocked untrusted_address
    ]
  ]

  abbrev pub after_resolver : Outcome (List String) → Verdict Ip
  after_resolver (returned values) = pin values
  after_resolver (raised e) = if net.is_exception e then blocked unresolved_endpoint else broke e

  -- `_resolve_address`
  abbrev secret_failure : Exc → Option SecurityCode → Verdict String
  secret_failure e (some code) = blocked code
  secret_failure e none = if net.is_exception e then blocked unresolved_endpoint else broke e

  abbrev after_secret : Outcome String → Verdict String
  after_secret (returned value) = if value == "" then blocked unresolved_endpoint else allowed value
  after_secret (raised e) = secret_failure e (net.security_code e)

  unfoldable pub resolve_address :
      {D : Type 0} → Address → Option (String → Eff D String) → D → Verdict String × D
  resolve_address (literal value) resolver d = (allowed value, d)
  resolve_address (secret_reference reference) none d = (blocked unresolved_endpoint, d)
  resolve_address (secret_reference reference) (some resolve) d =
      (after_secret (resolve reference d).0, (resolve reference d).1)
  resolve_address other_material resolver d = (blocked invalid_endpoint, d)

  abbrev host_and_port : Option String → Option (Option ℕ) → Option (String × ℕ)
  host_and_port (some host) (some (some port)) = some (host, port)
  host_and_port host port = none

  -- `_validate_shape`, with the host and the port that it found
  unfoldable pub validate_shape : String → Split → Option (String × ℕ)
  validate_shape protocol parsed =
      if is_in (net.protocol_endpoint_schemes protocol) parsed.scheme
        && is_none parsed.username
        && is_none parsed.password
        && (parsed.path == "" || parsed.path == "/")
        && parsed.query == ""
        && parsed.fragment == ""
      then host_and_port parsed.hostname parsed.port
      else none

  abbrev pub direct : Context → String → String → ℕ → Target
  direct context scheme host port = record {
    context = context;
    base_url = authority_url scheme host port;
    connect_host = host;
    port = port;
    host_header = none;
    sni_hostname = none;
  }

  abbrev pub pinned_target : String → String → ℕ → Verdict Ip → Verdict Target
  pinned_target scheme host port (allowed ip) = allowed (record {
    context = public;
    base_url = authority_url scheme ip.text port;
    connect_host = ip.text;
    port = port;
    host_header = some (append host (append ":" (net.decimal port)));
    sni_hostname = some host;
  })
  pinned_target scheme host port (blocked code) = blocked code
  pinned_target scheme host port (broke e) = broke e

  module _ {D : Type 0} (policy : AddressPolicy) where
    abbrev pub pinned_by :
        String → String → ℕ → Option (String → Eff D (List String)) → D → Verdict Target × D
    pinned_by scheme host port none d = (blocked untrusted_address, d)
    pinned_by scheme host port (some resolve) d =
        (pinned_target scheme host port (after_resolver (resolve host d).0), (resolve host d).1)

    -- The three contexts of `authorize_probe_endpoint`.
    unfoldable pub authorize_host :
        Context
        → String
        → String
        → ℕ
        → Option (String → Eff D (List String))
        → D
        → Verdict Target × D
    unfolding authority_url is_loopback pin
    authorize_host runtime_private scheme host port resolver d =
        if is_in policy.runtime_private_authorities (authority_url scheme host port)
        then (allowed (direct runtime_private scheme host port), d)
        else (blocked untrusted_address, d)
    authorize_host host_local scheme host port resolver d =
        if policy.allow_host_local && is_loopback host
        then (allowed (direct host_local scheme host port), d)
        else (blocked untrusted_address, d)
    authorize_host public scheme host port resolver d =
        if is_in policy.public_hosts host
          && (scheme == "https" || policy.allow_plaintext_public_http)
        then pinned_by scheme host port resolver d
        else (blocked untrusted_address, d)

    abbrev pub with_shape :
        Context
        → String
        → Option (String × ℕ)
        → Option (String → Eff D (List String))
        → D
        → Verdict Target × D
    with_shape context scheme none resolver d = (blocked unsafe_url, d)
    with_shape context scheme (some (host, port)) resolver d =
        authorize_host context scheme host port resolver d

    abbrev pub with_split :
        Observation → Option Split → Option (String → Eff D (List String)) → D → Verdict Target × D
    with_split observation none resolver d = (blocked unsafe_url, d)
    with_split observation (some parsed) resolver d =
        with_shape observation.context parsed.scheme (validate_shape observation.protocol parsed)
          resolver d

    abbrev pub with_value :
        Observation
        → Option (String → Eff D (List String))
        → Verdict String × D
        → Verdict Target × D
    with_value observation resolver (allowed value, d) =
        with_split observation (net.urlsplit value) resolver d
    with_value observation resolver (blocked code, d) = (blocked code, d)
    with_value observation resolver (broke e, d) = (broke e, d)

    -- `authorize_probe_endpoint`
    unfoldable pub authorize_probe_endpoint :
        Observation
        → Option (String → Eff D String)
        → Option (String → Eff D (List String))
        → D
        → Verdict Target × D
    unfolding resolve_address validate_shape authorize_host
    authorize_probe_endpoint observation secret_resolver public_resolver d =
        with_value observation public_resolver
          (resolve_address observation.address secret_resolver d)

  -- `AuthorizedProbeTarget.request_url`
  abbrev is_bare : Split → Bool
  is_bare parsed =
      parsed.scheme == "" && parsed.netloc == "" && parsed.query == "" && parsed.fragment == ""

  unfoldable pub request_url : Target → String → Verdict String
  request_url target path = elim (net.urlsplit path) [
    | none ↦ broke value_error
    | some parsed ↦
        if starts_with path "/" && not (starts_with path "//") && is_bare parsed
        then allowed (append target.base_url path)
        else blocked unsafe_url
  ]
