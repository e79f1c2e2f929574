-- ===== src/Probes/Security/Trusted.antt =====
-- The targets that probes/security.py authorizes, and what their policy trusts.
use control_plane_kit_interp.Base.{
  ℕ, String, true, ◌&&◌, ◌||◌, List, [], ◌∷◌, Option, none, some, ◌==◌, ◌≡◌, refl, Bool-cases,
  if-true, if-false, inl, inr, if◌then◌else◌, arith,
}
use control_plane_kit_interp.Base.Lists.{all}
use control_plane_kit_interp.Effect.{Exc, Outcome, returned, raised, Eff}
use control_plane_kit_interp.Url.{Split}
use control_plane_kit_interp.Docker.Result.{Context, runtime_private, host_local, public}
use control_plane_kit_interp.Probes.Security.{
  SecurityCode, unsafe_url, direct, resolve_address, unresolved_endpoint, untrusted_address,
  Verdict, allowed, blocked, broke, Observation, AddressPolicy, Ip, Target, Network, is_in,
  authority_url, is_loopback, is_less, least, addresses_of, pin, pinned_target, pinned_by,
  authorize_host, authorize_probe_endpoint, after_resolver, with_shape, with_split, with_value,
}

least-is_global :
    (ips : List Ip) (best : Ip)
    → all (λ (a : Ip). a.is_global) (best ∷ ips) ≡ true
    → (least best ips).is_global ≡ true
unfolding least
least-is_global [] best h = ground arith
least-is_global (ip ∷ ips) best h =
    least-is_global ips (if is_less ip best then ip else best) (ground arith)

blocked-allowed : {A : Type 0} (code : SecurityCode) (a : A) → blocked code ≡ allowed a → ⊥
blocked-allowed code a h = ground arith

broke-allowed : {A : Type 0} (e : Exc) (a : A) → broke e ≡ allowed a → ⊥
broke-allowed e a h = ground arith

module _ (net : Network) where
  pin-is_global :
      (values : List String) (ip : Ip) → pin net values ≡ allowed ip → ip.is_global ≡ true
  unfolding pin
  pin-is_global values ip h = found (addresses_of net values) h
    where
      found :
          (o : Option (List Ip))
          → (elim o as (λ _. Verdict Ip) [
            | none ↦ blocked unresolved_endpoint
            | some ips ↦ elim ips as (λ _. Verdict Ip) [
              | [] ↦ blocked unresolved_endpoint
              | first ∷ rest ↦
                  if all (λ (a : Ip). a.is_global) (first ∷ rest)
                  then allowed (least first rest)
                  else blocked untrusted_address
            ]
          ])
            ≡ allowed ip
          → ip.is_global ≡ true
      found none e = absurd (ground arith)
      found (some []) e = absurd (ground arith)
      found (some (first ∷ rest)) e =
          elim (Bool-cases (all (λ (a : Ip). a.is_global) (first ∷ rest))) [
            | inl every ↦
                let same : allowed (least first rest) ≡ allowed ip = if-true _ _ _ _ every e in
                ground (arith, least-is_global rest first every)
            | inr other ↦
                let never : blocked untrusted_address ≡ allowed ip = if-false _ _ _ _ other e in
                absurd (ground arith)
          ]

  pinned_target-allowed :
      (scheme host : String) (port : ℕ) (v : Verdict Ip) (target : Target)
      → pinned_target net scheme host port v ≡ allowed target
      → (ip : Ip) × (v ≡ allowed ip)
        × (target.sni_hostname ≡ some host)
        × (target.connect_host ≡ ip.text)
        × (target.base_url ≡ authority_url net scheme ip.text target.port)
  pinned_target-allowed scheme host port (allowed ip) target h =
      (ip, refl, ground arith, ground arith, ground arith)
  pinned_target-allowed scheme host port (blocked code) target h = absurd (ground arith)
  pinned_target-allowed scheme host port (broke e) target h = absurd (ground arith)

-- What the policy requires of a target in its context. A public target stands for a trusted host, and
-- connects to an address that the resolver answered for it, where all its answers are global.
module _ (net : Network) (policy : AddressPolicy) {D : Type 0} where
  abbrev pub IsTrusted : Option (String → Eff D (List String)) → D → Context → Target → Type 0
  IsTrusted resolver d runtime_private target =
      is_in policy.runtime_private_authorities target.base_url ≡ true
  IsTrusted resolver d host_local target =
      (policy.allow_host_local ≡ true) × (is_loopback net target.connect_host ≡ true)
  IsTrusted none d public target = ⊥
  IsTrusted (some resolve) d public target =
      (host : String) × (ip : Ip) × (scheme : String) × (values : List String)
      × (target.sni_hostname ≡ some host)
      × (is_in policy.public_hosts host ≡ true)
      × ((scheme == "https" || policy.allow_plaintext_public_http) ≡ true)
      × ((resolve host d).0 ≡ returned values)
      × (pin net values ≡ allowed ip)
      × (ip.is_global ≡ true)
      × (target.connect_host ≡ ip.text)
      × (target.base_url ≡ authority_url net scheme ip.text target.port)

  pinned-IsTrusted :
      (resolve : String → Eff D (List String)) (scheme host : String) (port : ℕ) (d : D)
      (o : Outcome (List String)) (target : Target)
      → (resolve host d).0 ≡ o
      → is_in policy.public_hosts host ≡ true
      → (scheme == "https" || policy.allow_plaintext_public_http) ≡ true
      → pinned_target net scheme host port (after_resolver net o) ≡ allowed target
      → IsTrusted (some resolve) d public target
  pinned-IsTrusted resolve scheme host port d (raised e) target asked known secure h =
      let (ip, made, _, _, _) =
        pinned_target-allowed net scheme host port (after_resolver net (raised e)) target h in
      elim (Bool-cases (net.is_exception e)) [
        | inl caught ↦
            let never : blocked unresolved_endpoint ≡ allowed ip = if-true _ _ _ _ caught made in
            absurd (ground arith)
        | inr passed ↦
            let never : broke e ≡ allowed ip = if-false _ _ _ _ passed made in absurd (ground arith)
      ]
  pinned-IsTrusted resolve scheme host port d (returned values) target asked known secure h =
      let (ip, made, sni, connect, url) =
        pinned_target-allowed net scheme host port (pin net values) target h in
      (
        host,
        ip,
        scheme,
        values,
        sni,
        known,
        secure,
        asked,
        made,
        pin-is_global net values ip made,
        connect,
        url,
      )

  pinned_by-IsTrusted :
      (scheme host : String) (port : ℕ) (resolver : Option (String → Eff D (List String)))
      (d d' : D) (target : Target)
      → is_in policy.public_hosts host ≡ true
      → (scheme == "https" || policy.allow_plaintext_public_http) ≡ true
      → pinned_by net policy scheme host port resolver d ≡ (allowed target, d')
      → IsTrusted resolver d public target
  pinned_by-IsTrusted scheme host port none d d' target known secure h =
      absurd (blocked-allowed untrusted_address target (λ i. (h i).0))
  pinned_by-IsTrusted scheme host port (some resolve) d d' target known secure h =
      pinned-IsTrusted resolve scheme host port d (resolve host d).0 target refl known secure
        (λ i. (h i).0)

  authorize_host-IsTrusted :
      (context : Context) (scheme host : String) (port : ℕ)
      (resolver : Option (String → Eff D (List String))) (d d' : D) (target : Target)
      → authorize_host net policy context scheme host port resolver d ≡ (allowed target, d')
      → IsTrusted resolver d context target
  unfolding authorize_host
  authorize_host-IsTrusted runtime_private scheme host port resolver d d' target h =
      elim (Bool-cases
        (is_in policy.runtime_private_authorities (authority_url net scheme host port))) [
          | inl known ↦
              let same : allowed (direct net runtime_private scheme host port) ≡ allowed target =
                λ i. (if-true _ _ _ _ known h i).0 in
              ground arith
          | inr unknown ↦
              absurd
                (blocked-allowed untrusted_address target (λ i. (if-false _ _ _ _ unknown h i).0))
        ]
  authorize_host-IsTrusted host_local scheme host port resolver d d' target h =
      elim (Bool-cases (policy.allow_host_local && is_loopback net host)) [
        | inl known ↦
            let same : allowed (direct net host_local scheme host port) ≡ allowed target =
              λ i. (if-true _ _ _ _ known h i).0 in
            (ground arith, ground arith)
        | inr unknown ↦
            absurd
              (blocked-allowed untrusted_address target (λ i. (if-false _ _ _ _ unknown h i).0))
      ]
  authorize_host-IsTrusted public scheme host port resolver d d' target h =
      elim (Bool-cases (
        is_in policy.public_hosts host
        && (scheme == "https" || policy.allow_plaintext_public_http))) [
          | inl known ↦
              pinned_by-IsTrusted scheme host port resolver d d' target (ground arith)
                (ground arith) (if-true _ _ _ _ known h)
          | inr unknown ↦
              absurd
                (blocked-allowed untrusted_address target (λ i. (if-false _ _ _ _ unknown h i).0))
        ]

  with_shape-IsTrusted :
      (context : Context) (scheme : String) (shape : Option (String × ℕ))
      (resolver : Option (String → Eff D (List String))) (d d' : D) (target : Target)
      → with_shape net policy context scheme shape resolver d ≡ (allowed target, d')
      → IsTrusted resolver d context target
  with_shape-IsTrusted context scheme none resolver d d' target h =
      absurd (blocked-allowed unsafe_url target (λ i. (h i).0))
  with_shape-IsTrusted context scheme (some (host, port)) resolver d d' target h =
      authorize_host-IsTrusted context scheme host port resolver d d' target h

  with_split-IsTrusted :
      (observation : Observation) (parsed : Option Split)
      (resolver : Option (String → Eff D (List String))) (d d' : D) (target : Target)
      → with_split net policy observation parsed resolver d ≡ (allowed target, d')
      → IsTrusted resolver d observation.context target
  with_split-IsTrusted observation none resolver d d' target h =
      absurd (blocked-allowed unsafe_url target (λ i. (h i).0))
  with_split-IsTrusted observation (some parsed) resolver d d' target h =
      with_shape-IsTrusted observation.context parsed.scheme _ resolver d d' target h

  with_value-IsTrusted :
      (observation : Observation) (r : Verdict String × D)
      (resolver : Option (String → Eff D (List String))) (d' : D) (target : Target)
      → with_value net policy observation resolver r ≡ (allowed target, d')
      → IsTrusted resolver r.1 observation.context target
  with_value-IsTrusted observation (allowed value, d) resolver d' target h =
      with_split-IsTrusted observation (net.urlsplit value) resolver d d' target h
  with_value-IsTrusted observation (blocked code, d) resolver d' target h =
      absurd (blocked-allowed code target (λ i. (h i).0))
  with_value-IsTrusted observation (broke e, d) resolver d' target h =
      absurd (broke-allowed e target (λ i. (h i).0))

  -- A target that `authorize_probe_endpoint` returns is trusted. In the runtime's network the policy
  -- names its base URL; on the host the policy allows the host itself and the target is a loopback
  -- host; a public target has the name of a host that the policy names, over https unless the policy
  -- allows plaintext, and connects to a global address that was pinned from what the resolver, asked
  -- once the address of the endpoint was known, answered for that host.
  pub authorize_probe_endpoint-IsTrusted :
      (observation : Observation) (secret_resolver : Option (String → Eff D String))
      (public_resolver : Option (String → Eff D (List String))) (d d' : D) (target : Target)
      → authorize_probe_endpoint net policy observation secret_resolver public_resolver d
        ≡ (allowed target, d')
      → IsTrusted public_resolver
          (resolve_address net observation.address secret_resolver d).1
          observation.context
          target
  unfolding authorize_probe_endpoint
  authorize_probe_endpoint-IsTrusted observation secret_resolver public_resolver d d' target h =
      with_value-IsTrusted observation (resolve_address net observation.address secret_resolver d)
        public_resolver d' target h
