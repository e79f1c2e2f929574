-- ===== src/Docker/Authority/Meaning.antt =====
-- What the three answers of `docker_authority_conformance` mean.
use control_plane_kit_interp.Base.{
  String, Bool, true, false, ◌≡◌, ◌↔◌, ◌⊎◌, ◌≢◌, refl, inl, inr, ap, arith, List, [], ◌∷◌, Option,
  none, some, eq_iff, Bool-cases, Option-cases,
}
use control_plane_kit_interp.Effect.{Exc, Outcome, returned, raised, pure, handle, continue}
use control_plane_kit_interp.Docker.Sdk.{
  BindMount, ConfiguredBindMount, Inspection, ProviderFacts, Client,
}
use control_plane_kit_interp.Docker.Authority.{
  Conformance, conformant, undecided, socket, canonical, desktop_observed, desktop_provider,
  mount_eq, mounts_eq, texts_eq, facts_eq, decide_facts, is_desktop_mount, DeliveryMaterial,
  ask_provider, ask_facts, configured_case, known_case, docker_authority_conformance,
}

mount_eq_iff : (a b : BindMount) → (mount_eq a b ≡ true) ↔ (a ≡ b)
mount_eq_iff a b =
    ground (arith, eq_iff a.source_path b.source_path, eq_iff a.target_path b.target_path)

pub mounts_eq_iff : (a b : List BindMount) → (mounts_eq a b ≡ true) ↔ (a ≡ b)
unfolding mounts_eq
mounts_eq_iff [] [] = ground arith
mounts_eq_iff [] (b ∷ bs) = ground arith
mounts_eq_iff (a ∷ ms) [] = ground arith
mounts_eq_iff (a ∷ ms) (b ∷ ns) = ground (
  arith,
  eq_iff a.source_path b.source_path,
  eq_iff a.target_path b.target_path,
  mounts_eq_iff ms ns,
)

pub texts_eq_iff : (a b : List String) → (texts_eq a b ≡ true) ↔ (a ≡ b)
unfolding texts_eq
texts_eq_iff [] [] = ground arith
texts_eq_iff [] (b ∷ bs) = ground arith
texts_eq_iff (a ∷ ss) [] = ground arith
texts_eq_iff (a ∷ ss) (b ∷ ts) = ground (arith, eq_iff a b, texts_eq_iff ss ts)

facts_eq_iff : (a b : ProviderFacts) → (facts_eq a b ≡ true) ↔ (a ≡ b)
facts_eq_iff a b = ground (
  arith,
  eq_iff a.platform_name b.platform_name,
  eq_iff a.os_type b.os_type,
  eq_iff a.engine_version b.engine_version,
  eq_iff a.api_version b.api_version,
)

-- The container shows exactly the mounts and the groups that the request delivers.
pub record IsExact (inspection : Inspection) (expected : DeliveryMaterial) : Type 0 where
  pub mounts : inspection.bind_mounts ≡ some expected.mounts
  pub groups : inspection.supplementary_groups ≡ some expected.supplementary_groups

decide_facts-conformant :
    (o : Option ProviderFacts) → decide_facts o ≡ conformant → o ≡ some desktop_provider
decide_facts-conformant none h = cc
decide_facts-conformant (some f) h = ap some ((facts_eq_iff f desktop_provider).0 (ground arith))

module _ {D : Type 0} (client : Client D) where
  -- The Docker Desktop exception: the canonical mount is expected, the proxy is shown as actual and
  -- as configured source, and the reviewed provider itself answers over the local socket.
  pub record IsDesktop (inspection : Inspection) (expected : DeliveryMaterial) (d : D)
      : Type 0 where
    pub expected_mounts : expected.mounts ≡ canonical
    pub mounts : inspection.bind_mounts ≡ some desktop_observed
    pub groups : inspection.supplementary_groups ≡ some expected.supplementary_groups
    pub mount : ConfiguredBindMount
    pub configured : inspection.configured_bind_mounts ≡ some (mount ∷ [])
    pub desktop_mount : is_desktop_mount mount ≡ true
    pub after : D
    pub local : client.uses_local_socket socket d ≡ (returned true, after)
    pub facts : (client.inspect_authority_provider_facts after).0 ≡ returned (some desktop_provider)

  -- The comparison never raises: whatever the provider does, it answers.
  pub docker_authority_conformance-ne-raised :
      (inspection : Inspection) (expected : DeliveryMaterial) (d : D) (e : Exc)
      → (docker_authority_conformance client inspection expected d).0 ≢ raised e
  unfolding docker_authority_conformance
  docker_authority_conformance-ne-raised inspection expected d e = ground arith

  decided :
      (o : Outcome (Option ProviderFacts)) (d : D)
      → (continue o (λ facts. pure (decide_facts facts)) d).0 ≡ returned conformant
      → o ≡ returned (some desktop_provider)
  decided (returned o) d h = ap returned (decide_facts-conformant o (ground arith))
  decided (raised e) d h = cc

  asked :
      (o : Outcome Bool) (d : D)
      → (continue o (ask_facts client) d).0 ≡ returned conformant
      → (o ≡ returned true)
        × ((client.inspect_authority_provider_facts d).0 ≡ returned (some desktop_provider))
  asked (returned true) d h = (refl, decided _ _ h)
  asked (returned false) d h = cc
  asked (raised e) d h = cc

  handled :
      (o : Outcome Conformance) (d : D)
      → (handle o (λ _. pure undecided) d).0 ≡ returned conformant
      → o ≡ returned conformant
  handled (returned c) d h = h
  handled (raised e) d h = cc

  ask_provider-conformant :
      (d : D)
      → (ask_provider client d).0 ≡ returned conformant
      → (after : D) × (client.uses_local_socket socket d ≡ (returned true, after))
        × ((client.inspect_authority_provider_facts after).0 ≡ returned (some desktop_provider))
  unfolding ask_provider
  ask_provider-conformant d h =
      let (local, facts) =
        asked (client.uses_local_socket socket d).0 (client.uses_local_socket socket d).1
          (handled _ _ h) in
      ((client.uses_local_socket socket d).1, cc local, facts)

  configured_case-conformant :
      (o : Option (List ConfiguredBindMount)) (d : D)
      → (configured_case client o d).0 ≡ returned conformant
      → (mount : ConfiguredBindMount) × (o ≡ some (mount ∷ []))
        × (is_desktop_mount mount ≡ true)
        × ((ask_provider client d).0 ≡ returned conformant)
  configured_case-conformant none d h = cc
  configured_case-conformant (some []) d h = cc
  configured_case-conformant (some (m ∷ n ∷ ms)) d h = cc
  configured_case-conformant (some (m ∷ [])) d h = elim (Bool-cases (is_desktop_mount m)) [
    | inl yes_it_is ↦ (m, refl, yes_it_is, rw yes_it_is at h)
    | inr it_is_not ↦ cc (rw it_is_not at h)
  ]

  known_case-conformant :
      (mounts : List BindMount) (groups : List String) (expected : DeliveryMaterial)
      (configured : Option (List ConfiguredBindMount)) (d : D)
      → (known_case client mounts groups expected configured d).0 ≡ returned conformant
      → ((mounts ≡ expected.mounts) × (groups ≡ expected.supplementary_groups))
        ⊎ ((expected.mounts ≡ canonical)
            × (mounts ≡ desktop_observed)
            × (groups ≡ expected.supplementary_groups)
            × ((configured_case client configured d).0 ≡ returned conformant))
  known_case-conformant mounts groups expected configured d h = ground (
    arith,
    mounts_eq_iff mounts expected.mounts,
    mounts_eq_iff expected.mounts canonical,
    mounts_eq_iff mounts desktop_observed,
    texts_eq_iff groups expected.supplementary_groups,
  )

  desktop :
      (inspection : Inspection) (expected : DeliveryMaterial) (d : D)
      → expected.mounts ≡ canonical
      → inspection.bind_mounts ≡ some desktop_observed
      → inspection.supplementary_groups ≡ some expected.supplementary_groups
      → (configured_case client inspection.configured_bind_mounts d).0 ≡ returned conformant
      → IsDesktop inspection expected d
  desktop inspection expected d canon shown same answer =
      let (mount, configured, desktop_mount, asks) = configured_case-conformant _ d answer in
      let (after, local, facts) = ask_provider-conformant d asks in
      record {
        expected_mounts = canon;
        mounts = shown;
        groups = same;
        mount = mount;
        configured = configured;
        desktop_mount = desktop_mount;
        after = after;
        local = local;
        facts = facts;
      }

  -- The answer `conformant` is given only where the container shows exactly the delivered mounts and
  -- groups, or in the Docker Desktop case with the reviewed provider.
  pub docker_authority_conformance_sound :
      (inspection : Inspection) (expected : DeliveryMaterial) (d : D)
      → (docker_authority_conformance client inspection expected d).0 ≡ returned conformant
      → IsExact inspection expected ⊎ IsDesktop inspection expected d
  unfolding docker_authority_conformance
  docker_authority_conformance_sound inspection expected d h =
      elim (Option-cases inspection.bind_mounts) [
        | inl unknown_mounts ↦ cc (rw (unknown_mounts, docker_authority_conformance) at h)
        | inr (mounts, e) ↦ elim (Option-cases inspection.supplementary_groups) [
          | inl unknown_groups ↦ cc (rw (e, unknown_groups, docker_authority_conformance) at h)
          | inr (groups, e') ↦
              elim (known_case-conformant mounts groups expected inspection.configured_bind_mounts d
                (rw (e, e', docker_authority_conformance) at h)) [
                  | inl (same_mounts, same_groups) ↦
                      inl (record { mounts = cc (e, same_mounts); groups = cc (e', same_groups) })
                  | inr (canon, shown, same_groups, answer) ↦ inr (
                      desktop inspection expected d canon (cc (e, shown)) (cc (e', same_groups))
                        answer)
                ]
        ]
      ]

  -- Exact mounts and groups conform, and then the daemon is not asked anything.
  pub docker_authority_conformance-exact :
      (inspection : Inspection) (expected : DeliveryMaterial) (d : D)
      → IsExact inspection expected
      → docker_authority_conformance client inspection expected d ≡ (returned conformant, d)
  unfolding docker_authority_conformance
  docker_authority_conformance-exact inspection expected d exact = ground (
    arith,
    exact.mounts,
    exact.groups,
    mounts_eq_iff expected.mounts expected.mounts,
    texts_eq_iff expected.supplementary_groups expected.supplementary_groups,
  )
