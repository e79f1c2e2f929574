-- ===== src/Docker/Configuration/Staging/Indices.antt =====
-- The indices that an attempt records while it stages configurations.
use control_plane_kit_interp.Base.{
  ℕ, suc, ◌+◌, ◌≤◌, ◌<◌, ◌≡◌, ◌∙◌, ap, ◌⊎◌, refl, arith, List, [], ◌∷◌, Option,
}
use control_plane_kit_interp.Base.Dict.{Dict}
use control_plane_kit_interp.Base.Lists.{length, range}
use control_plane_kit_interp.Effect.{Eff, pure, continue, ◌>>=◌, Outcome, returned, raised}
use control_plane_kit_interp.Request.{Artifact}
use control_plane_kit_interp.Docker.Names.{Hashing}
use control_plane_kit_interp.Docker.Sdk.{Client, ConfigurationMount}
use control_plane_kit_interp.Docker.Configuration.{Instance}
use control_plane_kit_interp.Docker.Configuration.Attempt.{
  Attempt, Correlation, new_attempt, configuration_staging,
}
use control_plane_kit_interp.Docker.Configuration.Staging.{
  stage_one, stage_from, stage_configuration, artifacts_by_id,
}

-- The configurations before `k` are staged, and none later; the one at `k` may have been attempted.
abbrev pub IsStagedTo : ℕ → Attempt → Type 0
IsStagedTo k a =
    (a.staged_indices ≡ range k)
    × ((a.attempted_indices ≡ range k) ⊎ (a.attempted_indices ≡ range (suc k)))

abbrev BothTo : ℕ → Attempt → Type 0
BothTo k a = (a.staged_indices ≡ range k) × (a.attempted_indices ≡ range k)

-- After the loop from `index` on: all are staged when it returned, with a mount for each, and some
-- of them when it raised.
abbrev AfterAll : ℕ → List Instance → Outcome (List ConfigurationMount) → Attempt → Type 0
AfterAll index instances (returned mounts) a =
    BothTo (index + length instances) a × (length mounts ≡ length instances)
AfterAll index instances (raised e) a =
    (k : ℕ) × (index ≤ k) × (k < index + length instances) × IsStagedTo k a

suc_shift : (m n : ℕ) → m + suc n ≡ suc m + n
suc_shift m n = omega arith

zero_add : (m : ℕ) → 0 + m ≡ m
zero_add m = omega arith

add_zero : (m : ℕ) → m + 0 ≡ m
add_zero m = omega arith

module _ {D : Type 0} (h : Hashing) (client : Client D) (artifacts : Dict Artifact) where
  -- One turn: the next configuration is staged when it returned, and nothing more than attempted
  -- when it raised.
  abbrev AfterOne : ℕ → Outcome ConfigurationMount → Attempt → Type 0
  AfterOne index (returned mount) a = BothTo (suc index) a
  AfterOne index (raised e) a = IsStagedTo index a

  stage_one-AfterOne :
      (index : ℕ) (reference : Instance) (s : D × Attempt)
      → BothTo index s.1
      → AfterOne index
          (stage_one h client artifacts index reference s).0
          (stage_one h client artifacts index reference s).1.1
  unfolding stage_one range
  stage_one-AfterOne index reference s both = ground arith

  abbrev more : ℕ → List Instance → ConfigurationMount → Eff (D × Attempt) (List ConfigurationMount)
  more index rest mount =
      stage_from h client artifacts (suc index) rest >>= λ mounts. pure (mount ∷ mounts)

  with_mount :
      (index : ℕ) (reference : Instance) (rest : List Instance) (mount : ConfigurationMount)
      (o : Outcome (List ConfigurationMount)) (s : D × Attempt)
      → AfterAll (suc index) rest o s.1
      → AfterAll index
          (reference ∷ rest)
          (continue o (λ mounts. pure (mount ∷ mounts)) s).0
          (continue o (λ mounts. pure (mount ∷ mounts)) s).1.1
  with_mount index reference rest mount (returned mounts) s (both, same) =
      (rw (suc_shift index (length rest)) both, omega arith)
  with_mount index reference rest mount (raised e) s (k, low, high, stagedto) =
      (k, omega arith, omega arith, stagedto)

  after_one :
      (index : ℕ) (reference : Instance) (rest : List Instance) (o : Outcome ConfigurationMount)
      (s : D × Attempt)
      → ((s' : D × Attempt)
          → BothTo (suc index) s'.1
          → AfterAll
              (suc index)
              rest
              (stage_from h client artifacts (suc index) rest s').0
              (stage_from h client artifacts (suc index) rest s').1.1)
      → AfterOne index o s.1
      → AfterAll index
          (reference ∷ rest)
          (continue o (more index rest) s).0
          (continue o (more index rest) s).1.1
  after_one index reference rest (returned mount) s later both =
      with_mount index reference rest mount _ _ (later s both)
  after_one index reference rest (raised e) s later stagedto =
      (index, omega arith, omega arith, stagedto)

  stage_from-AfterAll :
      (instances : List Instance) (index : ℕ) (s : D × Attempt)
      → BothTo index s.1
      → AfterAll index instances
          (stage_from h client artifacts index instances s).0
          (stage_from h client artifacts index instances s).1.1
  unfolding stage_from
  stage_from-AfterAll [] index s both = (rw (add_zero index) both, refl)
  stage_from-AfterAll (reference ∷ rest) index s both =
      after_one index reference rest (stage_one h client artifacts index reference s).0
        (stage_one h client artifacts index reference s).1 (stage_from-AfterAll rest (suc index))
        (stage_one-AfterOne index reference s both)

-- What the attempt records of a staging that returned its mounts, or raised.
abbrev pub Records : List Instance → Outcome (List ConfigurationMount) → Attempt → Type 0
Records instances (returned mounts) a =
    (a.staged_indices ≡ range (length instances))
    × (a.attempted_indices ≡ range (length instances))
    × (length mounts ≡ length instances)
Records instances (raised e) a = (k : ℕ) × (k < length instances) × IsStagedTo k a

AfterAll-Records :
    (instances : List Instance) (o : Outcome (List ConfigurationMount)) (a : Attempt)
    → AfterAll 0 instances o a
    → Records instances o a
AfterAll-Records instances (returned mounts) a ((one, two), same) =
    let shift = ap range (zero_add (length instances)) in (one ∙ shift, two ∙ shift, same)
AfterAll-Records instances (raised e) a (k, low, high, stagedto) = (k, omega arith, stagedto)

-- Whatever the daemon answers, the attempt tells how far the staging came: the configurations that it
-- lists as staged are the first ones, in order, and it lists as attempted the same ones and at most the
-- next; all of them, with a mount for each, exactly when the staging returned.
pub stage_configuration-Records :
    {D : Type 0} (h : Hashing) (client : Client D) (artifacts : List Artifact)
    (instances : List Instance) (d : D) (selection secrets : Option Correlation)
    → Records instances
        (stage_configuration h client artifacts instances (d, new_attempt selection secrets)).0
        (stage_configuration h client artifacts instances (d, new_attempt selection secrets)).1.1
unfolding stage_configuration range
stage_configuration-Records h client artifacts instances d selection secrets =
    AfterAll-Records instances _ _ (
      stage_from-AfterAll h client (artifacts_by_id [] artifacts) instances 0
        (d, record (new_attempt selection secrets) { phase = configuration_staging }) (refl, refl))
