-- ===== src/Docker/Configuration/Cleanup/Order.antt =====
-- The rows of a cleanup: one for each reference, in order, and what the first unknown one ends.
use mathlib.Core.List.{map-append}
use control_plane_kit_interp.Base.{
  Bool, true, false, ◌≡◌, refl, inl, inr, arith, List, [], ◌∷◌, ◌++◌, map, some,
}
use control_plane_kit_interp.Base.Lists.{All, Any}
use control_plane_kit_interp.Docker.Names.{Hashing}
use control_plane_kit_interp.Docker.Configuration.{Instance}
use control_plane_kit_interp.Docker.Configuration.Cleanup.{
  removed, already_absent, retained_in_use, refused, unknown, not_attempted, provider_uncertain,
  Fate, Row, is_unknown, attempt, cleanup_one, remove_seen, cleanup_rows, cleanup_configuration,
}
use control_plane_kit_interp.Docker.Sdk.ConfigurationVolumes.{Volumes}

abbrev pub skipped : Instance → Row
skipped reference = (reference, (unknown, some not_attempted))

-- Rows up to the first unknown one, which the provider left uncertain, and then only rows of what was
-- not attempted.
abbrev pub IsStopped : List Row → Type 0
IsStopped [] = Unit
IsStopped ((reference, (unknown, reason)) ∷ rest) =
    (reason ≡ some provider_uncertain) × All (λ row. row.1 ≡ (unknown, some not_attempted)) rest
IsStopped (_ ∷ rest) = IsStopped rest

module _ {D : Type 0} (h : Hashing) (docker : Volumes D) where
  attempt-unknown :
      (reference : Instance) (d : D)
      → (attempt h docker reference d).0.0 ≡ unknown
      → (attempt h docker reference d).0.1 ≡ some provider_uncertain
  unfolding attempt cleanup_one remove_seen
  attempt-unknown reference d stopped = ground arith

  stopped_rows :
      (instances : List Instance) (d : D)
      → cleanup_rows h docker true instances d ≡ (map skipped instances, d)
  unfolding cleanup_rows
  stopped_rows [] d = refl
  stopped_rows (reference ∷ rest) d = rw (stopped_rows rest d) refl

  after_fate :
      (reference : Instance) (rest : List Instance) (fate : Fate) (d : D)
      → (fate.0 ≡ unknown → fate.1 ≡ some provider_uncertain)
      → IsStopped (cleanup_rows h docker false rest d).0
      → IsStopped ((reference, fate) ∷ (cleanup_rows h docker (is_unknown fate.0) rest d).0)
  after_fate reference rest (unknown, reason) d why more =
      (why refl, rw (stopped_rows rest d) (map-skipped rest))
    where
      map-skipped :
          (instances : List Instance)
          → All (λ row. row.1 ≡ (unknown, some not_attempted)) (map skipped instances)
      map-skipped [] = tt
      map-skipped (reference ∷ rest) = (refl, map-skipped rest)
  after_fate reference rest (removed, reason) d why more = more
  after_fate reference rest (already_absent, reason) d why more = more
  after_fate reference rest (retained_in_use, reason) d why more = more
  after_fate reference rest (refused, reason) d why more = more

  rows-IsStopped :
      (instances : List Instance) (d : D) → IsStopped (cleanup_rows h docker false instances d).0
  unfolding cleanup_rows
  rows-IsStopped [] d = tt
  rows-IsStopped (reference ∷ rest) d =
      let now = attempt h docker reference d in
      after_fate reference rest now.0 now.1 (attempt-unknown reference d)
        (rows-IsStopped rest now.1)

  map-rows :
      (stopped : Bool) (instances : List Instance) (d : D)
      → map (λ row. row.0) (cleanup_rows h docker stopped instances d).0 ≡ instances
  unfolding cleanup_rows
  map-rows stopped [] d = refl
  map-rows true (reference ∷ rest) d = rw (map-rows true rest d) refl
  map-rows false (reference ∷ rest) d =
      let now = attempt h docker reference d in rw (map-rows (is_unknown now.0.0) rest now.1) refl

  -- A cleanup answers with one row for each reference, in their order. The first row that is unknown
  -- has the reason that the provider left it uncertain, and every later row says that its volume was
  -- not attempted.
  pub cleanup_configuration-IsStopped :
      (instances : List Instance) (d : D)
      → (map (λ row. row.0) (cleanup_configuration h docker (λ rows. rows) instances d).0
          ≡ instances)
        × IsStopped (cleanup_configuration h docker (λ rows. rows) instances d).0
  unfolding cleanup_configuration
  cleanup_configuration-IsStopped instances d =
      (map-rows false instances d, rows-IsStopped instances d)

  stopped_append :
      (fate : Fate) (reference : Instance) (rest more : List Instance) (d : D)
      → (Any (λ row. row.1.0 ≡ unknown) (cleanup_rows h docker false rest d).0
          → cleanup_rows h docker false (rest ++ more) d ≡ (
            (cleanup_rows h docker false rest d).0 ++ map skipped more,
            (cleanup_rows h docker false rest d).1,
          ))
      → Any
          (λ row. row.1.0 ≡ unknown)
          ((reference, fate) ∷ (cleanup_rows h docker (is_unknown fate.0) rest d).0)
      → cleanup_rows h docker (is_unknown fate.0) (rest ++ more) d ≡ (
        (cleanup_rows h docker (is_unknown fate.0) rest d).0 ++ map skipped more,
        (cleanup_rows h docker (is_unknown fate.0) rest d).1,
      )
  stopped_append (unknown, reason) reference rest more d later stopped =
      rw (stopped_rows (rest ++ more) d, stopped_rows rest d, map-append) refl
  stopped_append (removed, reason) reference rest more d later (inr stopped) = later stopped
  stopped_append (removed, reason) reference rest more d later (inl now) = absurd cc
  stopped_append (already_absent, reason) reference rest more d later (inr stopped) = later stopped
  stopped_append (already_absent, reason) reference rest more d later (inl now) = absurd cc
  stopped_append (retained_in_use, reason) reference rest more d later (inr stopped) = later stopped
  stopped_append (retained_in_use, reason) reference rest more d later (inl now) = absurd cc
  stopped_append (refused, reason) reference rest more d later (inr stopped) = later stopped
  stopped_append (refused, reason) reference rest more d later (inl now) = absurd cc

  -- What an unknown row ends: with more references behind those of a cleanup that has one, the cleanup
  -- is the same, and leaves the same state of the world, with a row for each more that says that it was
  -- not attempted.
  pub cleanup_rows-append :
      (instances more : List Instance) (d : D)
      → Any (λ row. row.1.0 ≡ unknown) (cleanup_rows h docker false instances d).0
      → cleanup_rows h docker false (instances ++ more) d ≡ (
        (cleanup_rows h docker false instances d).0 ++ map skipped more,
        (cleanup_rows h docker false instances d).1,
      )
  unfolding cleanup_rows
  cleanup_rows-append [] more d stopped = absurd stopped
  cleanup_rows-append (reference ∷ rest) more d stopped =
      let now = attempt h docker reference d in
      rw
        (stopped_append now.0 reference rest more now.1 (cleanup_rows-append rest more now.1)
          stopped)
        refl
