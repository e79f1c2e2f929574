-- ===== src/SecretProvider/Trace/Judgements.antt =====
-- What the operations of secret_provider/client.py make of a response to a mutation.
use control_plane_kit_interp.Base.{
  ℕ, String, Bool, true, false, not, List, [], ◌∷◌, Option, none, some, ◌≡◌, refl, arith,
}
use control_plane_kit_interp.Base.Dict.{Dict}
use control_plane_kit_interp.Base.Lists.{all}
use control_plane_kit_interp.Base.Json.{Json, as_object, member}
use control_plane_kit_interp.Request.{Reference}
use control_plane_kit_interp.SecretProvider.Call.{
  uncertain, Failure, Answer, ok, failed, demand, ◌then◌,
}
use control_plane_kit_interp.SecretProvider.Metadata.{
  is_identifier, string_mapping, identifier_of, positive_of, VersionMetadata, joined,
  version_metadata, present, metadata_of_object, metadata,
}
use control_plane_kit_interp.SecretProvider.Client.{doubtful, written}
use control_plane_kit_interp.SecretProvider.Client.Keys.{
  Core, Purpose, PublicKey, GeneratedKey, generated_key, with_key, with_metadata, generated,
}
use control_plane_kit_interp.SecretProvider.Client.Revocations.{
  revoked_of, and_more, revoked_ids, collected, all_revoked, is_exactly, revocation,
  version_revocation,
}
use control_plane_kit_interp.SecretProvider.Trace.{claims_definite, is_definite}

present-uncertain :
    (x : Failure) (m : Option VersionMetadata)
    → claims_definite x ≡ false
    → is_definite (present x m) ≡ false
present-uncertain x none h = h
present-uncertain x (some m) h = refl

then-uncertain :
    {A : Type 0} (b : Bool) (x : Failure) (a : Answer A)
    → claims_definite x ≡ false
    → is_definite a ≡ false
    → is_definite (demand b x then a) ≡ false
unfolding demand ◌then◌
then-uncertain true x a h k = k
then-uncertain false x a h k = h

metadata_of_object-uncertain :
    (workspace_id secret_id : String) (reference : Reference) (status : String) (x : Failure)
    (value : Dict Json)
    → claims_definite x ≡ false
    → is_definite (metadata_of_object workspace_id secret_id reference status x value) ≡ false
unfolding metadata_of_object
metadata_of_object-uncertain workspace_id secret_id reference status x value h =
    then-uncertain _ x _ h (
      then-uncertain _ x _ h
        (then-uncertain _ x _ h (then-uncertain _ x _ h (present-uncertain x _ h))))

metadata-uncertain :
    (workspace_id secret_id : String) (reference : Reference) (status : String) (value : Json)
    → is_definite (metadata workspace_id secret_id reference status uncertain value) ≡ false
unfolding metadata
metadata-uncertain workspace_id secret_id reference status value = of_object (as_object value)
  where
    of_object :
        (o : Option (Dict Json))
        → is_definite (elim o as (λ _. Answer VersionMetadata) [
          | none ↦ failed doubtful
          | some d ↦ metadata_of_object workspace_id secret_id reference status doubtful d
        ])
          ≡ false
    of_object none = refl
    of_object (some d) =
        metadata_of_object-uncertain workspace_id secret_id reference status doubtful d refl

pub written-uncertain :
    (workspace_id secret_id : String) (reference : Reference) (response : Dict Json)
    → is_definite (written workspace_id secret_id reference response) ≡ false
unfolding written
written-uncertain workspace_id secret_id reference response =
    then-uncertain _ doubtful _ refl
      (metadata-uncertain workspace_id secret_id reference "active" (member "metadata" response))

-- The versions that the provider answered have identifiers, so the last check of
-- `SecretProviderRevoked` never fails.
abbrev is_named? : Option VersionMetadata → Bool
is_named? none = true
is_named? (some found) = is_identifier found.version_id

abbrev is_named : Answer VersionMetadata → Bool
is_named (failed x) = true
is_named (ok found) = is_identifier found.version_id

then-is_named :
    (b : Bool) (x : Failure) (a : Answer VersionMetadata)
    → is_named a ≡ true
    → is_named (demand b x then a) ≡ true
unfolding demand ◌then◌
then-is_named true x a h = h
then-is_named false x a h = refl

joined-is_named :
    (reference : Reference) (status : String) (version_id : Json) (ordinal : Option ℕ)
    (labels : Option (Dict String))
    → is_named? (joined reference status (identifier_of version_id) ordinal labels) ≡ true
joined-is_named reference status (Json.string s) none labels = ground arith
joined-is_named reference status (Json.string s) (some n) none = ground arith
joined-is_named reference status (Json.string s) (some n) (some d) = ground arith
joined-is_named reference status Json.null ordinal labels = refl
joined-is_named reference status (Json.boolean b) ordinal labels = refl
joined-is_named reference status (Json.number n) ordinal labels = refl
joined-is_named reference status (Json.other_number n) ordinal labels = refl
joined-is_named reference status (Json.array vs) ordinal labels = refl
joined-is_named reference status (Json.object fs) ordinal labels = refl

present-is_named :
    (x : Failure) (m : Option VersionMetadata) → is_named? m ≡ true → is_named (present x m) ≡ true
present-is_named x none h = refl
present-is_named x (some m) h = h

version_metadata-is_named :
    (reference : Reference) (version_id ordinal : Json) (status : String) (labels : Json)
    → is_named? (version_metadata reference version_id ordinal status labels) ≡ true
unfolding version_metadata
version_metadata-is_named reference version_id ordinal status labels =
    joined-is_named reference status version_id (positive_of ordinal) (string_mapping labels)

of_object-is_named :
    (workspace_id secret_id : String) (reference : Reference) (status : String) (x : Failure)
    (value : Dict Json)
    → is_named (metadata_of_object workspace_id secret_id reference status x value) ≡ true
unfolding metadata_of_object
of_object-is_named workspace_id secret_id reference status x value = then-is_named _ x _ (
    then-is_named _ x _ (
      then-is_named _ x _ (
        then-is_named _ x _ (
          present-is_named x
            (version_metadata reference (member "version_id" value) (member "version_number" value)
              status (member "labels" value))
            (version_metadata-is_named reference (member "version_id" value)
              (member "version_number" value) status (member "labels" value))))))

metadata-is_named :
    (workspace_id secret_id : String) (reference : Reference) (status : String) (value : Json)
    → is_named (metadata workspace_id secret_id reference status uncertain value) ≡ true
unfolding metadata
metadata-is_named workspace_id secret_id reference status value = of_value (as_object value)
  where
    of_value :
        (o : Option (Dict Json))
        → is_named (elim o as (λ _. Answer VersionMetadata) [
          | none ↦ failed doubtful
          | some d ↦ metadata_of_object workspace_id secret_id reference status doubtful d
        ])
          ≡ true
    of_value none = refl
    of_value (some d) = of_object-is_named workspace_id secret_id reference status doubtful d

-- Identifiers, or a failure that is not definite.
abbrev are_named : Answer (List String) → Bool
are_named (ok ids) = all is_identifier ids
are_named (failed x) = not (claims_definite x)

and_more-are_named :
    (a : Answer VersionMetadata) (rest : Answer (List String))
    → is_named a ≡ true
    → is_definite a ≡ false
    → are_named rest ≡ true
    → are_named (and_more a rest) ≡ true
and_more-are_named (failed x) rest n u h = ground arith
and_more-are_named (ok found) (failed x) n u h = h
and_more-are_named (ok found) (ok ids) n u h = ground arith

revoked_ids-are_named :
    (items : List Json) (workspace_id secret_id : String) (reference : Reference)
    → are_named (revoked_ids workspace_id secret_id reference items) ≡ true
unfolding revoked_ids
revoked_ids-are_named [] workspace_id secret_id reference = refl
revoked_ids-are_named (item ∷ items) workspace_id secret_id reference =
    and_more-are_named (metadata workspace_id secret_id reference "revoked" uncertain item)
      (revoked_ids workspace_id secret_id reference items)
      (metadata-is_named workspace_id secret_id reference "revoked" item)
      (metadata-uncertain workspace_id secret_id reference "revoked" item)
      (revoked_ids-are_named items workspace_id secret_id reference)

-- With at least one item there is at least one identifier.
abbrev is_filled : Answer (List String) → Bool
is_filled (ok []) = false
is_filled (ok (v ∷ vs)) = true
is_filled (failed x) = true

and_more-is_filled :
    (a : Answer VersionMetadata) (rest : Answer (List String)) → is_filled (and_more a rest) ≡ true
and_more-is_filled (failed x) rest = refl
and_more-is_filled (ok found) (failed x) = refl
and_more-is_filled (ok found) (ok ids) = refl

collected-uncertain :
    (reference : Reference) (ids : Answer (List String))
    → are_named ids ≡ true
    → is_filled ids ≡ true
    → is_definite (collected reference ids) ≡ false
unfolding revoked_of demand ◌then◌
collected-uncertain reference (failed x) n f = ground arith
collected-uncertain reference (ok []) n f = absurd (ground arith)
collected-uncertain reference (ok (v ∷ vs)) n f = ground arith

all_revoked-uncertain :
    (workspace_id secret_id : String) (reference : Reference) (items : Option (List Json))
    → is_definite (all_revoked workspace_id secret_id reference items) ≡ false
all_revoked-uncertain workspace_id secret_id reference none = refl
all_revoked-uncertain workspace_id secret_id reference (some []) = refl
all_revoked-uncertain workspace_id secret_id reference (some (item ∷ items)) =
    unfold revoked_ids in
    collected-uncertain reference _
      (revoked_ids-are_named (item ∷ items) workspace_id secret_id reference)
      (and_more-is_filled (metadata workspace_id secret_id reference "revoked" uncertain item)
        (revoked_ids workspace_id secret_id reference items))

pub revocation-uncertain :
    (workspace_id secret_id : String) (reference : Reference) (response : Dict Json)
    → is_definite (revocation workspace_id secret_id reference response) ≡ false
unfolding revocation
revocation-uncertain workspace_id secret_id reference response =
    then-uncertain _ doubtful _ refl (all_revoked-uncertain workspace_id secret_id reference _)

is_exactly-uncertain :
    (version_id : String) (ordinal : ℕ) (a : Answer VersionMetadata)
    → is_definite a ≡ false
    → is_definite (is_exactly version_id ordinal a) ≡ false
is_exactly-uncertain version_id ordinal (failed x) h = h
is_exactly-uncertain version_id ordinal (ok found) h = ground arith

pub version_revocation-uncertain :
    (workspace_id secret_id : String) (reference : Reference) (version_id : String) (ordinal : ℕ)
    (response : Dict Json)
    → is_definite (version_revocation workspace_id secret_id reference version_id ordinal response)
      ≡ false
unfolding version_revocation
version_revocation-uncertain workspace_id secret_id reference version_id ordinal response =
    then-uncertain _ doubtful _ refl (
      is_exactly-uncertain version_id ordinal _ (
        metadata-uncertain workspace_id secret_id reference "revoked" (member "metadata" response)))

generated_key-uncertain :
    (core : Core) (key : GeneratedKey) → is_definite (generated_key core key) ≡ false
unfolding generated_key
generated_key-uncertain core key = then-uncertain _ doubtful _ refl refl

with_key-uncertain :
    (core : Core) (reference : Reference) (purpose : Purpose) (issuer correlation_id : String)
    (response : Dict Json) (found : VersionMetadata) (key : Option PublicKey)
    → is_definite (with_key core reference purpose issuer correlation_id response found key) ≡ false
with_key-uncertain core reference purpose issuer correlation_id response found none = refl
with_key-uncertain core reference purpose issuer correlation_id response found (some key) =
    then-uncertain _ doubtful _ refl (generated_key-uncertain core _)

with_metadata-uncertain :
    (core : Core) (reference : Reference) (purpose : Purpose) (issuer correlation_id : String)
    (response : Dict Json) (a : Answer VersionMetadata)
    → is_definite a ≡ false
    → is_definite (with_metadata core reference purpose issuer correlation_id response a) ≡ false
with_metadata-uncertain core reference purpose issuer correlation_id response (failed x) h = h
with_metadata-uncertain core reference purpose issuer correlation_id response (ok found) h =
    with_key-uncertain core reference purpose issuer correlation_id response found _

pub generated-uncertain :
    (core : Core) (workspace_id secret_id : String) (reference : Reference) (purpose : Purpose)
    (issuer correlation_id : String) (response : Dict Json)
    → is_definite
        (generated core workspace_id secret_id reference purpose issuer correlation_id response)
      ≡ false
unfolding generated
generated-uncertain core workspace_id secret_id reference purpose issuer correlation_id response =
    then-uncertain _ doubtful _ refl (
      with_metadata-uncertain core reference purpose issuer correlation_id response _
        (metadata-uncertain workspace_id secret_id reference "active" (member "metadata" response)))
