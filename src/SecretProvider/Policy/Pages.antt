-- ===== src/SecretProvider/Policy/Pages.antt =====
-- `read` and `list` of the policy client (secret_provider/policy.py).

pub mod Walk
use Prim.Native.Nat.{Ordering}
use Prim.Native.String.{◌++◌ as append, compare}
use control_plane_kit_interp.Base.{
  ℕ, String, Bool, true, false, not, ◌&&◌, List, [], ◌∷◌, Option, none, some, ◌==◌, ltb, beq,
  is_none, text_eq?, if◌then◌else◌,
}
use control_plane_kit_interp.Base.Dict.{Dict}
use control_plane_kit_interp.Base.Lists.{length}
use control_plane_kit_interp.Base.Json.{Json, member, as_array}
use control_plane_kit_interp.SecretProvider.Exchange.{has_keys}
use control_plane_kit_interp.SecretProvider.Policy.{
  PolicyCall, invalid, failure, Coordinate, GrantRecord, PolicyCore, PolicyClient, grant_of,
  request,
}

-- `ProviderPolicyIntentMode`
pub data IntentMode : Type 0 where
  any_intent no_intent exact_intent : IntentMode

-- `ProviderPolicyListRequest`
pub record ListRequest : Type 0 where
  pub logical_provider_id : String
  pub subject : Option String
  pub workspace_id : Option String
  pub action : Option String
  pub intent : Option String
  pub intent_mode : IntentMode
  pub limit : ℕ
  pub after_grant_id : Option String

-- `ProviderPolicyGrantPage`
pub record Page : Type 0 where
  pub revision : Json
  pub grants : List GrantRecord
  pub next_after : Option String

-- `ProviderPolicyGrantRead`
pub record GrantRead : Type 0 where
  pub revision : Json
  pub grant : GrantRecord

-- What the constructors of the two accept: a revision, and for a page the cursor as a text or `None`.
-- `encode` is `urlencode` of the query of a list request.
pub record PageCore : Type 0 where
  pub is_revision : Json → Bool
  pub page_cursor : Json → List GrantRecord → Json → Option (Option String)
  pub encode : ListRequest → String

-- `first < second`, by code points
abbrev pub precedes : String → String → Bool
precedes first second = elim (compare first second) [ Ordering.lt ↦ true | _ ↦ false ]

-- A filter that is not given passes everything.
abbrev pub passes : Option String → String → Bool
passes none value = true
passes (some wanted) value = wanted == value

abbrev pub intent_passes : IntentMode → Option String → Option String → Bool
intent_passes any_intent wanted found = true
intent_passes no_intent wanted found = is_none found
intent_passes exact_intent wanted found = text_eq? found wanted

abbrev pub start_after : Option String → String
start_after none = ""
start_after (some grant_id) = grant_id

abbrev all_grants : Option GrantRecord → Option (List GrantRecord) → Option (List GrantRecord)
all_grants none rest = none
all_grants (some grant) none = none
all_grants (some grant) (some rest) = some (grant ∷ rest)

module _ {D : Type 0} (core : PolicyCore) (pages : PageCore) (self : PolicyClient D) where
  -- `tuple(_grant(value) for value in raw["grants"])`
  unfoldable pub grants_of : List Json → Option (List GrantRecord)
  unfolding grant_of
  grants_of [] = some []
  grants_of (value ∷ values) = all_grants (grant_of core value) (grants_of values)

  -- The tests of one grant of a page.
  unfoldable pub admits : ListRequest → String → GrantRecord → Bool
  admits request previous grant =
      (grant.provider_id == self.provider_id)
      && is_none grant.revoked_at
      && precedes previous grant.grant_id
      && passes request.subject grant.coordinate.subject
      && passes request.workspace_id grant.coordinate.workspace_id
      && passes request.action grant.coordinate.action
      && intent_passes request.intent_mode request.intent grant.coordinate.intent

  -- The loop over the grants of a page: the id of the last one, if all pass.
  unfoldable pub check_grants : ListRequest → String → List GrantRecord → Option String
  unfolding admits
  check_grants request previous [] = some previous
  check_grants request previous (grant ∷ grants) =
      let rest = check_grants request grant.grant_id grants in
      if admits request previous grant then rest else none

  abbrev pub cursor_matches : ListRequest → ℕ → String → Option String → Bool
  cursor_matches request count last none = true
  cursor_matches request count last (some cursor) = beq count request.limit && cursor == last

  abbrev pub closed_page : ListRequest → Page → Option String → Option Page
  closed_page request page none = none
  closed_page request page (some last) =
      if cursor_matches request (length page.grants) last page.next_after then some page else none

  abbrev pub checked_page :
      ListRequest → Json → List GrantRecord → Option (Option String) → Option Page
  checked_page request revision grants none = none
  checked_page request revision grants (some cursor) =
      closed_page request (record { revision = revision; grants = grants; next_after = cursor })
        (check_grants request (start_after request.after_grant_id) grants)

  abbrev pub page_with : ListRequest → Dict Json → Option (List GrantRecord) → Option Page
  page_with request raw none = none
  page_with request raw (some grants) =
      checked_page request (member "revision" raw) grants
        (pages.page_cursor (member "revision" raw) grants (member "next_after" raw))

  abbrev pub bounded_page : ListRequest → Dict Json → Option (List Json) → Option Page
  bounded_page request raw none = none
  bounded_page request raw (some values) =
      if ltb request.limit (length values) then none else page_with request raw (grants_of values)

  unfoldable pub decode_page : ListRequest → Dict Json → Option Page
  unfolding has_keys member as_array grants_of check_grants
  decode_page request raw =
      if has_keys ("revision" ∷ "grants" ∷ "next_after" ∷ []) raw
      then bounded_page request raw (as_array (member "grants" raw))
      else none

  -- `list`
  unfoldable pub list : ListRequest → PolicyCall D Page
  unfolding request decode_page failure
  list wanted d =
      if wanted.logical_provider_id == self.logical_provider_id
      then request core self false "GET"
          (append "/v1/provider-policy/grants?" (pages.encode wanted)) none (decode_page wanted) d
      else (failure invalid false, d)

  abbrev read_with : String → Json → Option GrantRecord → Option GrantRead
  read_with grant_id revision none = none
  read_with grant_id revision (some grant) =
      if pages.is_revision revision
        && grant.provider_id == self.provider_id
        && grant.grant_id == grant_id
      then some (record { revision = revision; grant = grant })
      else none

  unfoldable pub decode_read : String → Dict Json → Option GrantRead
  unfolding has_keys member grant_of
  decode_read grant_id raw =
      if has_keys ("revision" ∷ "grant" ∷ []) raw
      then read_with grant_id (member "revision" raw) (grant_of core (member "grant" raw))
      else none

  -- `read`, for a logical provider and a grant
  unfoldable pub read : String → String → PolicyCall D GrantRead
  unfolding request decode_read failure
  read logical_provider_id grant_id d =
      if logical_provider_id == self.logical_provider_id
      then request core self false "GET"
          (append "/v1/provider-policy/grants/" (self.client.python.quote grant_id)) none
          (decode_read grant_id) d
      else (failure invalid false, d)
