-- ===== src/SecretProvider/Policy/Pages/Walk.antt =====
-- A caller of `list` (secret_provider/policy.py) that follows the cursors from page to page.
use Prim.Native.String.{◌++◌ as append}
use control_plane_kit_interp.Base.{
  String, Bool, true, false, List, [], ◌∷◌, ◌++◌, Option, none, some, ◌==◌, ◌≡◌, ◌∙◌, if-true,
  if-false, Bool-cases, eq_iff, Option-cases, inl, inr, arith,
}
use control_plane_kit_interp.Base.Dict.{Dict}
use control_plane_kit_interp.Base.Lists.{All, length}
use control_plane_kit_interp.Base.Json.{Json, as_array, member}
use control_plane_kit_interp.SecretProvider.Call.{
  Answer, ok, failed, client_error, bootstrap_error, mismatched_reference, foreign,
}
use control_plane_kit_interp.SecretProvider.Policy.{
  accepted, invalid, judged, failure, GrantRecord, PolicyCore, PolicyClient, request,
}
use control_plane_kit_interp.SecretProvider.Policy.Pages.{
  ListRequest, Page, PageCore, precedes, passes, intent_passes, start_after, admits, check_grants,
  cursor_matches, closed_page, checked_page, page_with, bounded_page, decode_page, list, grants_of,
}

-- The ids of the grants ascend, from after a given one.
abbrev pub IsAscending : String → List GrantRecord → Type 0
IsAscending previous [] = Unit
IsAscending previous (grant ∷ grants) =
    (precedes previous grant.grant_id ≡ true) × IsAscending grant.grant_id grants

-- A grant of the provider that is not revoked and passes the filters of the request.
pub record Fits (provider_id : String) (request : ListRequest) (grant : GrantRecord) : Type 0 where
  pub provider : grant.provider_id ≡ provider_id
  pub active : grant.revoked_at ≡ none
  pub subject : passes request.subject grant.coordinate.subject ≡ true
  pub workspace : passes request.workspace_id grant.coordinate.workspace_id ≡ true
  pub action : passes request.action grant.coordinate.action ≡ true
  pub intent : intent_passes request.intent_mode request.intent grant.coordinate.intent ≡ true

abbrev last_id : String → List GrantRecord → String
last_id previous [] = previous
last_id previous (grant ∷ grants) = last_id grant.grant_id grants

IsAscending-append :
    (first : List GrantRecord) (previous : String) (second : List GrantRecord)
    → IsAscending previous first
    → IsAscending (last_id previous first) second
    → IsAscending previous (first ++ second)
IsAscending-append [] previous second h k = k
IsAscending-append (grant ∷ grants) previous second (now, h) k =
    (now, IsAscending-append grants grant.grant_id second h k)

All-append :
    (P : GrantRecord → Type 0) (first second : List GrantRecord)
    → All P first
    → All P second
    → All P (first ++ second)
All-append P [] second h k = k
All-append P (grant ∷ grants) second (now, h) k = (now, All-append P grants second h k)

abbrev with_cursor : ListRequest → String → ListRequest
with_cursor wanted cursor = record wanted { after_grant_id = some cursor }

rejected : (mutation : Bool) (page : Page) → failure invalid mutation ≡ accepted page → ⊥
unfolding failure
rejected mutation page h = ground arith

judged-accepted :
    {A : Type 0} (mutation : Bool) (decode : Dict Json → Option A) (answer : Answer (Dict Json))
    (a : A)
    → judged mutation decode answer ≡ accepted a
    → (raw : Dict Json) × (decode raw ≡ some a)
unfolding judged failure
judged-accepted mutation decode (ok raw) a h = elim (Option-cases (decode raw)) [
  | inl e ↦ absurd (ground arith)
  | inr (value, e) ↦ (raw, ground arith)
]
judged-accepted mutation decode (failed (client_error code certainty)) a h = absurd (ground arith)
judged-accepted mutation decode (failed bootstrap_error) a h = absurd (ground arith)
judged-accepted mutation decode (failed mismatched_reference) a h = absurd (ground arith)
judged-accepted mutation decode (failed (foreign e)) a h = absurd (ground arith)

module _ {D : Type 0} (core : PolicyCore) (pages : PageCore) (self : PolicyClient D) where
  admits-Fits :
      (wanted : ListRequest) (previous : String) (grant : GrantRecord)
      → admits core pages self wanted previous grant ≡ true
      → (precedes previous grant.grant_id ≡ true) × Fits self.provider_id wanted grant
  unfolding admits
  admits-Fits wanted previous grant h = (
    ground arith,
    record {
      provider = ground (arith, eq_iff grant.provider_id self.provider_id);
      active = ground arith;
      subject = ground arith;
      workspace = ground arith;
      action = ground arith;
      intent = ground arith;
    },
  )

  -- What a page that is accepted holds, and where it ends.
  check_grants-some :
      (grants : List GrantRecord) (wanted : ListRequest) (previous last : String)
      → check_grants core pages self wanted previous grants ≡ some last
      → IsAscending previous grants
        × All (Fits self.provider_id wanted) grants
        × (last_id previous grants ≡ last)
  unfolding check_grants
  check_grants-some [] wanted previous last h = (tt, tt, ground arith)
  check_grants-some (grant ∷ grants) wanted previous last h =
      let admitted : admits core pages self wanted previous grant ≡ true = ground arith in
      let (now, fits) = admits-Fits wanted previous grant admitted in
      let (ascending, all_fit, ends) =
        check_grants-some grants wanted grant.grant_id last (ground arith) in
      ((now, ascending), (fits, all_fit), ends)

  -- The pages that a caller has seen, each got with the cursor of the one before.
  pub data Walk : ListRequest → List GrantRecord → Type 0 where
    stop_at :
        (wanted : ListRequest) (d d' : D) (page : Page)
        → list core pages self wanted d ≡ (accepted page, d')
        → Walk wanted page.grants
    go_on :
        (wanted : ListRequest) (d d' : D) (page : Page) (cursor : String) (rest : List GrantRecord)
        → list core pages self wanted d ≡ (accepted page, d')
        → page.next_after ≡ some cursor
        → Walk (with_cursor wanted cursor) rest
        → Walk wanted (page.grants ++ rest)

  -- What is promised of a page: its grants, and the last of them where it has a cursor.
  record IsPage (wanted : ListRequest) (page : Page) : Type 0 where
    ascending : IsAscending (start_after wanted.after_grant_id) page.grants
    fits : All (Fits self.provider_id wanted) page.grants
    ends :
        (cursor : String)
        → page.next_after ≡ some cursor
        → last_id (start_after wanted.after_grant_id) page.grants ≡ cursor

  closed_page-some :
      (wanted : ListRequest) (made page : Page)
      → closed_page core pages self wanted made
          (check_grants core pages self wanted (start_after wanted.after_grant_id) made.grants)
        ≡ some page
      → IsPage wanted page
  closed_page-some wanted made page h =
      elim (Option-cases
        (check_grants core pages self wanted (start_after wanted.after_grant_id) made.grants)) [
          | inl e ↦ absurd (ground arith)
          | inr (last, e) ↦
              let same : made ≡ page = ground arith in
              let matched : cursor_matches core pages self wanted (length made.grants) last
                    made.next_after
                  ≡ true =
                ground arith in
              let (ascending, fits, ends) = check_grants-some made.grants wanted _ last e in
              rw (← same) (record {
                ascending = ascending;
                fits = fits;
                ends = λ cursor at. ends ∙ ground (arith, eq_iff cursor last);
              })
        ]

  checked_page-some :
      (wanted : ListRequest) (revision : Json) (grants : List GrantRecord)
      (cursor : Option (Option String)) (page : Page)
      → checked_page core pages self wanted revision grants cursor ≡ some page
      → IsPage wanted page
  checked_page-some wanted revision grants none page h = absurd (ground arith)
  checked_page-some wanted revision grants (some cursor) page h = closed_page-some wanted _ page h

  page_with-some :
      (wanted : ListRequest) (raw : Dict Json) (grants : Option (List GrantRecord)) (page : Page)
      → page_with core pages self wanted raw grants ≡ some page
      → IsPage wanted page
  page_with-some wanted raw none page h = absurd (ground arith)
  page_with-some wanted raw (some grants) page h = checked_page-some wanted _ grants _ page h

  bounded_page-some :
      (wanted : ListRequest) (raw : Dict Json) (values : Option (List Json)) (page : Page)
      → bounded_page core pages self wanted raw values ≡ some page
      → IsPage wanted page
  bounded_page-some wanted raw none page h = absurd (ground arith)
  bounded_page-some wanted raw (some values) page h =
      page_with-some wanted raw (grants_of core pages self values) page (ground arith)

  decode_page-some :
      (wanted : ListRequest) (raw : Dict Json) (page : Page)
      → decode_page core pages self wanted raw ≡ some page
      → IsPage wanted page
  unfolding decode_page
  decode_page-some wanted raw page h =
      bounded_page-some wanted raw (as_array (member "grants" raw)) page (ground arith)

  request-accepted :
      {A : Type 0} (mutation : Bool) (method path : String) (payload : Option (Dict Json))
      (decode : Dict Json → Option A) (d d' : D) (a : A)
      → request core self mutation method path payload decode d ≡ (accepted a, d')
      → (raw : Dict Json) × (decode raw ≡ some a)
  unfolding request
  request-accepted mutation method path payload decode d d' a h =
      judged-accepted mutation decode _ a (λ i. (h i).0)

  list-accepted :
      (wanted : ListRequest) (d d' : D) (page : Page)
      → list core pages self wanted d ≡ (accepted page, d')
      → IsPage wanted page
  unfolding list failure
  list-accepted wanted d d' page h =
      elim (Bool-cases (wanted.logical_provider_id == self.logical_provider_id)) [
        | inl known ↦
            let (raw, e) =
              request-accepted false "GET"
                (append "/v1/provider-policy/grants?" (pages.encode wanted)) none
                (decode_page core pages self wanted) d d' page (if-true _ _ _ _ known h) in
            decode_page-some wanted raw page e
        | inr other ↦ absurd (rejected false page (λ i. (if-false _ _ _ _ other h i).0))
      ]

  Fits-cursor :
      (wanted : ListRequest) (cursor : String) (grants : List GrantRecord)
      → All (Fits self.provider_id (with_cursor wanted cursor)) grants
      → All (Fits self.provider_id wanted) grants
  Fits-cursor wanted cursor [] h = tt
  Fits-cursor wanted cursor (grant ∷ grants) (fit, h) = (
    record {
      provider = fit.provider;
      active = fit.active;
      subject = fit.subject;
      workspace = fit.workspace;
      action = fit.action;
      intent = fit.intent;
    },
    Fits-cursor wanted cursor grants h,
  )

  -- However many pages a caller follows, the grants on them ascend, so none comes twice, and each is
  -- a grant of the provider that is not revoked and passes the filters.
  pub Walk-IsAscending :
      (wanted : ListRequest) (seen : List GrantRecord)
      → Walk wanted seen
      → IsAscending (start_after wanted.after_grant_id) seen
        × All (Fits self.provider_id wanted) seen
  Walk-IsAscending wanted seen (Walk.stop_at _ d d' page h) =
      let is_page = list-accepted wanted d d' page h in (is_page.ascending, is_page.fits)
  Walk-IsAscending wanted seen (Walk.go_on _ d d' page cursor rest h at walk) =
      let is_page = list-accepted wanted d d' page h in
      let (later, later_fits) = Walk-IsAscending (with_cursor wanted cursor) rest walk in
      (
        IsAscending-append page.grants (start_after wanted.after_grant_id) rest is_page.ascending
            (rw (is_page.ends cursor at) later),
        All-append (Fits self.provider_id wanted) page.grants rest is_page.fits
            (Fits-cursor wanted cursor rest later_fits),
      )
