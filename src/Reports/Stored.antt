-- ===== src/Reports/Stored.antt =====
-- What POST /browser leaves in the database (apps/api/src/services/import-service.ts and
-- routes/imports.ts).
use mathlib.Core.Bool.{true, false}
use unuvault.Reports.Routes.{
  respond, map_stable_import_error, has_json_content_type, read_strict_bearer_token, post_browser,
}
use unuvault.Reports.Consistency.{validate_sound}
use unuvault.Values.{Value}
use unuvault.Reports.{validate_and_rebuild_request, BrowserImportReportRequest}
use unuvault.Reports.Recording.{
  insert_row-AddsUp, insert_report, AddsUp, record_browser_import_report, IsReportTable,
}
use unuvault.Reports.Service.{
  profile_id_of, account_id_of, validation, insert_row, BrowserImportReportInsertRow, attempt,
  ImportReportServiceDependencies,
}
use unuvault.Http.{answer-state}
use unuvault.Reports.Attempts.{attempt-state}
use unuvault.Prelude.{
  true, false, Bool, ◌∷◌, arith, or_err, Option, inr, inl, All, Text, List, none, some, ◌≡◌, refl,
}
use unuvault.Prelude.Actions.{◌>>=◌, lift, bind_keeps}

abbrev pub Entry : Type 0
Entry = Text × BrowserImportReportInsertRow

-- A property of the reports that an insertion for a request keeps, where the input is that request.
module _ {S : Type 0} (deps : ImportReportServiceDependencies S) (reports : S → List Entry)
    (law : IsReportTable deps reports) (input : Value) (Q : List Entry → Type 0)
    (step : (profile_id finished_at : Text) (request : BrowserImportReportRequest)
        (rows : List Entry)
      → validate_and_rebuild_request input ≡ some request
      → Q rows
      → Q ((profile_id, insert_row request finished_at) ∷ rows)) where
  inserted_keeps :
      (profile_id finished_at : Text) (request : BrowserImportReportRequest) (s : S)
      → validate_and_rebuild_request input ≡ some request
      → Q (reports s)
      → Q (
          reports
            (deps.insert_browser_import_report profile_id (insert_row request finished_at) s).1)
  inserted_keeps profile_id finished_at request s e h =
      elim (law.inserts profile_id (insert_row request finished_at) s) [
        | inl added ↦ rw added (step profile_id finished_at request (reports s) e h)
        | inr same ↦ rw same h
      ]

  insert_report_keeps :
      (profile_id : Text) (request : BrowserImportReportRequest) (s : S)
      → validate_and_rebuild_request input ≡ some request
      → Q (reports s)
      → Q (reports (insert_report deps profile_id request s).1)
  insert_report_keeps profile_id request s e h =
      bind_keeps (λ u. Q (reports u)) (attempt (λ u. (deps.now_iso u, u))) _ s
        (rw (attempt-state (λ u. (deps.now_iso u, u)) s) h)
        (λ finished_at u k.
          let row = insert_row request finished_at in
          bind_keeps (λ v. Q (reports v))
            (attempt (deps.insert_browser_import_report profile_id row)) _ u
            (rw (attempt-state (deps.insert_browser_import_report profile_id row) u)
              (inserted_keeps profile_id finished_at request u e k))
            (λ result v k'. k'))

  record_keeps :
      (token : Text) (s : S)
      → Q (reports s)
      → Q (reports (record_browser_import_report deps token input s).1)
  unfolding record_browser_import_report
  record_keeps token s h =
      bind_keeps (λ u. Q (reports u)) (attempt (deps.get_user_by_token token)) _ s
        (rw (attempt-state (deps.get_user_by_token token) s, law.finds_user token s) h)
        (λ user u k.
          bind_keeps (λ v. Q (reports v)) (lift (account_id_of user)) _ u k
            (λ account_id v k1.
              bind_keeps (λ w. Q (reports w))
                (attempt (deps.get_user_profile_by_account_id account_id)) _ v
                (rw
                  (
                    attempt-state (deps.get_user_profile_by_account_id account_id) v,
                    law.finds_profile account_id v,
                  )
                  k1)
                (λ profile w k2.
                  bind_keeps (λ x. Q (reports x)) (lift (profile_id_of profile)) _ w k2
                    (λ profile_id x k3.
                      validated profile_id x (validate_and_rebuild_request input) refl k3))))
    where
      validated :
          (profile_id : Text) (u : S) (found : Option BrowserImportReportRequest)
          → validate_and_rebuild_request input ≡ found
          → Q (reports u)
          → Q (reports ((lift (or_err found validation) >>= insert_report deps profile_id) u).1)
      validated profile_id u none e k = k
      validated profile_id u (some request) e k = insert_report_keeps profile_id request u e k

  respond_keeps :
      (token : Option Text) (is_json : Bool) (s : S)
      → Q (reports s)
      → Q (reports (respond (record_browser_import_report deps) token is_json input s).1)
  respond_keeps none is_json s h = h
  respond_keeps (some token) false s h = h
  respond_keeps (some token) true s h =
      rw (answer-state map_stable_import_error (record_browser_import_report deps token input) s)
        (record_keeps token s h)

-- Given a database whose lookups leave the reports alone and whose insertion adds the row or leaves
-- them alone, POST /browser keeps it true of all stored reports that they have at most 3000 data rows,
-- counts that add up, and as many malformed rows and duplicates as are counted; and a body that the
-- validation refuses leaves the reports as they are.
pub post_browser-AddsUp :
    {S : Type 0} (deps : ImportReportServiceDependencies S) (reports : S → List Entry)
    (law : IsReportTable deps reports) (authorization content_type : Option Text) (body : Value)
    (s : S)
    → All (λ (entry : Entry). AddsUp entry.1) (reports s)
    → All
        (λ (entry : Entry). AddsUp entry.1)
        (reports
          (post_browser (record_browser_import_report deps) authorization content_type body s).1)
      × (validate_and_rebuild_request body ≡ none
          → reports
              (post_browser (record_browser_import_report deps) authorization content_type body s).1
            ≡ reports s)
unfolding post_browser
post_browser-AddsUp deps reports law authorization content_type body s h = (
  respond_keeps deps reports law body (All (λ (entry : Entry). AddsUp entry.1))
      (λ profile_id finished_at request rows e k.
        (insert_row-AddsUp request finished_at (validate_sound body request e), k))
      (read_strict_bearer_token authorization) (has_json_content_type content_type) s h,
  λ refused.
      respond_keeps deps reports law body (λ rows. rows ≡ reports s)
        (λ profile_id finished_at request rows e k. absurd (ground (arith, refused, e)))
        (read_strict_bearer_token authorization) (has_json_content_type content_type) s refl,
)
