-- ===== src/Reports/Receipts.antt =====
-- What a receipt of POST /browser stands for (apps/api/src/services/import-service.ts and
-- routes/imports.ts).
use unuvault.Reports.Attempts.{attempt_read_inv, attempt_inv}
use unuvault.Reports.Routes.{
  respond, map_stable_import_error, has_json_content_type, read_strict_bearer_token, post_browser,
}
use unuvault.Reports.Consistency.{validate_sound, IsConsistent}
use unuvault.Reports.{validate_and_rebuild_request, BrowserImportReportRequest}
use unuvault.Prelude.Regexes.{matches}
use unuvault.Values.{text_of, snapshot_plain_data_object, Value}
use unuvault.Reports.Recording.{insert_report, record_browser_import_report}
use unuvault.Reports.Service.{
  profile_not_found, unauthorized, ImportReportError, persistence, insert_row, validation,
  profile_id_of, canonical_lowercase_uuid_v4, account_id_of, Receipt,
  ImportReportServiceDependencies, read_recorded_adapter_result,
}
use unuvault.Prelude.{
  Bool, err, sym, ◌∙◌, text_eq, codes, map_get, ap, arith, Text, or_err, Option, Result, none, some,
  ◌≡◌, refl, ok, true, false,
}
use unuvault.Prelude.Options.{guard-some_inv, bind-some_inv, ◌>>=◌}
use unuvault.Prelude.Actions.{bind-lift_inv, lift}
use unuvault.Http.{reply_of, success}

-- The one way to a receipt: the token's user has an account, the account a profile, the input is a
-- consistent request, and its row was inserted for the profile, with a result that names the job.
pub record Recorded {S : Type 0} (deps : ImportReportServiceDependencies S) (token : Text)
    (input : Value) (s : S) (receipt : Receipt) (t : S) : Type 0 where
  pub user : Value
  pub account_id : Text
  pub profile : Value
  pub profile_id : Text
  pub request : BrowserImportReportRequest
  pub finished_at : Text
  pub result : Value
  pub after_user : S
  pub after_profile : S
  pub finds_user : deps.get_user_by_token token s ≡ (ok user, after_user)
  pub has_account : account_id_of user ≡ ok account_id
  pub finds_profile :
      deps.get_user_profile_by_account_id account_id after_user ≡ (ok profile, after_profile)
  pub has_profile : profile_id_of profile ≡ ok profile_id
  pub valid : validate_and_rebuild_request input ≡ some request
  pub consistent : IsConsistent request
  pub dated : deps.now_iso after_profile ≡ ok finished_at
  pub inserted :
      deps.insert_browser_import_report profile_id (insert_row request finished_at) after_profile
      ≡ (ok result, t)
  pub named : read_recorded_adapter_result result ≡ some receipt
  pub is_uuid : matches canonical_lowercase_uuid_v4 receipt.job_id ≡ true

read_recorded_sound :
    (result : Value) (receipt : Receipt)
    → read_recorded_adapter_result result ≡ some receipt
    → matches canonical_lowercase_uuid_v4 receipt.job_id ≡ true
unfolding read_recorded_adapter_result
read_recorded_sound result receipt h =
    let (snapshot, _, h1) = bind-some_inv (snapshot_plain_data_object result _) _ receipt h in
    let (id, _, h2) = bind-some_inv (map_get (codes "id") snapshot >>= text_of) _ receipt h1 in
    let (is_uuid, h3) = guard-some_inv (matches canonical_lowercase_uuid_v4 id) _ receipt h2 in
    let (status, _, h4) =
      bind-some_inv (map_get (codes "status") snapshot >>= text_of) _ receipt h3 in
    let (_, h5) = guard-some_inv (text_eq status (codes "recorded")) _ receipt h4 in
    let same : receipt ≡ record { job_id = id } = ground (arith, h5) in rw same is_uuid

or_err-ok : {A E : Type 0} (o : Option A) (e : E) (a : A) → or_err o e ≡ ok a → o ≡ some a
or_err-ok none e a h = absurd (ground arith)
or_err-ok (some b) e a h = ground arith

final_result :
    (r : Option Receipt) {S : Type 0} (s : S) (receipt : Receipt) (t : S)
    → lift (or_err r persistence) s ≡ (ok receipt, t)
    → (r ≡ some receipt) × (s ≡ t)
final_result none s receipt t h = absurd (ground arith)
final_result (some a) s receipt t h = (ground arith, ap (λ p. p.1) h)

insert_report_succeeds :
    {S : Type 0} (deps : ImportReportServiceDependencies S) (profile_id : Text)
    (request : BrowserImportReportRequest) (s : S) (receipt : Receipt) (t : S)
    → insert_report deps profile_id request s ≡ (ok receipt, t)
    → (finished_at : Text) × (result : Value) × (deps.now_iso s ≡ ok finished_at)
      × (deps.insert_browser_import_report profile_id (insert_row request finished_at) s
          ≡ (ok result, t))
      × (read_recorded_adapter_result result ≡ some receipt)
insert_report_succeeds {S = S} deps profile_id request s receipt t h =
    let (finished_at, dated, h1) = attempt_read_inv deps.now_iso _ s receipt t h in
    inserted finished_at dated (
      attempt_inv (deps.insert_browser_import_report profile_id (insert_row request finished_at)) _
        s receipt t h1)
  where
    inserted :
        (finished_at : Text)
        → deps.now_iso s ≡ ok finished_at
        → ((result : Value) × (u : S) × (deps.insert_browser_import_report profile_id
                (insert_row request finished_at)
                s
              ≡ (ok result, u))
            × (lift (or_err (read_recorded_adapter_result result) persistence) u ≡ (ok receipt, t)))
        → (at : Text) × (result : Value) × (deps.now_iso s ≡ ok at)
          × (deps.insert_browser_import_report profile_id (insert_row request at) s
              ≡ (ok result, t))
          × (read_recorded_adapter_result result ≡ some receipt)
    inserted finished_at dated (result, u, done, last) =
        let (named, same) = final_result (read_recorded_adapter_result result) u receipt t last in
        (finished_at, result, dated, rw (sym same) done, named)

pub record_succeeds :
    {S : Type 0} (deps : ImportReportServiceDependencies S) (token : Text) (input : Value) (s : S)
    (receipt : Receipt) (t : S)
    → record_browser_import_report deps token input s ≡ (ok receipt, t)
    → Recorded deps token input s receipt t
unfolding record_browser_import_report
record_succeeds deps token input s receipt t h =
    let (user, u, finds_user, h1) = attempt_inv (deps.get_user_by_token token) _ s receipt t h in
    let (account_id, has_account, h2) = bind-lift_inv (account_id_of user) _ u receipt t h1 in
    let (profile, v, finds_profile, h3) =
      attempt_inv (deps.get_user_profile_by_account_id account_id) _ u receipt t h2 in
    let (profile_id, has_profile, h4) = bind-lift_inv (profile_id_of profile) _ v receipt t h3 in
    let (request, accepted, h5) =
      bind-lift_inv (or_err (validate_and_rebuild_request input) validation) _ v receipt t h4 in
    let (finished_at, result, dated, inserted, named) =
      insert_report_succeeds deps profile_id request v receipt t h5 in
    let valid = or_err-ok (validate_and_rebuild_request input) validation request accepted in
    record {
      user = user;
      account_id = account_id;
      profile = profile;
      profile_id = profile_id;
      request = request;
      finished_at = finished_at;
      result = result;
      after_user = u;
      after_profile = v;
      finds_user = finds_user;
      has_account = has_account;
      finds_profile = finds_profile;
      has_profile = has_profile;
      valid = valid;
      consistent = validate_sound input request valid;
      dated = dated;
      inserted = inserted;
      named = named;
      is_uuid = read_recorded_sound result receipt named;
    }

-- A receipt of POST /browser is given for a request with a bearer token and the JSON content type
-- only: the token's user has an account and the account a profile, the body is a consistent request,
-- and its row was inserted for that profile, with a result that names the job by a UUID of version 4.
pub post_browser_succeeds :
    {S : Type 0} (deps : ImportReportServiceDependencies S)
    (authorization content_type : Option Text) (body : Value) (s : S) (receipt : Receipt) (t : S)
    → post_browser (record_browser_import_report deps) authorization content_type body s
      ≡ (success receipt, t)
    → (token : Text) × (read_strict_bearer_token authorization ≡ some token)
      × (has_json_content_type content_type ≡ true)
      × Recorded deps token body s receipt t
unfolding post_browser
post_browser_succeeds {S = S} deps authorization content_type body s receipt t h =
    by_request (read_strict_bearer_token authorization) (has_json_content_type content_type) refl
      refl h
  where
    by_result :
        (token : Text) (r : Result ImportReportError Receipt × S)
        → record_browser_import_report deps token body s ≡ r
        → reply_of map_stable_import_error r ≡ (success receipt, t)
        → Recorded deps token body s receipt t
    by_result token (ok a, u) e k = record_succeeds deps token body s receipt t (e ∙ ground arith)
    by_result token (err validation, u) e k = absurd (ground arith)
    by_result token (err unauthorized, u) e k = absurd (ground arith)
    by_result token (err profile_not_found, u) e k = absurd (ground arith)
    by_result token (err persistence, u) e k = absurd (ground arith)

    by_request :
        (found : Option Text) (is_json : Bool)
        → read_strict_bearer_token authorization ≡ found
        → has_json_content_type content_type ≡ is_json
        → respond (record_browser_import_report deps) found is_json body s ≡ (success receipt, t)
        → (token : Text) × (read_strict_bearer_token authorization ≡ some token)
          × (has_json_content_type content_type ≡ true)
          × Recorded deps token body s receipt t
    by_request none is_json e j k = absurd (ground arith)
    by_request (some token) false e j k = absurd (ground arith)
    by_request (some token) true e j k = (token, e, j, by_result token _ refl k)
