-- ===== src/Extension/Client.antt =====
-- background/mac-companion.ts: the client of the companion's HTTP service on this Mac.
use unuvault.Prelude.{Bool, true, false, ℕ, Option, none, some, [], ◌∷◌, ◌++◌, Text, codes}
use unuvault.Prelude.{Result, ok, err, TextMap, if◌then◌else◌, ◌==◌}
use unuvault.Prelude.Actions.{Action}
use unuvault.Extension.{Rejection, CompanionPage}
use unuvault.Values.{Value, Properties, undefined, null, boolean, text, array, object}
use unuvault.Values.{datum, named, bare, descriptor}

-- What `fetch` is called with; the body is the value that is printed as JSON.
pub record Request : Type 0 where
  pub url : Text
  pub method : Text
  pub headers : TextMap Text
  pub body : Option Value

-- What is read of a response; its `json()` may reject.
pub record Response : Type 0 where
  pub status : ℕ
  pub is_ok : Bool
  pub json : Result Rejection Value

-- The fetcher, and the text of `new URL(text)` with search parameters set, `none` where it throws.
pub record Network (S : Type 0) : Type 0 where
  pub fetcher : Request → Action S Rejection Response
  pub url_with : Text → TextMap Text → Option Text

-- The credentials are what the reply has under that name.
pub data MetadataReply : Type 0 where
  ready : Value → MetadataReply
  locked unavailable : MetadataReply

abbrev json_object : TextMap Text → Properties
json_object [] = bare
json_object ((name, value) ∷ rest) = datum (named name) true (text value) (json_object rest)

abbrev unavailable_release : Value
unavailable_release = object true (
    datum (named (codes "ok")) true (boolean false)
      (datum (named (codes "error")) true (text (codes "mac_companion_unavailable")) bare))

abbrev authorization : CompanionPage → Text × Text
authorization options = (codes "authorization", codes "Bearer " ++ options.access_token)

-- `value.credentials`, of a value that JSON gives.
abbrev own_value : Option (Bool × Option Value) → Value
own_value (some (enumerable, some value)) = value
own_value _ = undefined

unfoldable pub credentials_of : Value → Option Value
credentials_of undefined = none
credentials_of null = none
credentials_of (object plain ps) = some (own_value (descriptor (named (codes "credentials")) ps))
credentials_of (array plain ps) = some (own_value (descriptor (named (codes "credentials")) ps))
credentials_of _ = some undefined

module _ {S : Type 0} (network : Network S) (base_url : Text) where
  abbrev post_request : (path : Text) → CompanionPage → TextMap Text → Request
  post_request path options body = record {
    url = base_url ++ path;
    method = codes "POST";
    headers = authorization options ∷ (codes "content-type", codes "application/json") ∷ [];
    body = some (object true (json_object body));
  }

  -- The promise of `readJson` is returned without `await`: its rejection is not caught.
  abbrev pub json_or_unavailable : Result Rejection Response × S → Result Rejection Value × S
  json_or_unavailable (ok response, s) = (response.json, s)
  json_or_unavailable (err e, s) = (ok unavailable_release, s)

  abbrev page_fields : CompanionPage → (id : Text) → TextMap Text → TextMap Text
  page_fields options id rest =
      (codes "id", id)
      ∷ (codes "origin", options.origin)
      ∷ (codes "profileId", options.profile_id)
      ∷ rest

  unfoldable pub claim_credential_release : CompanionPage → (id : Text) → Action S Rejection Value
  claim_credential_release options id s = json_or_unavailable (
      network.fetcher
        (post_request (codes "/v1/credentials/claim") options (page_fields options id [])) s)

  unfoldable pub request_credential_release :
      CompanionPage → (id reason : Text) → Action S Rejection Value
  request_credential_release options id reason s = json_or_unavailable (
      network.fetcher
        (post_request (codes "/v1/credentials/release") options
          (page_fields options id ((codes "reason", reason) ∷ [])))
        s)

  abbrev ready_with : Option Value → MetadataReply
  ready_with (some credentials) = MetadataReply.ready credentials
  ready_with none = MetadataReply.unavailable

  abbrev reply_of_json : Result Rejection Value → MetadataReply
  reply_of_json (ok payload) = ready_with (credentials_of payload)
  reply_of_json (err e) = MetadataReply.unavailable

  abbrev metadata_of : Response → MetadataReply
  metadata_of response =
      if response.status == 423
      then MetadataReply.locked
      else if response.is_ok
      then reply_of_json response.json
      else MetadataReply.unavailable

  abbrev pub metadata_or_unavailable :
      Result Rejection Response × S → Result Rejection MetadataReply × S
  metadata_or_unavailable (ok response, s) = (ok (metadata_of response), s)
  metadata_or_unavailable (err e, s) = (ok MetadataReply.unavailable, s)

  abbrev pub ask_metadata : CompanionPage → Option Text → Action S Rejection MetadataReply
  ask_metadata options none s = (ok MetadataReply.unavailable, s)
  ask_metadata options (some url) s = metadata_or_unavailable (
      network.fetcher
        (record {
          url = url;
          method = codes "GET";
          headers = authorization options ∷ [];
          body = none;
        })
        s)

  unfoldable pub read_credential_metadata : CompanionPage → Action S Rejection MetadataReply
  read_credential_metadata options = ask_metadata options (
      network.url_with (base_url ++ codes "/v1/credentials")
        ((codes "origin", options.origin) ∷ (codes "profileId", options.profile_id) ∷ []))
