-- ===== src/Bridge.antt =====
-- apps/api/src/services/local-credential-bridge-service.ts: the credentials that the local bridge
-- holds while the vault is unlocked, and how a request and a credential are validated.
pub mod Store
pub mod Service
pub mod Clients
pub mod Configured
pub mod History
pub mod Routes
pub mod Access
mod Tests
pub mod Release
pub mod Sessions
pub mod Validation
use unuvault.Prelude.{
  ℕ, ◌≡◌, Bool, true, false, not, ◌&&◌, ◌||◌, Option, none, some, List, [], ◌∷◌, ltb, leb, ◌==◌,
  if◌then◌else◌, length, Result, ok, err, ◌>>=◌, ◌>>◌, Text, codes, text_eq, is_empty, trim,
}
use unuvault.Prelude.Regexes.{Regex, set, seq, star, plus, char, matches}

-- The errors that the service throws; `dependency` is whatever one of its dependencies rejects with.
pub data BridgeError : Type 0 where
  validation : BridgeError
  credential_not_found : BridgeError
  unauthorized : BridgeError
  dependency : BridgeError

-- What `new URL(text)` returns when it does not throw: the part of it that the source reads.
pub record Url : Type 0 where
  pub protocol : Text
  pub origin : Text

pub record Credential : Type 0 where
  pub id : Text
  pub label : Text
  pub password : Text
  pub profile_id : Option Text
  pub username : Text
  pub website_origin : Text

pub record Metadata : Type 0 where
  pub id : Text
  pub label : Text
  pub username : Text

pub record Released : Type 0 where
  pub password : Text
  pub username : Text

pub record MetadataRequest : Type 0 where
  pub origin : Text
  pub profile_id : Text

pub record ReleaseRequest : Type 0 where
  pub id : Text
  pub origin : Text
  pub profile_id : Text
  pub reason : Text

pub record AuditEvent : Type 0 where
  pub id : Text
  pub origin : Text
  pub profile_id : Text
  pub reason : Text
  pub released_at : Text

abbrev pub is_lower : ℕ → Bool
is_lower c = leb b'a' c && leb c b'z'

abbrev pub is_digit : ℕ → Bool
is_digit c = leb b'0' c && leb c b'9'

abbrev pub is_upper : ℕ → Bool
is_upper c = leb b'A' c && leb c b'Z'

abbrev pub is_slug_char : ℕ → Bool
is_slug_char c = is_lower c || is_digit c

abbrev pub is_id_start : ℕ → Bool
is_id_start c = is_lower c || is_upper c || is_digit c

abbrev pub is_id_char : ℕ → Bool
is_id_char c = is_id_start c || c == b'.' || c == b'_' || c == b':' || c == b'-'

-- /^[a-z0-9]+(?:-[a-z0-9]+)*$/
abbrev pub profile_id_regex : Regex
profile_id_regex = seq (plus (set is_slug_char)) (star (seq (char b'-') (plus (set is_slug_char))))

-- /^[a-zA-Z0-9][a-zA-Z0-9._:-]*$/
abbrev pub credential_id_regex : Regex
credential_id_regex = seq (set is_id_start) (star (set is_id_char))

abbrev pub is_http : Text → Bool
is_http protocol = text_eq protocol (codes "http:") || text_eq protocol (codes "https:")

unfoldable pub validate_profile_id : Text → Result BridgeError Text
validate_profile_id profile_id =
    if matches profile_id_regex profile_id then ok profile_id else err validation

unfoldable pub validate_credential_id : Text → Result BridgeError Text
validate_credential_id id =
    if length id == 0 || ltb 200 (length id) || not (matches credential_id_regex id)
    then err validation
    else ok id

abbrev pub fill_active_page : Text
fill_active_page = codes "fill-active-page"

unfoldable pub validate_release_reason : Text → Result BridgeError Text
validate_release_reason reason =
    if text_eq reason fill_active_page then ok reason else err validation

-- `!credential.profileId || credential.profileId === profileId`: an absent or empty profile is any.
abbrev pub profile_fits : Option Text → Text → Bool
profile_fits none profile_id = true
profile_fits (some own) profile_id = is_empty own || text_eq own profile_id

unfoldable pub matches_bridge_context : Credential → Text → Text → Bool
matches_bridge_context c origin profile_id =
    text_eq c.website_origin origin && profile_fits c.profile_id profile_id

abbrev check_profile : Option Text → Result BridgeError (Unit {0})
check_profile none = ok tt
check_profile (some own) = if is_empty own then ok tt else validate_profile_id own >>= λ _. ok tt

-- The URL parser of the platform.
module _ (new_url : Text → Option Url) where
  unfoldable pub normalize_http_origin : Text → Result BridgeError Text
  normalize_http_origin origin = elim (new_url origin) [
    | none ↦ err validation
    | some url ↦ if is_http url.protocol then ok url.origin else err validation
  ]

  -- The types of the fields are those of the record; the source tests them again at run time.
  pub assert_unlocked_credential : Credential → Result BridgeError (Unit {0})
  assert_unlocked_credential c = do
    _ ← validate_credential_id c.id
    _ ← normalize_http_origin c.website_origin
    check_profile c.profile_id
    if length (trim c.label) == 0 || length c.password == 0 then err validation else ok tt

  unfoldable pub normalize_unlocked_credential : Credential → Result BridgeError Credential
  unfolding assert_unlocked_credential
  normalize_unlocked_credential c = do
    assert_unlocked_credential c
    origin ← normalize_http_origin c.website_origin
    ok (record c { website_origin = origin })

  -- `credentials.map(normalizeUnlockedCredential)`, which throws at the first bad one.
  unfoldable pub normalize_all : List Credential → Result BridgeError (List Credential)
  normalize_all [] = ok []
  normalize_all (c ∷ cs) = do
    c' ← normalize_unlocked_credential c
    cs' ← normalize_all cs
    ok (c' ∷ cs')
