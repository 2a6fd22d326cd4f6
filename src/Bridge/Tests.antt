-- ===== src/Bridge/Tests.antt =====
-- The bridge on concrete inputs.
use unuvault.Prelude.{
  select, map, if◌then◌else◌, ◌+◌, Option-cases, is_empty, ◌↔◌, ℕ, ◌≡◌, refl, inl, inr, Option,
  none, some, List, [], ◌∷◌, Result, ok, err, Text, codes, strip_prefix, text_eq, trim, arith, All,
  Elem, length, true, false,
}
use unuvault.Prelude.Regexes.{matches}
use unuvault.Http.{success, read_bearer_token}
use unuvault.Bridge.{
  leb, unauthorized, Credential, Metadata, Released, ReleaseRequest, Url, BridgeError, validation,
  validate_profile_id, validate_credential_id, validate_release_reason, matches_bridge_context,
  normalize_http_origin, normalize_unlocked_credential, normalize_all,
}
use unuvault.Bridge.Service
use unuvault.Bridge.Service.{metadata_of}
use unuvault.Bridge.Clients.{Environment, ensure_clients}
use unuvault.Bridge.Configured
use unuvault.Bridge.Configured.{Process, Platform, configured}
use unuvault.Bridge.Validation.{OriginsParse, IsNormal}
use unuvault.Bridge.Release.{fits, IsReleased, release_secret-iff-listed}
use unuvault.Bridge.Sessions.{publish_lem, publish_refused, find-publish}
use unuvault.Bridge.History.{
  Served, releases, publishes, run, start, run-IsNormal, release_after_expiry, secrets_given,
  length-audit-run,
}
use unuvault.Bridge.Routes.{
  Origin, ReleaseBody, is_loopback_address, post_release, get_credentials, delete_unlocked_session,
  put_unlocked_session, configured_service,
}
use unuvault.Bridge.Access.{
  IsTurnedAway, credential_routes_stranger, session_routes_stranger, post_release-IsReleased,
}

profile_ids :
    (validate_profile_id (codes "work-2") ≡ ok (codes "work-2"))
    × (validate_profile_id (codes "work--2") ≡ err validation)
    × (validate_profile_id (codes "-work") ≡ err validation)
    × (validate_profile_id [] ≡ err validation)
unfolding validate_profile_id matches
profile_ids = (refl, refl, refl, refl)

credential_ids :
    (validate_credential_id (codes "cred:1.A-b_c") ≡ ok (codes "cred:1.A-b_c"))
    × (validate_credential_id (codes ":cred") ≡ err validation)
unfolding validate_credential_id matches
credential_ids = (refl, refl)

-- A platform whose URLs are the https origins, and where "tok" is a session of the account "acc".
abbrev https_only : Text → Option Url
https_only text = elim (strip_prefix (codes "https://") text) [
  | none ↦ none
  | some rest ↦ some (record { protocol = codes "https:"; origin = text })
]

abbrev accounts : Text → Result BridgeError (Option Text)
accounts token = elim (text_eq token (codes "tok")) [
  | true ↦ ok (some (codes "acc"))
  | false ↦ ok none
]

-- An environment that sets every variable.
abbrev environment : Environment
environment = record { variable = λ name. some name; accepts = λ url key. true }

abbrev platform : Platform
platform = record { new_url = https_only; account_of = accounts; environment = environment }

https_only-OriginsParse : OriginsParse https_only
https_only-OriginsParse text url e w = elim (Option-cases (strip_prefix (codes "https://") text)) [
  | inl n ↦ absurd (ground arith)
  | inr (rest, s) ↦ (url, ground arith, w, refl)
]

abbrev site : Text
site = codes "https://a.io"

abbrev card : Credential
card = record {
  id = codes "c1";
  label = codes "A";
  password = codes "pw";
  profile_id = none;
  username = codes "me";
  website_origin = site;
}

abbrev unlocked : Process
unlocked = record { store = record { credentials = card ∷ []; expires_at = 300010 }; audit = [] }

runs : Unit {0}
unfolding post_release read_bearer_token strip_prefix is_loopback_address configured ensure_clients
    Service.release_secret Service.find_credential_metadata
    Service.publish_unlocked_credential_session validate_credential_id validate_profile_id
    validate_release_reason normalize_all normalize_unlocked_credential normalize_http_origin
    matches_bridge_context matches text_eq trim run secrets_given
runs = tt

abbrev ask : ReleaseRequest
ask = record {
  id = codes "c1";
  origin = site;
  profile_id = codes "p";
  reason = codes "fill-active-page";
}

abbrev body : ReleaseBody
body = record {
  id = some (codes "c1");
  origin = some site;
  profile_id = some (codes "p");
  reason = some (codes "fill-active-page");
}

abbrev local : Origin
local = record { ip = some (codes "::1"); authorization = some (codes "Bearer key") }

abbrev later : Text
later = codes "t1"

post_release-IsReleased_example :
    IsReleased platform 20 later ask unlocked
      (post_release
        (some (codes "key"))
        (configured_service platform 20 later)
        local
        body
        unlocked).1
      (record { password = codes "pw"; username = codes "me" })
unfolding runs
post_release-IsReleased_example =
    (post_release-IsReleased platform 20 later (some (codes "key")) local body unlocked _ _ refl).2

post_release_runs :
    post_release (some (codes "key")) (configured_service platform 20 later) local body unlocked ≡ (
      success (record { password = codes "pw"; username = codes "me" }),
      record unlocked {
        audit =
            record {
              id = codes "c1";
              origin = site;
              profile_id = codes "p";
              reason = codes "fill-active-page";
              released_at = later;
            }
            ∷ [];
      },
    )
unfolding runs
post_release_runs = refl

abbrev expired : Process
expired = record { store = record { credentials = []; expires_at = 300010 }; audit = [] }

release_secret-iff-listed_example :
    ((m : Metadata) × Elem m
        (record { id = codes "c1"; label = codes "A"; username = codes "me" } ∷ [])
      × (m.id ≡ ask.id))
    ↔ ((out : Released) × (q : Process) × (Configured.release_secret platform 20 later ask unlocked
          ≡ (ok out, q)))
unfolding runs
release_secret-iff-listed_example =
    release_secret-iff-listed platform 20 later ask unlocked unlocked _ refl refl refl

publish_lem_example :
    (account : Text) × (ds : List Credential) × (accounts (codes "tok") ≡ ok (some account))
    × (is_empty account ≡ false)
    × (normalize_all https_only (card ∷ []) ≡ ok ds)
    × (◌≡◌ {A = ℕ} 1 1)
    × (unlocked ≡ record { store = record { credentials = ds; expires_at = 300010 }; audit = [] })
unfolding runs
publish_lem_example =
    publish_lem platform 10 later (codes "tok") (card ∷ []) start unlocked 1 https_only-OriginsParse
      refl

publish_refused_example : unlocked ≡ unlocked
unfolding runs
publish_refused_example =
    publish_refused platform 30 later (codes "bad") [] unlocked unlocked unauthorized
      https_only-OriginsParse refl

find-publish_example :
    (origin : Text) × (ds : List Credential) × (normalize_http_origin https_only site ≡ ok origin)
    × (normalize_all https_only (card ∷ []) ≡ ok ds)
    × ([] ≡ (
        if leb 300010 300010
        then []
        else map metadata_of (select (fits platform 300010 later origin (codes "p")) ds)))
unfolding runs
find-publish_example =
    find-publish platform 10 300010 later later (codes "tok") (card ∷ [])
      (record { origin = site; profile_id = codes "p" }) start unlocked _ 1 []
      https_only-OriginsParse refl refl

abbrev calls : List Served
calls =
    record { now = 10; iso_now = later; call = publishes (codes "tok") (card ∷ []) }
    ∷ record { now = 20; iso_now = later; call = releases ask }
    ∷ []

run-IsNormal_example : All (IsNormal https_only) (run platform calls start).store.credentials
run-IsNormal_example = run-IsNormal platform calls https_only-OriginsParse

release_after_expiry_example :
    (e : BridgeError) × ((Configured.release_secret platform 300010 later ask
        (run platform (record { now = 20; iso_now = later; call = releases ask } ∷ []) unlocked)).0
      ≡ err e)
release_after_expiry_example =
    release_after_expiry platform (record { now = 20; iso_now = later; call = releases ask } ∷ [])
      unlocked 300010 later ask ((λ token cs e. cc), tt) (omega arith)

length-audit-run_example :
    length (run platform calls start).audit ≡ 0 + secrets_given platform calls start
length-audit-run_example = length-audit-run platform calls start

secrets_given_runs : secrets_given platform calls start ≡ 1
unfolding runs
secrets_given_runs = refl

credential_routes_stranger_example :
    IsTurnedAway unlocked (
      get_credentials
        (some (codes "key"))
        (configured_service platform 20 later)
        (record local { ip = none })
        (some site)
        none
        unlocked)
    × IsTurnedAway unlocked (
        post_release
          (some (codes "key"))
          (configured_service platform 20 later)
          (record local { ip = none })
          body
          unlocked)
unfolding is_loopback_address
credential_routes_stranger_example =
    credential_routes_stranger (some (codes "key")) (configured_service platform 20 later)
      (record local { ip = none }) (some site) none body unlocked (inl refl)

session_routes_stranger_example :
    IsTurnedAway unlocked (
      put_unlocked_session
        (some (codes "key"))
        (configured_service platform 20 later)
        (record local { authorization = none })
        (some [])
        unlocked)
    × IsTurnedAway unlocked (
        delete_unlocked_session
          (some (codes "key"))
          (configured_service platform 20 later)
          (record local { authorization = none })
          unlocked)
unfolding read_bearer_token
session_routes_stranger_example =
    session_routes_stranger (some (codes "key")) (configured_service platform 20 later)
      (record local { authorization = none }) (some []) unlocked (inr (inl refl))
