-- ===== src/Extension.antt =====
-- apps/browser-extension/src/background: the messages of the background worker (protocol.ts,
-- mac-companion.ts, auth-storage.ts), shared by the modules below.
pub mod Unlock
pub mod Replies
pub mod Runtime
pub mod Handler
pub mod Claims
pub mod Companion
pub mod Filling
pub mod Auth
pub mod AuthStorage
pub mod Cache
pub mod Client
pub mod Reader
pub mod Opened
pub mod SignedIn
mod Tests
use unuvault.Prelude.{ℕ, Bool, Option, List, Text}

-- What a promise of a dependency rejects with.
pub data Rejection : Type 0 where
  rejected : Rejection

-- Where `new URL(text)` leads, in the part that the source reads here: its origin.
abbrev pub OriginParser : Type 0
OriginParser = Text → Option Text

pub record StoredAuthState : Type 0 where
  pub access_token : Text
  pub email : Text
  pub profile_id : Text
  pub signed_in_at : Text

pub data ExtensionAuthState : Type 0 where
  signed_out : ExtensionAuthState
  signed_in : StoredAuthState → ExtensionAuthState

pub data ExtensionUnlockMode : Type 0 where
  needs_setup locked unlocked : ExtensionUnlockMode

pub data AutofillStatus : Type 0 where
  signed_out locked empty ready : AutofillStatus

pub record AutofillCandidate : Type 0 where
  pub has_password : Bool
  pub id : Text
  pub title : Text
  pub username : Text
  pub website_origin : Text
  pub website_url : Text

pub data AutofillCandidates : Type 0 where
  signed_out locked no_page_url no_match : AutofillCandidates
  ready : List AutofillCandidate → AutofillCandidates

pub record FillData : Type 0 where
  pub username : Text
  pub password : Text

pub data AutofillFillData : Type 0 where
  signed_out locked no_page_url no_match no_password approval_required : AutofillFillData
  multiple_matches : ℕ → AutofillFillData
  ready : FillData → AutofillFillData

pub data BackgroundRequest : Type 0 where
  read_extension_auth_state : BackgroundRequest
  read_extension_unlock_state : BackgroundRequest
  sign_in_with_password : (email password : Text) → BackgroundRequest
  unlock_extension_vault : (passphrase : Text) → BackgroundRequest
  lock_extension_vault : BackgroundRequest
  read_autofill_status : BackgroundRequest
  read_autofill_candidates : BackgroundRequest
  read_autofill_fill_data : BackgroundRequest
  hydrate_popup_vault_cache : BackgroundRequest
  sign_out : BackgroundRequest

pub data BackgroundResponse : Type 0 where
  auth_state : ExtensionAuthState → BackgroundResponse
  unlock_state : ExtensionUnlockMode → BackgroundResponse
  autofill_status : AutofillStatus → BackgroundResponse
  autofill_candidates : AutofillCandidates → BackgroundResponse
  autofill_fill_data : AutofillFillData → BackgroundResponse
  hydration : Bool → BackgroundResponse
  done : BackgroundResponse
  failed : Text → BackgroundResponse

pub data CallerSource : Type 0 where
  content popup internal : CallerSource

pub record BackgroundCallerContext : Type 0 where
  pub source : CallerSource
  pub trusted_page_url : Option Text

pub record UnlockedVaultLoginItem : Type 0 where
  pub has_password : Bool
  pub id : Text
  pub password : Text
  pub title : Text
  pub username : Text
  pub website_hostname : Text
  pub website_origin : Text
  pub website_url : Text

pub record CompanionCredential : Type 0 where
  pub id : Text
  pub label : Text
  pub username : Text

pub data CompanionMetadata : Type 0 where
  ready : List CompanionCredential → CompanionMetadata
  locked unavailable : CompanionMetadata

pub data CompanionRelease : Type 0 where
  refused : (error : Text) → CompanionRelease
  granted : FillData → CompanionRelease

-- The options of a call of the companion: whose session, for which page and profile.
pub record CompanionPage : Type 0 where
  pub access_token : Text
  pub origin : Text
  pub profile_id : Text
