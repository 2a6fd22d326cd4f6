-- ===== src/Bridge/Store.antt =====
-- `createInMemoryLocalCredentialBridgeCredentialStore`: the store that forgets after `ttlMs`.
use unuvault.Prelude.{ℕ, ◌+◌, Option, List, [], leb, if◌then◌else◌, ok, Text}
use unuvault.Prelude.Actions.{Action, ◌>>=◌, lift}
use unuvault.Bridge.{Credential, Url, BridgeError, normalize_all}

pub record Store : Type 0 where
  pub credentials : List Credential
  pub expires_at : ℕ

abbrev pub empty : Store
empty = record { credentials = []; expires_at = 0 }

-- `5 * 60 * 1000`, the lifetime when the options give none.
abbrev pub default_ttl_ms : ℕ
default_ttl_ms = 300000

-- `now` is the reading of the clock that the call makes.
unfoldable pub read_unlocked_credentials : ℕ → Action Store BridgeError (List Credential)
read_unlocked_credentials now s =
    if leb s.expires_at now then (ok [], record s { credentials = [] }) else (ok s.credentials, s)

unfoldable pub replace_unlocked_credentials :
    (Text → Option Url) → ℕ → ℕ → List Credential → Action Store BridgeError (Unit {0})
replace_unlocked_credentials new_url ttl_ms now next = do
  credentials ← lift (normalize_all new_url next)
  λ _. (ok tt, record { credentials = credentials; expires_at = now + ttl_ms })

unfoldable pub clear_unlocked_credentials : Action Store BridgeError (Unit {0})
clear_unlocked_credentials s = (ok tt, empty)
