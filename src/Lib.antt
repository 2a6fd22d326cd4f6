-- ===== src/Lib.antt =====
-- Verification of unuvault, a local-first password manager: the parts of its TypeScript code that
-- decide who gets a secret.
--
-- The program and its parts
-- * The local credential bridge (apps/api/src/services/local-credential-bridge-service.ts,
--   apps/api/src/routes/local-credential-bridge.ts, the wiring in apps/api/src/lib/supabase.ts) holds
--   the credentials of an unlocked vault for five minutes and gives them to clients on the same host.
--   Bridge has the data and the validation, Bridge.Store the in-memory store, Bridge.Service the four
--   operations over dependencies, Bridge.Clients the clients it needs, Bridge.Configured the
--   wiring, Bridge.Routes the handlers; Release, Sessions, History, Validation and Access prove.
-- * Developer secrets (apps/api/src/lib/dev-secret-session-store.ts,
--   apps/api/src/services/dev-secrets-service.ts, apps/api/src/routes/dev-secrets.ts,
--   packages/api-client/src/dev-secrets-targets.ts): a browser draws a one-time handoff code, a
--   command line exchanges it for a session and reads or writes one encrypted record. DevSecrets is
--   the store, DevSecrets.Service and DevSecrets.Routes are above it; Records, History, Handoffs,
--   Invariants and Access prove.
-- * The background worker of the browser extension (apps/browser-extension/src/background/runtime.ts,
--   unlock-session.ts, protocol.ts): it answers the messages of the popup and of content scripts.
--   Extension has the messages, Extension.Unlock the unlock session, Extension.Runtime the helpers of
--   the runtime, Extension.Handler the message handler; Claims, Companion, Filling and Unlock.Safety
--   prove.
-- * Vault synchronisation (apps/api/src/services/vault-service.ts, apps/api/src/routes/vault-sync.ts,
--   packages/api-client/src/login-payload.ts): Vault is the service, Vault.Payload the normalisation
--   of stored payloads, Vault.Routes the handler; Ids, Sync and Access prove.
-- * The import of a browser's password export (packages/domain/src/browser-import.ts): Import has the
--   limits and the report, Import.Csv the parser as a state machine that reads one character a turn,
--   Import.Analysis the checks of a row and the whole analysis; Rows, Order, Origin and Report prove what the
--   analysis gives, Quoting and Printing that an export can be read back.
-- * The report of an import (apps/api/src/services/import-service.ts, apps/api/src/routes/imports.ts,
--   apps/api/src/lib/bearer-token.ts, packages/api-client/src/imports.ts): Values has the JavaScript
--   values that the validation takes apart, Reports the validation, Reports.Service and
--   Reports.Recording the recording, Reports.Routes the handler, Reports.Wire the request of the
--   client and Reports.Client what it makes of the response; Consistency, Acceptance, Analyses,
--   Stored, Receipts and Replies prove.
-- * The security package (packages/security/src): Security has its limits and the libraries it calls,
--   Security.Policy what is supported, Security.Sealing the sealing with a password, Security.Streams
--   the legacy stream, Security.Envelope and Security.Developer the stored envelopes,
--   Security.Verifier the master-password verifiers; Roundtrip, Opening, Authentic, Pinned and
--   Faithful prove, Faithful that the package is what Extension.Unlock takes as a parameter.
-- * The content script of the extension (apps/browser-extension/src/content/autofill.ts): Content has
--   the fields of a page and the questions to the background worker, Content.Attempt the filling;
--   Content.Fields,
--   Content.Parts and Content.Filled prove.
-- * The unlocked items (apps/browser-extension/src/background/unlocked-vault.ts, vault-cache.ts and
--   src/popup/login-payload.ts): Extension.Reader opens the items of the cached vault, Extension.Cache
--   fills that cache and makes the popup's label of a password; Extension.Opened proves.
-- * Sign-in (background/auth.ts, auth-storage.ts): Extension.AuthStorage is the stored state,
--   Extension.Auth the sign-in over it, and Extension.SignedIn has the lemmas.
-- * The client of the companion on this Mac (background/mac-companion.ts): Extension.Client has the
--   requests and their replies, Extension.Replies says which calls may reject.
-- * The first call of a session (apps/api/src/services/auth-bootstrap-service.ts, routes/auth.ts):
--   Accounts has the service and the route, Accounts.Bootstrap says who gets a profile.
-- * Http has what the routes share; Prelude has lists, maps, texts, regular expressions, and results.
--
-- How code corresponds to definitions
-- * A definition has the name of the function it models, in snake case. An asynchronous function is
--   an Action: a state to a result and a state; what is written before an error stays written. A
--   dependency of a service is a field of a record, over any type of states.
-- * A string is its list of UTF-16 code units; a Map is a list of entries in insertion order; null
--   and undefined are none. A clock is an argument: each call is given the readings it makes, and so
--   are the codes that randomUUID draws. Times are natural numbers of milliseconds.
-- * A request is served whole before the next one. What others do while the extension pauses between
--   two claims is the step `waits` of its client.
-- * The loop of claims runs on the number of attempts that are left, 80 in the source; its theorem
--   holds for every number. The decimal text of a number n is made on n + 1 as fuel, which suffices
--   (Security.Streams). No other definition needs fuel.
--
-- What is assumed
-- * `new URL` is a parameter; theorems that depend on it say which law of WHATWG URL they use.
-- * The database, the identity service, the browser's storage, libsodium, Base64, UTF-8 and JSON are
--   parameters. The writes of the unlock session are taken to succeed. The environment of the
--   process stays as it is while the process runs.
--
-- What is not modelled: the user interfaces, the Swift applications, the database calls themselves,
-- logging, and the start of the server.
pub mod Prelude
pub mod Http
pub mod Bridge
pub mod DevSecrets
pub mod Extension
pub mod Vault
pub mod Import
pub mod Values
pub mod Reports
pub mod Security
pub mod Accounts
pub mod Content
