-- ===== src/Bridge/History.antt =====
-- The bridge over any sequence of calls: what it holds, and what it has written down.
use unuvault.Prelude.{
  ℕ, ◌+◌, ◌≤◌, ◌≢◌, ◌≡◌, refl, List, [], ◌∷◌, Result, ok, err, arith, All, Text, length,
  length-append, inl, inr, ◌⊎◌,
}
use unuvault.Bridge.{Credential, MetadataRequest, Released, ReleaseRequest, BridgeError}
use unuvault.Bridge.Store.{empty}
use unuvault.Bridge.Service
use unuvault.Bridge.Validation.{OriginsParse, IsNormal, normalize_all_idem}
use unuvault.Bridge.Release.{release_secret-IsReleased, release_secret-IsRefused}
use unuvault.Bridge.Sessions.{publish_lem, publish_refused}
use unuvault.Bridge.Configured.{
  Process, Platform, configured, publish_unlocked_credential_session,
  clear_unlocked_credential_session, find_credential_metadata, release_secret,
}

-- One call of the service, with its arguments.
pub data Call : Type 0 where
  finds : MetadataRequest → Call
  releases : ReleaseRequest → Call
  publishes : Text → List Credential → Call
  clears : Text → Call

-- A call and the readings of the clock while it is served.
pub record Served : Type 0 where
  pub now : ℕ
  pub iso_now : Text
  pub call : Call

module _ (platform : Platform) where
  serve : ℕ → Text → Call → Process → Process
  serve now iso (finds q) p = (find_credential_metadata platform now iso q p).1
  serve now iso (releases r) p = (release_secret platform now iso r p).1
  serve now iso (publishes token cs) p =
      (publish_unlocked_credential_session platform now iso token cs p).1
  serve now iso (clears token) p = (clear_unlocked_credential_session platform now iso token p).1

  unfoldable pub run : List Served → Process → Process
  unfolding serve
  run [] p = p
  run (c ∷ cs) p = run cs (serve c.now c.iso_now c.call p)

abbrev pub start : Process
start = record { store = empty; audit = [] }

-- Reading the store empties it once it has expired, and otherwise leaves it alone.
abbrev Reads : ℕ → Process → Process → Type 0
Reads now p p' =
    (p'.store ≡ p.store)
    ⊎ ((p.store.expires_at ≤ now) × (p'.store ≡ record p.store { credentials = [] }))

module _ (platform : Platform) (now : ℕ) (iso : Text) (p : Process) where
  finds-Reads : (q : MetadataRequest) → Reads now p (serve platform now iso (finds q) p)
  unfolding serve Service.find_credential_metadata configured
  finds-Reads q = ground arith

  releases-Reads : (r : ReleaseRequest) → Reads now p (serve platform now iso (releases r) p)
  unfolding serve Service.release_secret configured
  releases-Reads r = ground arith

  clears-store :
      (token : Text)
      → (serve platform now iso (clears token) p ≡ p)
        ⊎ ((serve platform now iso (clears token) p).store ≡ empty)
  unfolding serve Service.clear_unlocked_credential_session configured
  clears-store token = ground arith

  publishes-store :
      (token : Text) (cs : List Credential)
      → OriginsParse platform.new_url
      → (serve platform now iso (publishes token cs) p ≡ p)
        ⊎ All
            (IsNormal platform.new_url)
            (serve platform now iso (publishes token cs) p).store.credentials
  unfolding serve
  publishes-store token cs law =
      go (publish_unlocked_credential_session platform now iso token cs p) refl
    where
      go :
          (out : Result BridgeError ℕ × Process)
          → publish_unlocked_credential_session platform now iso token cs p ≡ out
          → (out.1 ≡ p) ⊎ All (IsNormal platform.new_url) out.1.store.credentials
      go (ok n, p') e =
          let (_, ds, _, _, normal, _, after) =
            publish_lem platform now iso token cs p p' n law e in
          rw after (inr (normalize_all_idem platform.new_url law cs ds normal).0)
      go (err x, p') e = inl (publish_refused platform now iso token cs p p' x law e)

module _ (platform : Platform) where
  serve-IsNormal :
      (now : ℕ) (iso : Text) (c : Call) (p : Process)
      → OriginsParse platform.new_url
      → All (IsNormal platform.new_url) p.store.credentials
      → All (IsNormal platform.new_url) (serve platform now iso c p).store.credentials
  serve-IsNormal now iso (finds q) p law h = ground (arith, finds-Reads platform now iso p q)
  serve-IsNormal now iso (releases r) p law h = ground (arith, releases-Reads platform now iso p r)
  serve-IsNormal now iso (publishes token cs) p law h =
      ground (arith, publishes-store platform now iso p token cs law)
  serve-IsNormal now iso (clears token) p law h =
      ground (arith, clears-store platform now iso p token)

  run-IsNormal_from :
      (cs : List Served) (p : Process)
      → OriginsParse platform.new_url
      → All (IsNormal platform.new_url) p.store.credentials
      → All (IsNormal platform.new_url) (run platform cs p).store.credentials
  unfolding run
  run-IsNormal_from [] p law h = h
  run-IsNormal_from (c ∷ cs) p law h =
      run-IsNormal_from cs _ law (serve-IsNormal c.now c.iso_now c.call p law h)

  -- Whatever is called, in whatever order, each credential in the store is a normalised one: it
  -- passes every check of `normalizeUnlockedCredential`, which leaves it as it is.
  pub run-IsNormal :
      (cs : List Served)
      → OriginsParse platform.new_url
      → All (IsNormal platform.new_url) (run platform cs start).store.credentials
  run-IsNormal cs law = run-IsNormal_from cs start law tt

  abbrev pub IsNoPublication : Served → Type 0
  IsNoPublication c = (token : Text) (cs : List Credential) → c.call ≢ publishes token cs

  serve-expires-le :
      (now : ℕ) (iso : Text) (c : Call) (p : Process)
      → ((token : Text) (cs : List Credential) → c ≢ publishes token cs)
      → (serve platform now iso c p).store.expires_at ≤ p.store.expires_at
  serve-expires-le now iso (finds q) p h = ground (arith, finds-Reads platform now iso p q)
  serve-expires-le now iso (releases r) p h = ground (arith, releases-Reads platform now iso p r)
  serve-expires-le now iso (publishes token cs) p h = absurd (h token cs refl)
  serve-expires-le now iso (clears token) p h =
      ground (arith, clears-store platform now iso p token)

  run-expires-le :
      (cs : List Served) (p : Process)
      → All IsNoPublication cs
      → (run platform cs p).store.expires_at ≤ p.store.expires_at
  unfolding run
  run-expires-le [] p h = omega arith
  run-expires-le (c ∷ cs) p (here, later) = omega (
    arith,
    serve-expires-le c.now c.iso_now c.call p here,
    run-expires-le cs (serve platform c.now c.iso_now c.call p) later,
  )

  -- Only a publication prolongs a session: once it has expired, no request gets a secret out of the
  -- bridge, whatever else is called in between.
  pub release_after_expiry :
      (cs : List Served) (p : Process) (now : ℕ) (iso : Text) (r : ReleaseRequest)
      → All IsNoPublication cs
      → p.store.expires_at ≤ now
      → (e : BridgeError) × ((release_secret platform now iso r (run platform cs p)).0 ≡ err e)
  release_after_expiry cs p now iso r h over =
      go (release_secret platform now iso r (run platform cs p)) refl
    where
      go :
          (out : Result BridgeError Released × Process)
          → release_secret platform now iso r (run platform cs p) ≡ out
          → (e : BridgeError) × (out.0 ≡ err e)
      go (ok secret, p') e =
          let i = release_secret-IsReleased platform now iso r (run platform cs p) p' secret e in
          absurd (omega (arith, i.live, run-expires-le cs p h))
      go (err x, p') e = (x, refl)

-- How many of the calls were releases that gave out a secret.
abbrev one_if_ok : {A : Type 0} → Result BridgeError A → ℕ
one_if_ok (ok a) = 1
one_if_ok (err e) = 0

abbrev secret_given : Platform → Served → Process → ℕ
secret_given platform c p = elim c.call [
  | releases r ↦ one_if_ok (release_secret platform c.now c.iso_now r p).0
  | _ ↦ 0
]

unfoldable pub secrets_given : Platform → List Served → Process → ℕ
unfolding run
secrets_given platform [] p = 0
secrets_given platform (c ∷ cs) p =
    secret_given platform c p + secrets_given platform cs (serve platform c.now c.iso_now c.call p)

serve-audit :
    (platform : Platform) (now : ℕ) (iso : Text) (c : Call) (p : Process)
    → length (serve platform now iso c p).audit
      ≡ length p.audit + secret_given platform (record { now = now; iso_now = iso; call = c }) p
unfolding serve
serve-audit platform now iso (finds q) p =
    unfold Service.find_credential_metadata configured in ground arith
serve-audit platform now iso (releases r) p = go (release_secret platform now iso r p) refl
  where
    go :
        (out : Result BridgeError Released × Process)
        → release_secret platform now iso r p ≡ out
        → length out.1.audit ≡ length p.audit + one_if_ok out.0
    go (ok secret, p') e =
        let i = release_secret-IsReleased platform now iso r p p' secret e in
        rw i.recorded (length-append p.audit _)
    go (err x, p') e = elim (release_secret-IsRefused platform now iso r p p' x e) [
      | inl (_, kept) ↦ rw kept (omega arith)
      | inr (same, _, _) ↦ rw same (omega arith)
    ]
serve-audit platform now iso (publishes token cs) p =
    unfold Service.publish_unlocked_credential_session configured in ground arith
serve-audit platform now iso (clears token) p =
    unfold Service.clear_unlocked_credential_session configured in ground arith

-- The audit trail has exactly one line for each secret that was ever given out.
pub length-audit-run :
    (platform : Platform) (cs : List Served) (p : Process)
    → length (run platform cs p).audit ≡ length p.audit + secrets_given platform cs p
unfolding run secrets_given
length-audit-run platform [] p = omega arith
length-audit-run platform (c ∷ cs) p = omega (
  arith,
  serve-audit platform c.now c.iso_now c.call p,
  length-audit-run platform cs (serve platform c.now c.iso_now c.call p),
)
