-- ===== src/Bridge/Release.antt =====
-- What `releaseSecret` gives out, and what it leaves behind on every branch.
use unuvault.Prelude.{
  false, ℕ, ◌<◌, ◌≡◌, List, [], ◌∷◌, ◌++◌, find, inl, inr, ◌&&◌, text_eq_iff, Option-cases, some,
  Bool, true, ok, err, Text, text_eq, Elem, find_sound, Elem-map, Elem-select, find_complete,
  Elem-map_of_Elem, Bool-cases, Result-cases, leb, select, map, if◌then◌else◌, arith, ◌↔◌, ◌⊎◌, ◌≤◌,
}
use unuvault.Bridge.{
  Credential, Released, ReleaseRequest, BridgeError, matches_bridge_context, validate_credential_id,
  Metadata, MetadataRequest, validation, credential_not_found, validate_profile_id,
  validate_release_reason, normalize_http_origin,
}
use unuvault.Bridge.Clients.{ensure_clients}
use unuvault.Bridge.Service
use unuvault.Bridge.Service.{metadata_of}
use unuvault.Bridge.Configured.{
  Process, Platform, configured, find_credential_metadata, release_secret,
}

-- How a released credential was chosen, and what the release wrote.
pub record IsReleased (platform : Platform) (now : ℕ) (iso_now : Text) (r : ReleaseRequest)
    (p p' : Process) (out : Released) : Type 0 where
  pub credential : Credential
  pub origin : Text
  pub held : Elem credential p.store.credentials
  pub live : now < p.store.expires_at
  pub wanted : credential.id ≡ r.id
  pub here : normalize_http_origin platform.new_url r.origin ≡ ok origin
  pub context : matches_bridge_context credential origin r.profile_id ≡ true
  pub given : out ≡ record { password = credential.password; username = credential.username }
  pub kept : p'.store ≡ p.store
  pub recorded :
      p'.audit
      ≡ p.audit
        ++ record {
          id = r.id;
          origin = origin;
          profile_id = r.profile_id;
          reason = r.reason;
          released_at = iso_now;
        }
          ∷ []

abbrev pub IsRefused : ℕ → Process → Process → BridgeError → Type 0
IsRefused now p p' e =
    (p'.audit ≡ p.audit)
    × ((p'.store ≡ p.store)
        ⊎ ((p.store.expires_at ≤ now) × (p'.store ≡ record p.store { credentials = [] })))
    × ((e ≡ validation) ⊎ (e ≡ credential_not_found))

-- The service could not be made: nothing is read or written.
abbrev pub IsUnconfigured : Platform → Process → Process → BridgeError → Type 0
IsUnconfigured platform p p' e = (ensure_clients platform.environment ≡ err e) × (p' ≡ p)

abbrev is_wanted : ReleaseRequest → Text → Credential → Bool
is_wanted r origin c = text_eq c.id r.id && matches_bridge_context c origin r.profile_id

module _ (platform : Platform) (now : ℕ) (iso_now : Text) where
  -- A secret is given out only for a credential that the live store holds, under the requested id,
  -- for the requested origin and profile, and the release is in the audit trail when it returns.
  pub release_secret-IsReleased :
      (r : ReleaseRequest) (p p' : Process) (out : Released)
      → release_secret platform now iso_now r p ≡ (ok out, p')
      → IsReleased platform now iso_now r p p' out
  unfolding Service.release_secret configured normalize_http_origin validate_credential_id
      validate_profile_id validate_release_reason
  release_secret-IsReleased r p p' out e = elim (Option-cases (platform.new_url r.origin)) [
    | inl n ↦ absurd (ground arith)
    | inr (url, here) ↦ elim (Option-cases (find (is_wanted r url.origin) p.store.credentials)) [
      | inl n ↦ absurd (ground arith)
      | inr (c, found) ↦
          let (held, t) = find_sound (is_wanted r url.origin) p.store.credentials c found in
          record {
            credential = c;
            origin = url.origin;
            held = held;
            live = ground arith;
            wanted = (text_eq_iff c.id r.id).0 (ground arith);
            here = ground arith;
            context = ground arith;
            given = ground arith;
            kept = ground arith;
            recorded = ground arith;
          }
    ]
  ]

  pub release_secret-IsRefused :
      (r : ReleaseRequest) (p p' : Process) (e : BridgeError)
      → release_secret platform now iso_now r p ≡ (err e, p')
      → IsUnconfigured platform p p' e ⊎ IsRefused now p p' e
  unfolding Service.release_secret configured normalize_http_origin validate_credential_id
      validate_profile_id validate_release_reason
  release_secret-IsRefused r p p' e h = ground arith

  abbrev pub fits : Text → Text → Credential → Bool
  fits origin profile_id c = matches_bridge_context c origin profile_id

  -- What the metadata of a page lists: the held credentials that fit it, while the store is live.
  pub find_credential_metadata_lem :
      (q : MetadataRequest) (p p' : Process) (ms : List Metadata)
      → find_credential_metadata platform now iso_now q p ≡ (ok ms, p')
      → (origin : Text) × (normalize_http_origin platform.new_url q.origin ≡ ok origin)
        × (validate_profile_id q.profile_id ≡ ok q.profile_id)
        × (ms ≡ (
            if leb p.store.expires_at now
            then []
            else map metadata_of (select (fits origin q.profile_id) p.store.credentials)))
        × (p'.audit ≡ p.audit)
  unfolding Service.find_credential_metadata configured normalize_http_origin validate_profile_id
  find_credential_metadata_lem q p p' ms h = elim (Option-cases (platform.new_url q.origin)) [
    | inl n ↦ absurd (ground arith)
    | inr (url, here) ↦ (url.origin, ground arith, ground arith, ground arith, ground arith)
  ]

  -- Metadata is answered by a service that could be made.
  find-ensured :
      (q : MetadataRequest) (p p' : Process) (ms : List Metadata)
      → find_credential_metadata platform now iso_now q p ≡ (ok ms, p')
      → ensure_clients platform.environment ≡ ok tt
  find-ensured q p p' ms h = elim (Result-cases (ensure_clients platform.environment)) [
    | inl (done, e) ↦ e
    | inr (x, e) ↦ absurd (ground (arith, e, h))
  ]

  release_one :
      (r : ReleaseRequest) (p : Process) (origin : Text) (c : Credential)
      → ensure_clients platform.environment ≡ ok tt
      → validate_credential_id r.id ≡ ok r.id
      → validate_release_reason r.reason ≡ ok r.reason
      → normalize_http_origin platform.new_url r.origin ≡ ok origin
      → validate_profile_id r.profile_id ≡ ok r.profile_id
      → now < p.store.expires_at
      → find (is_wanted r origin) p.store.credentials ≡ some c
      → (out : Released) × (q : Process) × (release_secret platform now iso_now r p ≡ (ok out, q))
  unfolding Service.release_secret configured
  release_one r p origin c made hi hr ho hp live found = (
    record { password = c.password; username = c.username },
    record p {
      audit =
          p.audit
          ++ record {
            id = r.id;
            origin = origin;
            profile_id = r.profile_id;
            reason = r.reason;
            released_at = iso_now;
          }
            ∷ [];
    },
    ground arith,
  )

  release_listed :
      (r : ReleaseRequest) (p : Process) (origin : Text) (m : Metadata)
      → ensure_clients platform.environment ≡ ok tt
      → validate_credential_id r.id ≡ ok r.id
      → validate_release_reason r.reason ≡ ok r.reason
      → normalize_http_origin platform.new_url r.origin ≡ ok origin
      → validate_profile_id r.profile_id ≡ ok r.profile_id
      → now < p.store.expires_at
      → Elem m (map metadata_of (select (fits origin r.profile_id) p.store.credentials))
      → m.id ≡ r.id
      → (out : Released) × (q : Process) × (release_secret platform now iso_now r p ≡ (ok out, q))
  release_listed r p origin m made hi hr ho hp live listed same =
      let (c, chosen, e) = Elem-map metadata_of _ m listed in
      let (held, t) = (Elem-select (fits origin r.profile_id) p.store.credentials c).0 chosen in
      let (b, found) =
        find_complete (is_wanted r origin) p.store.credentials c held
          (ground (arith, text_eq_iff c.id r.id)) in
      release_one r p origin b made hi hr ho hp live found

  -- The ids that the metadata of a page lists are the ones that a release there succeeds for.
  pub release_secret-iff-listed :
      (r : ReleaseRequest) (p p' : Process) (ms : List Metadata)
      → validate_credential_id r.id ≡ ok r.id
      → validate_release_reason r.reason ≡ ok r.reason
      → find_credential_metadata platform now iso_now
          (record { origin = r.origin; profile_id = r.profile_id })
          p
        ≡ (ok ms, p')
      → ((m : Metadata) × Elem m ms × (m.id ≡ r.id)) ↔ (
          (out : Released) × (q : Process) × (release_secret platform now iso_now r p
            ≡ (ok out, q)))
  release_secret-iff-listed r p p' ms hi hr h =
      let (origin, ho, hp, e, _) = find_credential_metadata_lem _ p p' ms h in
      (forth origin ho hp e, back origin ho e)
    where
      listed : Text → List Metadata
      listed origin = map metadata_of (select (fits origin r.profile_id) p.store.credentials)

      forth :
          (origin : Text)
          → normalize_http_origin platform.new_url r.origin ≡ ok origin
          → validate_profile_id r.profile_id ≡ ok r.profile_id
          → ms ≡ (if leb p.store.expires_at now then [] else listed origin)
          → (m : Metadata) × Elem m ms × (m.id ≡ r.id)
          → (out : Released) × (q : Process) × (release_secret platform now iso_now r p
              ≡ (ok out, q))
      forth origin ho hp e (m, k, same) = elim (Bool-cases (leb p.store.expires_at now)) [
        | inl dead ↦ absurd (rw (e, dead) at k)
        | inr live ↦
            release_listed r p origin m (find-ensured _ p p' ms h) hi hr ho hp (ground arith)
              (rw (e, live) at k) same
      ]

      back :
          (origin : Text)
          → normalize_http_origin platform.new_url r.origin ≡ ok origin
          → ms ≡ (if leb p.store.expires_at now then [] else listed origin)
          → (out : Released) × (q : Process) × (release_secret platform now iso_now r p
              ≡ (ok out, q))
          → (m : Metadata) × Elem m ms × (m.id ≡ r.id)
      back origin ho e (out, q, done) =
          let i = release_secret-IsReleased r p q out done in
          let live : leb p.store.expires_at now ≡ false = ground (arith, i.live) in
          let same : i.origin ≡ origin = ground (arith, i.here) in
          (
            metadata_of i.credential,
            rw (e, live)
                (Elem-map_of_Elem metadata_of _ i.credential (
                  (Elem-select (fits origin r.profile_id) p.store.credentials i.credential).1
                    (i.held, rw same at i.context))),
            i.wanted,
          )
