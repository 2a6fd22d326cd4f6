-- ===== src/DevSecrets/Invariants.antt =====
-- What holds of the session store after any sequence of calls.
use unuvault.Prelude.{
  true, map_get-AllValues, map_set-AllValues, map_delete-AllValues, AllValues, ok,
  map_keep-AllValues, ℕ, ◌+◌, ◌≡◌, inl, inr, some, List, [], ◌∷◌, All, Text, map_get, map_set,
  map_delete, HasDistinctKeys, map_set-HasDistinctKeys, map_delete-HasDistinctKeys,
  map_keep-HasDistinctKeys, Option-cases,
}
use unuvault.DevSecrets.{
  none, is_supported_dev_secret_record_target, no_sessions, Target, Grant, Sessions, Options,
  Reading, exchange_handoff, create_handoff, purge_expired_records, is_live,
}
use unuvault.DevSecrets.Service.{Backend, Dependencies}
use unuvault.DevSecrets.History.{Served, creates, run, run_keeps}

-- Both tables are maps.
abbrev pub AreMaps : Sessions → Type 0
AreMaps s = HasDistinctKeys s.handoffs × HasDistinctKeys s.cli_sessions

pub purge-AreMaps : (now : ℕ) (s : Sessions) → AreMaps s → AreMaps (purge_expired_records now s)
unfolding purge_expired_records
purge-AreMaps now s (h, c) = (
  map_keep-HasDistinctKeys (is_live now) s.handoffs h,
  map_keep-HasDistinctKeys (is_live now) s.cli_sessions c,
)

pub create-AreMaps :
    (o : Options) (r : Reading) (owner : Text) (t : Target) (s : Sessions)
    → AreMaps s
    → AreMaps (create_handoff o r owner t s)
unfolding create_handoff
create-AreMaps o r owner t s h =
    let (a, b) = purge-AreMaps r.purged_at s h in (map_set-HasDistinctKeys _ _ _ a, b)

-- An exchange purges, and may then move one grant over.
pub exchange_cases {ℓ} :
    (P : Sessions → Type ℓ) (o : Options) (r : Reading) (code : Text) (s : Sessions)
    → (map_get code (purge_expired_records r.purged_at s).handoffs ≡ none
        → P (purge_expired_records r.purged_at s))
    → ((g : Grant)
        → map_get code (purge_expired_records r.purged_at s).handoffs ≡ some g
        → P (record {
          handoffs = map_delete code (purge_expired_records r.purged_at s).handoffs;
          cli_sessions =
              map_set r.code
                (record g { expires_at = r.stamped_at + o.cli_session_ttl_ms })
                (purge_expired_records r.purged_at s).cli_sessions;
        }))
    → P (exchange_handoff o r code s).1
unfolding exchange_handoff
exchange_cases P o r code s none_found found =
    elim (Option-cases (map_get code (purge_expired_records r.purged_at s).handoffs)) [
      | inl n ↦ rw (n, exchange_handoff) (none_found n)
      | inr (g, e) ↦ rw (e, exchange_handoff) (found g e)
    ]

pub exchange-AreMaps :
    (o : Options) (r : Reading) (code : Text) (s : Sessions)
    → AreMaps s
    → AreMaps (exchange_handoff o r code s).1
exchange-AreMaps o r code s h =
    let kept = purge-AreMaps r.purged_at s h in
    exchange_cases AreMaps o r code s (λ _. kept)
      (λ g e. (map_delete-HasDistinctKeys code _ kept.0, map_set-HasDistinctKeys r.code _ _ kept.1))

module _ {Rows : Type 0} (deps : Dependencies Rows) (options : Options) where
  pub run-AreMaps :
      (cs : List Served) (b : Backend Rows)
      → AreMaps b.sessions
      → AreMaps (run deps options cs b).sessions
  run-AreMaps cs b h =
      run_keeps deps options AreMaps (λ _ _ _. Unit {0}) purge-AreMaps
        (λ now token target owner s _ _ _. create-AreMaps options now owner target s)
        (λ now code s. exchange-AreMaps options now code s) cs b (trivially cs) h
    where
      trivially :
          (cs : List Served)
          → All
              (λ c. (token : Text) (target : Target) → c.call ≡ creates token target → Unit {0})
              cs
      trivially [] = tt
      trivially (c ∷ cs) = ((λ _ _ _. tt), trivially cs)

  -- A grant goes back to a request for its target by a browser whose token is that of its owner.
  abbrev pub IsRequested : (Text → Target → Type 0) → Grant → Type 0
  IsRequested Asked g =
      (token : Text) × Asked token g.target
      × (deps.get_browser_account_id token ≡ ok (some g.owner_account_id))
      × (is_supported_dev_secret_record_target g.target ≡ true)

  abbrev pub AreRequested : (Text → Target → Type 0) → Sessions → Type 0
  AreRequested Asked s =
      AllValues (IsRequested Asked) s.handoffs × AllValues (IsRequested Asked) s.cli_sessions

  module _ (Asked : Text → Target → Type 0) where
    purge-AreRequested :
        (now : ℕ) (s : Sessions)
        → AreRequested Asked s
        → AreRequested Asked (purge_expired_records now s)
    unfolding purge_expired_records
    purge-AreRequested now s (h, c) = (
      map_keep-AllValues (IsRequested Asked) (is_live now) s.handoffs h,
      map_keep-AllValues (IsRequested Asked) (is_live now) s.cli_sessions c,
    )

    create-AreRequested :
        (r : Reading) (token : Text) (t : Target) (owner : Text) (s : Sessions)
        → Asked token t
        → deps.get_browser_account_id token ≡ ok (some owner)
        → is_supported_dev_secret_record_target t ≡ true
        → AreRequested Asked s
        → AreRequested Asked (create_handoff options r owner t s)
    unfolding create_handoff
    create-AreRequested r token t owner s asked known supported h =
        let (a, b) = purge-AreRequested r.purged_at s h in
        (map_set-AllValues (IsRequested Asked) r.code _ _ (token, asked, known, supported) a, b)

    exchange-AreRequested :
        (r : Reading) (code : Text) (s : Sessions)
        → AreRequested Asked s
        → AreRequested Asked (exchange_handoff options r code s).1
    exchange-AreRequested r code s h =
        let kept = purge-AreRequested r.purged_at s h in
        exchange_cases (AreRequested Asked) options r code s (λ _. kept)
          (λ g e. (
            map_delete-AllValues (IsRequested Asked) code _ kept.0,
            map_set-AllValues (IsRequested Asked) r.code _ _
                (map_get-AllValues (IsRequested Asked) code g _ e kept.0) kept.1,
          ))

    -- From empty stores, after any sequence of calls, every handoff and every session goes back to a
    -- request: if `Asked` holds of the token and the target of each call that creates a handoff, then
    -- for each grant it holds of the grant's target, which is supported, and of some token that
    -- resolves to the account that owns the grant.
    pub run-AreRequested :
        (cs : List Served) (rows : Rows)
        → All
            (λ c.
              (token : Text) (target : Target) → c.call ≡ creates token target → Asked token target)
            cs
        → AreRequested Asked
            (run deps options cs (record { sessions = no_sessions; rows = rows })).sessions
    run-AreRequested cs rows asked =
        run_keeps deps options (AreRequested Asked) (λ _. Asked) purge-AreRequested
          (λ now token target owner. create-AreRequested now token target owner)
          exchange-AreRequested cs _ asked (tt, tt)
