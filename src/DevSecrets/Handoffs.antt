-- ===== src/DevSecrets/Handoffs.antt =====
-- A handoff code works once, for a limited time, and leads to the record that it was made for.
use unuvault.Prelude.{
  map_get-map_keep-map_set, trim, text_eq_self, length, ℕ, ◌+◌, ◌<◌, true, false, ◌≡◌, ◌≢◌, refl,
  none, some, List, All, ok, err, Text, text_eq_iff, map_get, map_set, map_delete, map_get-map_keep,
  map_get-map_set, map_get-map_delete, arith, is_empty,
}
use unuvault.DevSecrets.{
  Target, Grant, Sessions, Options, Reading, same_target, is_supported_dev_secret_record_target,
  get_cli_session, exchange_handoff, create_handoff, purge_expired_records, is_live,
}
use unuvault.DevSecrets.Service.{
  Backend, Dependencies, create_browser_handoff, exchange_browser_handoff, get_private_record,
  invalid_handoff,
}
use unuvault.DevSecrets.History.{Served, creates, run, run_keeps}
use unuvault.DevSecrets.Invariants.{
  AreMaps, purge-AreMaps, create-AreMaps, exchange-AreMaps, exchange_cases,
}
use unuvault.DevSecrets.Records.{same_target_self}

-- No handoff has this code.
abbrev IsSpent : Text → Sessions → Type 0
IsSpent code s = AreMaps s × (map_get code s.handoffs ≡ none)

purge-IsSpent :
    (code : Text) (now : ℕ) (s : Sessions)
    → IsSpent code s
    → IsSpent code (purge_expired_records now s)
unfolding purge_expired_records
purge-IsSpent code now s (m, e) = (
  unfold purge_expired_records in purge-AreMaps now s m,
  ground (arith, map_get-map_keep code (is_live now) s.handoffs m.0),
)

create-IsSpent :
    (o : Options) (code : Text) (r : Reading) (owner : Text) (t : Target) (s : Sessions)
    → r.code ≢ code
    → IsSpent code s
    → IsSpent code (create_handoff o r owner t s)
unfolding create_handoff
create-IsSpent o code r owner t s ne i =
    let (_, e) = purge-IsSpent code r.purged_at s i in
    (
      unfold create_handoff in create-AreMaps o r owner t s i.0,
      ground (
        arith,
        text_eq_iff r.code code,
        map_get-map_set r.code code
            (record {
              owner_account_id = owner;
              target = t;
              expires_at = r.stamped_at + o.handoff_ttl_ms;
            })
            (purge_expired_records r.purged_at s).handoffs,
      ),
    )

exchange-IsSpent :
    (o : Options) (code : Text) (r : Reading) (other : Text) (s : Sessions)
    → IsSpent code s
    → IsSpent code (exchange_handoff o r other s).1
exchange-IsSpent o code r other s i = (
  exchange-AreMaps o r other s i.0,
  exchange_cases (λ s'. map_get code s'.handoffs ≡ none) o r other s (λ _. kept.1)
      (λ g e. ground (
        arith,
        kept.1,
        map_get-map_delete other code (purge_expired_records r.purged_at s).handoffs,
      )),
)
  where
    kept : IsSpent code (purge_expired_records r.purged_at s)
    kept = purge-IsSpent code r.purged_at s i

-- After a successful exchange the code is spent.
exchange_spends :
    (o : Options) (code : Text) (r : Reading) (s : Sessions)
    → AreMaps s
    → IsSpent code (exchange_handoff o r code s).1
exchange_spends o code r s m = (
  exchange-AreMaps o r code s m,
  exchange_cases (λ s'. map_get code s'.handoffs ≡ none) o r code s (λ e. e)
      (λ g e. ground (
        arith,
        text_eq_self code,
        map_get-map_delete code code (purge_expired_records r.purged_at s).handoffs,
      )),
)

module _ {Rows : Type 0} (deps : Dependencies Rows) (options : Options) where
  exchange-sessions :
      (now : Reading) (code token : Text) (b b' : Backend Rows)
      → exchange_browser_handoff deps options now code b ≡ (ok token, b')
      → b'.sessions ≡ (exchange_handoff options now code b.sessions).1
  unfolding exchange_browser_handoff
  exchange-sessions now code token b b' h = ground arith

  spent_code_refused :
      (now : Reading) (code : Text) (b : Backend Rows)
      → IsSpent code b.sessions
      → (exchange_browser_handoff deps options now code b).0 ≡ err invalid_handoff
  unfolding exchange_browser_handoff exchange_handoff
  spent_code_refused now code b i =
      let (_, e) = purge-IsSpent code now.purged_at b.sessions i in ground arith

  -- A handoff code is good for one exchange: where no key stands twice in the session store and the
  -- exchange succeeds, whatever is called afterwards, as long as no call that creates a handoff draws
  -- the same code, a second exchange of it is refused as invalid.
  pub exchange_once :
      (now later : Reading) (code token : Text) (cs : List Served) (b b' : Backend Rows)
      → AreMaps b.sessions
      → exchange_browser_handoff deps options now code b ≡ (ok token, b')
      → All
          (λ c. (t : Text) (target : Target) → c.call ≡ creates t target → c.reading.code ≢ code)
          cs
      → (exchange_browser_handoff deps options later code (run deps options cs b')).0
        ≡ err invalid_handoff
  exchange_once now later code token cs b b' m h fresh =
      spent_code_refused later code (run deps options cs b') (
        run_keeps deps options (IsSpent code) (λ r _ _. r.code ≢ code) (purge-IsSpent code)
          (λ r _ target owner s ne _ _ i. create-IsSpent options code r owner target s ne i)
          (λ r other s i. exchange-IsSpent options code r other s i) cs b' fresh spent)
    where
      spent : IsSpent code b'.sessions
      spent =
          rw (exchange-sessions now code token b b' h)
            (exchange_spends options code now b.sessions m)

  create_succeeds :
      (now : Reading) (token owner : Text) (target : Target) (b : Backend Rows)
      → deps.get_browser_account_id token ≡ ok (some owner)
      → is_empty owner ≡ false
      → is_supported_dev_secret_record_target target ≡ true
      → create_browser_handoff deps options now token target b
        ≡ (ok now.code, record b { sessions = create_handoff options now owner target b.sessions })
  unfolding create_browser_handoff
  create_succeeds now token owner target b known some_owner supported = ground arith

  exchange_succeeds :
      (now : Reading) (code : Text) (g : Grant) (b : Backend Rows)
      → map_get code (purge_expired_records now.purged_at b.sessions).handoffs ≡ some g
      → length (trim code) ≢ 0
      → exchange_browser_handoff deps options now code b ≡ (
        ok now.code,
        record b {
          sessions = record {
            handoffs = map_delete code (purge_expired_records now.purged_at b.sessions).handoffs;
            cli_sessions =
                map_set now.code
                  (record g { expires_at = now.stamped_at + options.cli_session_ttl_ms })
                  (purge_expired_records now.purged_at b.sessions).cli_sessions;
          };
        },
      )
  unfolding exchange_browser_handoff exchange_handoff
  exchange_succeeds now code g b found named = ground arith

  get_succeeds :
      (now : ℕ) (token ciphertext : Text) (target : Target) (g : Grant) (b : Backend Rows)
      → map_get token (purge_expired_records now b.sessions).cli_sessions ≡ some g
      → same_target g.target target ≡ true
      → is_supported_dev_secret_record_target target ≡ true
      → deps.get_stored_record g.owner_account_id target b.rows ≡ ok (some ciphertext)
      → (get_private_record deps options now token target b).0 ≡ ok ciphertext
  unfolding get_private_record get_cli_session
  get_succeeds now token ciphertext target g b found fits supported stored = ground arith

  -- From browser to command line, with nothing called in between and no key twice in the session
  -- store: a token of a non-empty account gets a handoff code for a supported target; unless the
  -- drawn code is blank, its exchange before it expires gives a session; and that session, while it
  -- lasts, reads the record that the table has for the account and the target.
  pub handoff_reaches_record :
      (made swapped : Reading) (now : ℕ) (token owner ciphertext : Text) (target : Target)
      (b : Backend Rows)
      → AreMaps b.sessions
      → deps.get_browser_account_id token ≡ ok (some owner)
      → is_empty owner ≡ false
      → is_supported_dev_secret_record_target target ≡ true
      → length (trim made.code) ≢ 0
      → swapped.purged_at < made.stamped_at + options.handoff_ttl_ms
      → now < swapped.stamped_at + options.cli_session_ttl_ms
      → deps.get_stored_record owner target b.rows ≡ ok (some ciphertext)
      → let (code, b1) = create_browser_handoff deps options made token target b in
        let (session, b2) = exchange_browser_handoff deps options swapped made.code b1 in
        let (answer, b3) = get_private_record deps options now swapped.code target b2 in
        (code ≡ ok made.code) × (session ≡ ok swapped.code) × (answer ≡ ok ciphertext)
  handoff_reaches_record made swapped now token owner ciphertext target b m known some_owner
        supported named in_time lasting stored =
      rw (create_succeeds made token owner target b known some_owner supported) (
        rw (exchange_succeeds swapped made.code handoff b1 found named) (
          refl,
          refl,
          get_succeeds now swapped.code ciphertext target session b2 held (same_target_self target)
              supported stored,
        ))
    where
      handoff : Grant
      handoff = record {
        owner_account_id = owner;
        target = target;
        expires_at = made.stamped_at + options.handoff_ttl_ms;
      }

      session : Grant
      session = record handoff { expires_at = swapped.stamped_at + options.cli_session_ttl_ms }

      b1 : Backend Rows
      b1 = record b { sessions = create_handoff options made owner target b.sessions }

      purged : Sessions
      purged = purge_expired_records swapped.purged_at b1.sessions

      found : map_get made.code purged.handoffs ≡ some handoff
      found =
          unfold create_handoff purge_expired_records in
          map_get-map_keep-map_set made.code handoff (is_live swapped.purged_at) _
            (purge-AreMaps made.purged_at b.sessions m).0 (ground arith)

      b2 : Backend Rows
      b2 = record b {
        sessions = record {
          handoffs = map_delete made.code purged.handoffs;
          cli_sessions = map_set swapped.code session purged.cli_sessions;
        };
      }

      held :
          map_get swapped.code (purge_expired_records now b2.sessions).cli_sessions ≡ some session
      held =
          unfold purge_expired_records in
          map_get-map_keep-map_set swapped.code session (is_live now) _
            (purge-AreMaps swapped.purged_at b1.sessions
              (create-AreMaps options made owner target b.sessions m)).1
            (ground arith)
