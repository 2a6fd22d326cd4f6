-- ===== src/DevSecrets/History.antt =====
-- The developer-secrets service over any sequence of calls.
use unuvault.Prelude.{
  refl, All, ◌||◌, true, ◌≡◌, ◌⊎◌, inl, inr, some, List, [], ◌∷◌, ok, Text, Option-cases,
  Result-cases, Bool-cases, arith, is_empty,
}
use unuvault.DevSecrets.{
  ℕ, Sessions, not, Target, Options, Reading, is_supported_dev_secret_record_target,
  get_cli_session, exchange_handoff, create_handoff, purge_expired_records,
}
use unuvault.DevSecrets.Service.{
  Backend, Dependencies, create_browser_handoff, exchange_browser_handoff, get_private_record,
  put_private_record,
}

pub data Call : Type 0 where
  creates : Text → Target → Call
  exchanges : Text → Call
  gets : Text → Target → Call
  puts : Text → Target → Text → Call

pub record Served : Type 0 where
  pub reading : Reading
  pub call : Call

module _ {Rows : Type 0} (deps : Dependencies Rows) (options : Options) where
  serve : Reading → Call → Backend Rows → Backend Rows
  serve now (creates token target) b = (create_browser_handoff deps options now token target b).1
  serve now (exchanges code) b = (exchange_browser_handoff deps options now code b).1
  serve now (gets token target) b = (get_private_record deps options now.purged_at token target b).1
  serve now (puts token target c) b =
      (put_private_record deps options now.purged_at token target c b).1

  unfoldable pub run : List Served → Backend Rows → Backend Rows
  unfolding serve
  run [] b = b
  run (c ∷ cs) b = run cs (serve c.reading c.call b)

-- What one call can do to the session store.
module _ {Rows : Type 0} (deps : Dependencies Rows) (options : Options) (now : Reading)
    (b : Backend Rows) where
  -- The token is that of `owner`, and the target is supported.
  abbrev pub GrantsTo : Text → Target → Text → Type 0
  GrantsTo token target owner =
      (deps.get_browser_account_id token ≡ ok (some owner))
      × (is_supported_dev_secret_record_target target ≡ true)

  serve-creates :
      (token : Text) (target : Target)
      → ((serve deps options now (creates token target) b).sessions ≡ b.sessions)
        ⊎ ((owner : Text) × GrantsTo token target owner
            × ((serve deps options now (creates token target) b).sessions
                ≡ create_handoff options now owner target b.sessions))
  unfolding serve create_browser_handoff
  serve-creates token target = elim (Result-cases (deps.get_browser_account_id token)) [
    | inr (e, n) ↦ inl (ground arith)
    | inl (answer, e) ↦ elim (Option-cases answer) [
      | inl n ↦ inl (ground arith)
      | inr (owner, same) ↦
          elim (Bool-cases (is_empty owner || not (is_supported_dev_secret_record_target target))) [
            | inl bad ↦ inl (ground arith)
            | inr good ↦ inr (owner, (rw same at e, ground arith), ground arith)
          ]
    ]
  ]

  serve-exchanges :
      (code : Text)
      → ((serve deps options now (exchanges code) b).sessions ≡ b.sessions)
        ⊎ ((serve deps options now (exchanges code) b).sessions
            ≡ (exchange_handoff options now code b.sessions).1)
  unfolding serve exchange_browser_handoff
  serve-exchanges code = ground arith

  serve-gets :
      (token : Text) (target : Target)
      → ((serve deps options now (gets token target) b).sessions ≡ b.sessions)
        ⊎ ((serve deps options now (gets token target) b).sessions
            ≡ purge_expired_records now.purged_at b.sessions)
  unfolding serve get_private_record get_cli_session
  serve-gets token target = ground arith

  serve-puts :
      (token : Text) (target : Target) (c : Text)
      → ((serve deps options now (puts token target c) b).sessions ≡ b.sessions)
        ⊎ ((serve deps options now (puts token target c) b).sessions
            ≡ purge_expired_records now.purged_at b.sessions)
  unfolding serve put_private_record get_cli_session
  serve-puts token target c = ground arith

-- A property of the session store that purging, granting and exchanging keep is kept by every call;
-- `Wanted` is what is known of the calls that create handoffs.
module _ {Rows : Type 0} (deps : Dependencies Rows) (options : Options) (I : Sessions → Type 0)
    (Wanted : Reading → Text → Target → Type 0)
    (purges : (now : ℕ) (s : Sessions) → I s → I (purge_expired_records now s))
    (grants : (now : Reading) (token : Text) (target : Target) (owner : Text) (s : Sessions)
      → Wanted now token target
      → deps.get_browser_account_id token ≡ ok (some owner)
      → is_supported_dev_secret_record_target target ≡ true
      → I s
      → I (create_handoff options now owner target s))
    (exchanges_keep : (now : Reading) (code : Text) (s : Sessions)
      → I s
      → I (exchange_handoff options now code s).1) where
  abbrev pub IsWanted : Served → Type 0
  IsWanted c =
      (token : Text) (target : Target)
      → c.call ≡ creates token target
      → Wanted c.reading token target

  serve_keeps :
      (now : Reading) (c : Call) (b : Backend Rows)
      → ((token : Text) (target : Target) → c ≡ creates token target → Wanted now token target)
      → I b.sessions
      → I (serve deps options now c b).sessions
  serve_keeps now (creates token target) b w i =
      elim (serve-creates deps options now b token target) [
        | inl same ↦ rw same i
        | inr (owner, (known, supported), same) ↦
            rw same
              (grants now token target owner b.sessions (w token target refl) known supported i)
      ]
  serve_keeps now (exchanges code) b w i = elim (serve-exchanges deps options now b code) [
    | inl same ↦ rw same i
    | inr same ↦ rw same (exchanges_keep now code b.sessions i)
  ]
  serve_keeps now (gets token target) b w i = elim (serve-gets deps options now b token target) [
    | inl same ↦ rw same i
    | inr same ↦ rw same (purges now.purged_at b.sessions i)
  ]
  serve_keeps now (puts token target c) b w i =
      elim (serve-puts deps options now b token target c) [
        | inl same ↦ rw same i
        | inr same ↦ rw same (purges now.purged_at b.sessions i)
      ]

  pub run_keeps :
      (cs : List Served) (b : Backend Rows)
      → All IsWanted cs
      → I b.sessions
      → I (run deps options cs b).sessions
  unfolding run
  run_keeps [] b w i = i
  run_keeps (c ∷ cs) b (w, ws) i =
      run_keeps cs (serve deps options c.reading c.call b) ws (serve_keeps c.reading c.call b w i)
