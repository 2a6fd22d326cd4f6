-- ===== src/DevSecrets/Tests.antt =====
-- The developer-secrets service on concrete inputs.
use unuvault.Prelude.{
  true, false, ◌⊎◌, is_empty, ℕ, ◌≡◌, refl, Option, none, some, List, [], ◌∷◌, ok, err, Text, codes,
  text_eq, trim, arith, map_get, map_set, map_delete, map_keep, strip_prefix,
}
use unuvault.Http.{success, read_bearer_token}
use unuvault.DevSecrets.{
  Target, Grant, default_options, Reading, no_sessions, same_target,
  is_supported_dev_secret_record_target, get_cli_session, exchange_handoff, create_handoff,
  purge_expired_records,
}
use unuvault.DevSecrets.Service
use unuvault.DevSecrets.Service.{DevSecretError, Backend, Dependencies, invalid_handoff}
use unuvault.DevSecrets.History.{Served, creates, exchanges, run}
use unuvault.DevSecrets.Invariants.{AreRequested, run-AreRequested}
use unuvault.DevSecrets.Handoffs.{exchange_once, handoff_reaches_record}
use unuvault.DevSecrets.Records.{IsEntitled}
use unuvault.DevSecrets.Routes.{get_record, put_record}
use unuvault.DevSecrets.Access.{service_at, get_record-IsEntitled, put_record-IsEntitled}

-- The rows are one ciphertext for the account "acc", or none.
abbrev one_row : Dependencies (Option Text)
one_row = record {
  get_browser_account_id = λ token. elim (text_eq token (codes "tok")) [
    | true ↦ ok (some (codes "acc"))
    | false ↦ ok none
  ];
  get_stored_record =
      λ owner target rows. elim (text_eq owner (codes "acc")) [ true ↦ ok rows | false ↦ ok none ];
  put_stored_record = λ owner target c rows. (ok tt, some c);
}

abbrev local_target : Target
local_target = record {
  app_code = codes "unuidentity";
  target_env = codes "local";
  secret_kind = codes "dotenv";
}

abbrev fresh : Backend (Option Text)
fresh = record { sessions = no_sessions; rows = some (codes "c") }

abbrev at : ℕ → Text → Reading
at t code = record { purged_at = t; stamped_at = t; code = code }

runs : Unit {0}
unfolding Service.create_browser_handoff Service.exchange_browser_handoff Service.get_private_record
    Service.put_private_record create_handoff exchange_handoff get_cli_session purge_expired_records
    is_supported_dev_secret_record_target same_target map_get map_set map_delete map_keep text_eq
    trim run get_record put_record read_bearer_token strip_prefix
runs = tt

handoff_runs :
    (get_record
      (service_at one_row default_options (at 20 []))
      (some (codes "Bearer s"))
      (codes "unuidentity")
      (codes "local")
      (run one_row default_options
        (record { reading = at 0 (codes "h"); call = creates (codes "tok") local_target }
          ∷ record { reading = at 10 (codes "s"); call = exchanges (codes "h") }
          ∷ [])
        fresh)).0
    ≡ success (codes "c")
unfolding runs
handoff_runs = refl

handoff_reaches_record_example :
    let (code, b1) =
      Service.create_browser_handoff one_row default_options
        (at 0 (codes "h"))
        (codes "tok")
        local_target
        fresh in
    let (session, b2) =
      Service.exchange_browser_handoff one_row default_options
        (at 59999 (codes "s"))
        (codes "h")
        b1 in
    let (answer, b3) =
      Service.get_private_record one_row default_options 359998 (codes "s") local_target b2 in
    (code ≡ ok (codes "h")) × (session ≡ ok (codes "s")) × (answer ≡ ok (codes "c"))
unfolding runs
handoff_reaches_record_example =
    handoff_reaches_record one_row default_options (at 0 (codes "h")) (at 59999 (codes "s")) 359998
      (codes "tok") (codes "acc") (codes "c") local_target fresh (tt, tt) refl refl refl
      (omega arith) (omega arith) (omega arith) refl

abbrev handed : Backend (Option Text)
handed = record fresh {
  sessions = record {
    handoffs =
        (
          codes "h",
          record { owner_account_id = codes "acc"; target = local_target; expires_at = 60000 },
        )
        ∷ [];
    cli_sessions = [];
  };
}

abbrev swapped : Backend (Option Text)
swapped = record fresh {
  sessions = record {
    handoffs = [];
    cli_sessions =
        (
          codes "s",
          record { owner_account_id = codes "acc"; target = local_target; expires_at = 300010 },
        )
        ∷ [];
  };
}

abbrev another : List Served
another = record { reading = at 20 (codes "g"); call = creates (codes "tok") local_target } ∷ []

exchange_once_example :
    (Service.exchange_browser_handoff one_row default_options
      (at 30 (codes "z"))
      (codes "h")
      (run one_row default_options another swapped)).0
    ≡ err invalid_handoff
unfolding runs
exchange_once_example =
    exchange_once one_row default_options (at 10 (codes "s")) (at 30 (codes "z")) (codes "h")
      (codes "s") another handed swapped ((refl, tt), tt) refl
      ((λ t target e. λ same. ground arith), tt)

abbrev AskedLocal : Text → Target → Type 0
AskedLocal token target = target ≡ local_target

run-AreRequested_example :
    AreRequested one_row default_options AskedLocal
      (run one_row default_options another fresh).sessions
run-AreRequested_example =
    run-AreRequested one_row default_options AskedLocal another (some (codes "c"))
      ((λ t target e. ground arith), tt)

get_record-IsEntitled_example :
    (token : Text) × (g : Grant) × (read_bearer_token (some (codes "Bearer s")) ≡ some token)
    × (is_empty token ≡ false)
    × IsEntitled swapped.sessions 20 token local_target g
    × (one_row.get_stored_record g.owner_account_id local_target swapped.rows
        ≡ ok (some (codes "c")))
    × (swapped.rows ≡ swapped.rows)
unfolding runs
get_record-IsEntitled_example =
    get_record-IsEntitled one_row default_options (at 20 []) (some (codes "Bearer s"))
      (codes "unuidentity") (codes "local") (codes "c") swapped swapped (refl, tt) refl

put_record-IsEntitled_example :
    ((put_record
        (service_at one_row default_options (at 20 []))
        (some (codes "Bearer s"))
        (codes "unuidentity")
        (codes "local")
        (some (codes "d"))
        swapped).1.rows
      ≡ swapped.rows)
    ⊎ ((token : Text) × (g : Grant) × (read_bearer_token (some (codes "Bearer s")) ≡ some token)
        × IsEntitled swapped.sessions 20 token local_target g
        × ((put_record
              (service_at one_row default_options (at 20 []))
              (some (codes "Bearer s"))
              (codes "unuidentity")
              (codes "local")
              (some (codes "d"))
              swapped).1.rows
            ≡ (one_row.put_stored_record g.owner_account_id local_target
                (codes "d")
                swapped.rows).1))
unfolding map_get
put_record-IsEntitled_example =
    put_record-IsEntitled one_row default_options (at 20 []) (some (codes "Bearer s"))
      (codes "unuidentity") (codes "local") (some (codes "d")) swapped (refl, tt)
