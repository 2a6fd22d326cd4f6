-- ===== src/DevSecrets.antt =====
-- apps/api/src/lib/dev-secret-session-store.ts and packages/api-client/src/dev-secrets-targets.ts:
-- one-time handoff codes of a browser, and the command-line sessions that they are exchanged for.
pub mod Service
mod Tests
pub mod Routes
pub mod Access
pub mod Handoffs
pub mod Invariants
pub mod History
pub mod Records
use unuvault.Prelude.{
  ℕ, ◌+◌, Bool, not, ◌&&◌, Option, none, some, List, [], ◌∷◌, exists, leb, Text, codes, text_eq,
  TextMap, map_get, map_set, map_delete, map_keep,
}

pub record Target : Type 0 where
  pub app_code : Text
  pub target_env : Text
  pub secret_kind : Text

-- `HandoffRecord` and `CliSessionRecord`, which have the same members.
pub record Grant : Type 0 where
  pub owner_account_id : Text
  pub target : Target
  pub expires_at : ℕ

pub record Sessions : Type 0 where
  pub handoffs : TextMap Grant
  pub cli_sessions : TextMap Grant

pub record Options : Type 0 where
  pub handoff_ttl_ms : ℕ
  pub cli_session_ttl_ms : ℕ

abbrev pub default_options : Options
default_options = record { handoff_ttl_ms = 60000; cli_session_ttl_ms = 300000 }

abbrev pub no_sessions : Sessions
no_sessions = record { handoffs = []; cli_sessions = [] }

abbrev pub supported_dev_secret_targets : List Target
supported_dev_secret_targets =
    record {
      app_code = codes "unuidentity";
      target_env = codes "local";
      secret_kind = codes "dotenv";
    }
    ∷ record {
      app_code = codes "unuidentity";
      target_env = codes "staging";
      secret_kind = codes "dotenv";
    }
    ∷ record {
      app_code = codes "unuidentity";
      target_env = codes "production";
      secret_kind = codes "dotenv";
    }
    ∷ []

unfoldable pub same_target : Target → Target → Bool
same_target a b =
    text_eq a.app_code b.app_code
    && text_eq a.target_env b.target_env
    && text_eq a.secret_kind b.secret_kind

unfoldable pub is_supported_dev_secret_record_target : Target → Bool
is_supported_dev_secret_record_target target =
    exists (λ candidate. same_target candidate target) supported_dev_secret_targets

abbrev pub is_live : ℕ → Grant → Bool
is_live now g = not (leb g.expires_at now)

unfoldable pub purge_expired_records : ℕ → Sessions → Sessions
purge_expired_records now s = record {
  handoffs = map_keep (is_live now) s.handoffs;
  cli_sessions = map_keep (is_live now) s.cli_sessions;
}

-- A call reads the clock twice: to purge, and to stamp the new record. `code` is its `randomUUID()`.
pub record Reading : Type 0 where
  pub purged_at : ℕ
  pub stamped_at : ℕ
  pub code : Text

unfoldable pub create_handoff : Options → Reading → Text → Target → Sessions → Sessions
create_handoff options now owner target s =
    let live = purge_expired_records now.purged_at s in
    record live {
      handoffs =
          map_set now.code
            (record {
              owner_account_id = owner;
              target = target;
              expires_at = now.stamped_at + options.handoff_ttl_ms;
            })
            live.handoffs;
    }

-- The session token is the reading's code, and the grant is the one that was handed off.
abbrev exchanged : Options → Reading → Text → Sessions → Option Grant → Option Grant × Sessions
exchanged options now handoff_code live none = (none, live)
exchanged options now handoff_code live (some handoff) = (
  some handoff,
  record {
    handoffs = map_delete handoff_code live.handoffs;
    cli_sessions =
        map_set now.code
          (record handoff { expires_at = now.stamped_at + options.cli_session_ttl_ms })
          live.cli_sessions;
  },
)

unfoldable pub exchange_handoff : Options → Reading → Text → Sessions → Option Grant × Sessions
unfolding purge_expired_records
exchange_handoff options now handoff_code s =
    let live = purge_expired_records now.purged_at s in
    exchanged options now handoff_code live (map_get handoff_code live.handoffs)

unfoldable pub get_cli_session : ℕ → Text → Sessions → Option Grant × Sessions
unfolding purge_expired_records
get_cli_session now token s =
    let live = purge_expired_records now s in (map_get token live.cli_sessions, live)
