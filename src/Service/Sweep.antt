-- ===== src/Service/Sweep.antt =====
-- One sweep of the janitor (cmd/an/main.go).
use an.Prelude.{Bool, true, false, Option, none, some, List, refl}
use an.Rows.{SigningKey}
use an.World.{LoadedKeys}
use an.Table.Unique.{unique-delete}
use an.Exec.Rules.{ReadOnly, read_rules}
use an.Exec.Preserves.{preserve_rules, Preserves-bind, Preserves-exec_count}
use an.Tokens
use an.Oidc
use an.Store.SigningKeys
use an.Store.Sessions
use an.Store.Codes
use an.Store.Resets
use an.Store.Attempts
use an.Store.AuthRequests
use an.Store.OidcTokens
use an.Store.BrowserSessions
use an.Service.{sweep, sweep_oidc, reload_provider, day}
use an.Service.WellFormed.{same_session, same_attempt, same_code, same_reset}
use an.Service.Preserved.{Safe}

ReadOnly-swap_keys : (keys : LoadedKeys) → ReadOnly (Tokens.swap_keys keys)
unfolding Tokens.swap_keys
ReadOnly-swap_keys keys = record { at = λ env w. refl }

ReadOnly-load :
    (latest : Option SigningKey) (keys : List SigningKey) → ReadOnly (Tokens.load latest keys)
unfolding Tokens.load
ReadOnly-load none keys = search read_rules depth 3
ReadOnly-load (some latest) keys = search (read_rules, ReadOnly-swap_keys) depth 10

pub ReadOnly-reload_keys : ReadOnly Tokens.reload_keys
unfolding Tokens.reload_keys SigningKeys.read_all
ReadOnly-reload_keys = search (read_rules, ReadOnly-load) depth 6

ReadOnly-store : (keys : LoadedKeys) → ReadOnly (Oidc.store_provider_keys keys)
unfolding Oidc.store_provider_keys
ReadOnly-store keys = record { at = λ env w. refl }

ReadOnly-load_provider :
    (latest : Option SigningKey) (keys : List SigningKey)
    → ReadOnly (Oidc.load_provider latest keys)
unfolding Oidc.load_provider
ReadOnly-load_provider none keys = search read_rules depth 3
ReadOnly-load_provider (some latest) keys = search (read_rules, ReadOnly-store) depth 10

pub ReadOnly-reload_oidc : ReadOnly Oidc.reload_keys
unfolding Oidc.reload_keys SigningKeys.read_all
ReadOnly-reload_oidc = search (read_rules, ReadOnly-load_provider) depth 10

ReadOnly-reload_provider : (oidc_enabled : Bool) → ReadOnly (reload_provider oidc_enabled)
unfolding reload_provider
ReadOnly-reload_provider true = search (read_rules, ReadOnly-reload_oidc) depth 4
ReadOnly-reload_provider false = search read_rules depth 4

Safe-sessions : Safe Sessions.delete_expired
unfolding Sessions.delete_expired
Safe-sessions =
    Preserves-exec_count _ _
      λ time db k. (k.0, k.1, unique-delete same_session _ db.sessions k.2, k.3, k.4, k.5)

Safe-codes : Safe Codes.delete_expired
unfolding Codes.delete_expired
Safe-codes =
    Preserves-exec_count _ _
      λ time db k. (k.0, k.1, k.2, k.3, unique-delete same_code _ db.logon_codes k.4, k.5)

Safe-resets : Safe Resets.delete_expired
unfolding Resets.delete_expired
Safe-resets =
    Preserves-exec_count _ _
      λ time db k. (k.0, k.1, k.2, k.3, k.4, unique-delete same_reset _ db.password_resets k.5)

Safe-attempts : Safe (Attempts.delete_stale day)
unfolding Attempts.delete_stale
Safe-attempts =
    Preserves-exec_count _ _
      λ time db k. (k.0, k.1, k.2, unique-delete same_attempt _ db.failed_attempts k.3, k.4, k.5)

Safe-auth_requests : Safe AuthRequests.delete_expired
unfolding AuthRequests.delete_expired
Safe-auth_requests = Preserves-exec_count _ _ λ time db k. k

Safe-oidc_tokens : Safe OidcTokens.delete_expired
unfolding OidcTokens.delete_expired OidcTokens.drop_refresh
Safe-oidc_tokens = Preserves-bind _ _ (Preserves-exec_count _ _ λ time db k. k) λ access.
    Preserves-bind _ _ (Preserves-exec_count _ _ λ time db k. k)
      λ refresh. search preserve_rules depth 3

Safe-browser_sessions : Safe BrowserSessions.delete_expired
unfolding BrowserSessions.delete_expired
Safe-browser_sessions = Preserves-exec_count _ _ λ time db k. k

Safe-sweep_oidc : (oidc_enabled : Bool) → Safe (sweep_oidc oidc_enabled)
unfolding sweep_oidc
Safe-sweep_oidc true =
    search (preserve_rules, Safe-auth_requests, Safe-oidc_tokens, Safe-browser_sessions) depth 12
Safe-sweep_oidc false = search preserve_rules depth 3

pub Safe-sweep : (oidc_enabled : Bool) → Safe (sweep oidc_enabled)
unfolding sweep
Safe-sweep oidc_enabled =
    search
      (
        preserve_rules, ReadOnly-reload_keys, ReadOnly-reload_provider, Safe-sessions, Safe-codes,
        Safe-resets, Safe-attempts, Safe-sweep_oidc,
      )
      depth 20
