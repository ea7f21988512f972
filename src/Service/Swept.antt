-- ===== src/Service/Swept.antt =====
-- What one sweep of the janitor does to the database and to the keys (cmd/an/main.go).
use an.Prelude.{ℕ, suc, ◌+◌, Bool, true, false, ◌≡◌, refl, ltb, List, ap, ◌∙◌, if◌then◌else◌}
use an.Error.{ok}
use an.Rows.{RefreshToken}
use an.World.{Db, World, Env}
use an.Table
use an.Exec.{exec_count, ◌>>=◌}
use an.Exec.Rules.{reliable}
use an.Tokens
use an.Oidc
use an.Store.Sessions
use an.Store.Codes
use an.Store.Resets
use an.Store.Attempts
use an.Store.AuthRequests
use an.Store.OidcTokens
use an.Store.OidcTokens.{is_orphan}
use an.Store.BrowserSessions
use an.Service.{sweep, sweep_oidc, reload_provider}
use an.Service.Sweep.{ReadOnly-reload_keys, ReadOnly-reload_oidc}

-- The keys are read again before anything is deleted.
abbrev pub reloaded : Bool → Env → World → World
reloaded true env w = (Oidc.reload_keys env (Tokens.reload_keys env w).1).1
reloaded false env w = (Tokens.reload_keys env w).1

-- What is left of the tables at the first statement's step: no row whose time has passed at its statement
abbrev pub swept : Env → ℕ → Db → Db
swept env n db = record db {
  sessions = Table.delete (λ row. ltb row.expires (env.clock n)) db.sessions;
  logon_codes = Table.delete (λ row. ltb row.expires (env.clock (suc n))) db.logon_codes;
  password_resets =
      Table.delete (λ row. ltb row.expires (env.clock (suc (suc n)))) db.password_resets;
  failed_attempts =
      Table.delete (λ row. ltb (row.modified + 86400000000000) (env.clock (suc (suc (suc n)))))
        db.failed_attempts;
}

-- The same of the tables of the provider. An access token goes with its refresh token, too.
abbrev pub swept_oidc : Env → ℕ → Db → Db
swept_oidc env n db =
    let grants : List RefreshToken =
      Table.delete (λ row. ltb row.expires (env.clock (suc (suc n)))) db.refresh_tokens in
    record db {
      auth_requests = Table.delete (λ row. ltb row.expires (env.clock n)) db.auth_requests;
      refresh_tokens = grants;
      access_tokens =
          Table.delete (is_orphan grants)
            (Table.delete (λ row. ltb row.expires (env.clock (suc n))) db.access_tokens);
      browser_sessions =
          Table.delete (λ row. ltb row.expires (env.clock (suc (suc (suc n))))) db.browser_sessions;
    }

abbrev pub swept_all : Bool → Env → ℕ → Db → Db
swept_all true env n db = swept_oidc env (suc (suc (suc (suc n)))) (swept env n db)
swept_all false env n db = swept env n db

module _ (env : Env) (w : World) where
  db-reloaded : (oidc_enabled : Bool) → (reloaded oidc_enabled env w).db ≡ w.db
  unfolding Tokens.reload_keys ◌>>=◌
  db-reloaded true =
      ReadOnly-reload_oidc.at env (Tokens.reload_keys env w).1 ∙ ReadOnly-reload_keys.at env w
  db-reloaded false = ReadOnly-reload_keys.at env w

module _ (env : Env) (w : World) where
  -- The statements after the keys are read again
  run_sweep :
      (oidc_enabled : Bool)
      → let start : World = reloaded oidc_enabled (reliable env) w in
        (sweep oidc_enabled (reliable env) w) ≡ (
          ok tt,
          record start {
            db = swept_all oidc_enabled env start.step start.db;
            step =
                if oidc_enabled
                then suc (suc (suc (suc (suc (suc (suc (suc start.step)))))))
                else suc (suc (suc (suc start.step)));
          },
        )
  unfolding sweep sweep_oidc reload_provider Sessions.delete_expired Codes.delete_expired
      Resets.delete_expired Attempts.delete_stale exec_count AuthRequests.delete_expired
      OidcTokens.delete_expired OidcTokens.drop_refresh BrowserSessions.delete_expired ◌>>=◌
  run_sweep true = refl
  run_sweep false = refl

  -- No call of the driver failing: a sweep reads the keys again, of the tokenizer and, with the provider on, of
  -- the provider, and keeps them; and then it deletes exactly the sessions, logon codes and password resets that
  -- have expired at their statement, the failed attempts that a day has passed over, and, with the provider on,
  -- the requests, tokens and browser sessions that have expired, and nothing else.
  pub sweep_lem :
      (oidc_enabled : Bool)
      → let start : World = reloaded oidc_enabled (reliable env) w in
        ((sweep oidc_enabled (reliable env) w).1.db ≡ swept_all oidc_enabled env start.step w.db)
        × ((sweep oidc_enabled (reliable env) w).1.keys ≡ start.keys)
        × ((sweep oidc_enabled (reliable env) w).1.provider_keys ≡ start.provider_keys)
  sweep_lem oidc_enabled =
      let run = run_sweep oidc_enabled in
      (
        ap (λ r. r.1.db) run
            ∙ ap (swept_all oidc_enabled env (reloaded oidc_enabled (reliable env) w).step)
                (db-reloaded (reliable env) w oidc_enabled),
        ap (λ r. r.1.keys) run,
        ap (λ r. r.1.provider_keys) run,
      )
