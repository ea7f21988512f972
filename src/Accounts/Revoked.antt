-- ===== src/Accounts/Revoked.antt =====
-- The session revokers that cmd/an/main.go wires in, and the sign-ins that they act on.
use an.Prelude.{String, ◌==◌, ◌&&◌, Bool, true, false, ◌≡◌}
use an.World.{Db}
use an.Rows.{BrowserSession, RefreshToken}
use an.Table
use an.Table.Laws.{any-delete_self}
use an.Exec.Rules.{ReadOnly-pure}
use an.Exec.Makes.{
  Makes, Keeps, Makes-then, Makes-first, Keeps-bind, Makes-exec, Keeps-exec, Keeps-ReadOnly,
}
use an.Store.Sessions
use an.Store.BrowserSessions
use an.Store.OidcTokens
use an.Store.OidcTokens.{is_subject, drop_refresh}
use an.Accounts.{revoke_sessions}
use an.Oidc.Revoker
use an.Service.{revokers}

-- What is left of the sign-ins of an account, one surface after another: the sessions of the api, the
-- browser sessions, the refresh tokens, the access tokens and the pending authorization requests of
-- the provider.
abbrev pub has_session : String → String → Db → Bool
has_session tenant_id email db = Table.any (Sessions.is_owned tenant_id email) db.sessions

abbrev pub has_browser_session : String → String → Db → Bool
has_browser_session tenant_id email db =
    Table.any
      (λ (row : BrowserSession).
        row.tenant_id == tenant_id && is_subject tenant_id email db.accounts row.account_id)
      db.browser_sessions

abbrev pub has_refresh_token : String → String → Db → Bool
has_refresh_token tenant_id email db =
    Table.any
      (λ (row : RefreshToken).
        row.tenant_id == tenant_id && is_subject tenant_id email db.accounts row.subject)
      db.refresh_tokens

abbrev pub has_access_token : String → String → Db → Bool
has_access_token tenant_id email db =
    Table.any
      (λ row. row.tenant_id == tenant_id && is_subject tenant_id email db.accounts row.subject)
      db.access_tokens

abbrev pub has_auth_request : String → String → Db → Bool
has_auth_request tenant_id email db =
    Table.any
      (λ row. row.tenant_id == tenant_id && is_subject tenant_id email db.accounts row.subject)
      db.auth_requests

abbrev pub SignedOut : String → String → Db → Type 0
SignedOut tenant_id email db =
    (has_session tenant_id email db ≡ false)
    × (has_browser_session tenant_id email db ≡ false)
    × (has_refresh_token tenant_id email db ≡ false)
    × (has_access_token tenant_id email db ≡ false)
    × (has_auth_request tenant_id email db ≡ false)

module _ (tenant_id email : String) where
  -- The revoker of the provider, one statement after another
  Keeps-provider :
      (q : Db → Type 0)
      → Keeps (BrowserSessions.delete_all_for_email tenant_id email) q
      → Keeps (OidcTokens.delete_grants_for_email tenant_id email) q
      → Keeps (Revoker.delete_all tenant_id email) q
  unfolding Revoker.delete_all
  Keeps-provider q h k = Keeps-bind _ _ h (λ _. k)

  Makes-session :
      Makes (Sessions.delete_all tenant_id email) (λ db. has_session tenant_id email db ≡ false)
  unfolding Sessions.delete_all
  Makes-session = Makes-exec _ (λ time db. any-delete_self _ db.sessions)

  Keeps-session :
      Keeps (Revoker.delete_all tenant_id email) (λ db. has_session tenant_id email db ≡ false)
  unfolding Revoker.delete_all BrowserSessions.delete_all_for_email
      OidcTokens.delete_grants_for_email drop_refresh
  Keeps-session = Keeps-bind _ _ (Keeps-exec _ λ time db h. h) λ _.
      Keeps-bind _ _ (Keeps-exec _ λ time db h. h)
        λ _. Keeps-bind _ _ (Keeps-exec _ λ time db h. h) λ _. Keeps-exec _ λ time db h. h

  Makes-browser :
      Makes
        (Revoker.delete_all tenant_id email)
        (λ db. has_browser_session tenant_id email db ≡ false)
  unfolding Revoker.delete_all BrowserSessions.delete_all_for_email
      OidcTokens.delete_grants_for_email drop_refresh
  Makes-browser =
      Makes-first _ _ (Makes-exec _ λ time db. any-delete_self _ db.browser_sessions) λ _.
        Keeps-bind _ _ (Keeps-exec _ λ time db h. h)
          λ _. Keeps-bind _ _ (Keeps-exec _ λ time db h. h) λ _. Keeps-exec _ λ time db h. h

  Makes-refresh :
      Makes
        (Revoker.delete_all tenant_id email)
        (λ db. has_refresh_token tenant_id email db ≡ false)
  unfolding Revoker.delete_all OidcTokens.delete_grants_for_email drop_refresh
  Makes-refresh = Makes-then _ _ λ _.
      Makes-first _ _ (Makes-exec _ λ time db. any-delete_self _ db.refresh_tokens)
        λ _. Keeps-bind _ _ (Keeps-exec _ λ time db h. h) λ _. Keeps-exec _ λ time db h. h

  Makes-access :
      Makes (Revoker.delete_all tenant_id email) (λ db. has_access_token tenant_id email db ≡ false)
  unfolding Revoker.delete_all OidcTokens.delete_grants_for_email drop_refresh
  Makes-access = Makes-then _ _ λ _. Makes-then _ _ λ _.
      Makes-first _ _ (Makes-exec _ λ time db. any-delete_self _ db.access_tokens)
        λ _. Keeps-exec _ λ time db h. h

  Makes-request :
      Makes (Revoker.delete_all tenant_id email) (λ db. has_auth_request tenant_id email db ≡ false)
  unfolding Revoker.delete_all OidcTokens.delete_grants_for_email drop_refresh
  Makes-request = Makes-then _ _ λ _.
      Makes-then _ _
        λ _. Makes-then _ _ λ _. Makes-exec _ λ time db. any-delete_self _ db.auth_requests

  -- What the second revoker makes, all the revokers make.
  Makes-second :
      (q : Db → Type 0)
      → Makes (Revoker.delete_all tenant_id email) q
      → Makes (revoke_sessions (revokers true) tenant_id email) q
  unfolding revoke_sessions revokers
  Makes-second q h = Makes-then _ _ λ _. Makes-first _ _ h λ _. Keeps-ReadOnly _ (ReadOnly-pure tt)

  pub Makes-revoke_sessions :
      Makes (revoke_sessions (revokers true) tenant_id email) (SignedOut tenant_id email)
  unfolding revoke_sessions revokers
  Makes-revoke_sessions = record {
    at = λ env w h. (
      all_first.at env w h,
      (Makes-second _ Makes-browser).at env w h,
      (Makes-second _ Makes-refresh).at env w h,
      (Makes-second _ Makes-access).at env w h,
      (Makes-second _ Makes-request).at env w h,
    );
  }
    where
      all_first :
          Makes
            (revoke_sessions (revokers true) tenant_id email)
            (λ db. has_session tenant_id email db ≡ false)
      all_first =
          Makes-first _ _ Makes-session
            λ _. Keeps-bind _ _ Keeps-session λ _. Keeps-ReadOnly _ (ReadOnly-pure tt)
