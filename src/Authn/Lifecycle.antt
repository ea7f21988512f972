-- ===== src/Authn/Lifecycle.antt =====
-- Validate of internal/authn/authn.go, and the reads that it shares with Renew.
use an.Prelude.{◌≡◌, ◌≢◌, String, true, false, ◌==◌, Option, none, some, arith, true_eq, subst, ◌∙◌}
use an.Error.{Succeeds, ok}
use an.Rows.{AccountRow}
use an.Table
use an.World.{Db, World, Env, Claims}
use an.Exec.{◌>>=◌}
use an.Tokens.ReadOnly.{ReadOnly-validate_access_token}
use an.Store.Accounts
use an.Store.Accounts.{is_account, scan_account, scanned}
use an.Store.Sessions
use an.Store.Sessions.{is_session, is_current}
use an.Tokens
use an.Authn.{validate, live_account, read_session}

-- The account of a row is stored, not deleted, and enabled.
abbrev pub IsActive : Option AccountRow → Type 0
IsActive none = ⊥
IsActive (some row) = (row.deleted ≡ false) × (row.enabled ≡ true)

module _ (env : Env) (w : World) (tenant_id email client_id : String) where
  pub read_session-ok :
      Succeeds (read_session tenant_id email client_id env w).0
      → (Table.find (is_session tenant_id email client_id) w.db.sessions ≢ none)
  unfolding read_session Sessions.read ◌>>=◌
  read_session-ok h = ground arith

  pub db-read_session : (read_session tenant_id email client_id env w).1.db ≡ w.db
  unfolding read_session Sessions.read ◌>>=◌
  db-read_session = ground arith

  pub live_account-ok :
      Succeeds (live_account tenant_id email env w).0
      → IsActive (Table.find (is_account tenant_id email) w.db.accounts)
  unfolding live_account Accounts.read ◌>>=◌
  live_account-ok h = ground arith

  pub db-live_account : (live_account tenant_id email env w).1.db ≡ w.db
  unfolding live_account Accounts.read ◌>>=◌
  db-live_account = ground arith

module _ (env : Env) (w : World) (tenant_id token : String) where
  -- The world after the check of the token
  abbrev checked : World
  checked = (Tokens.validate_access_token token env w).1

  validate-parts :
      {claims : Claims}
      → (validate tenant_id token env w).0 ≡ ok claims
      → ((Tokens.validate_access_token token env w).0 ≡ ok claims)
        × ((claims.tenant_id == tenant_id) ≡ true)
        × Succeeds (read_session tenant_id claims.subject claims.client_id env checked).0
        × Succeeds
            (live_account tenant_id claims.subject env
              (read_session tenant_id claims.subject claims.client_id env checked).1).0
  unfolding validate ◌>>=◌
  validate-parts {claims = claims} h = ground arith

  -- Whatever calls of the driver fail: a token that Validate accepts is a valid access token of the
  -- tenant, its session is stored, and its account is stored, enabled and not deleted.
  pub validate-ok :
      {claims : Claims}
      → (validate tenant_id token env w).0 ≡ ok claims
      → ((Tokens.validate_access_token token env w).0 ≡ ok claims)
        × (claims.tenant_id ≡ tenant_id)
        × (Table.find (is_session tenant_id claims.subject claims.client_id) w.db.sessions ≢ none)
        × IsActive (Table.find (is_account tenant_id claims.subject) w.db.accounts)
  validate-ok {claims = claims} h =
      let (valid, same_tenant, session, account) = validate-parts {claims = claims} h in
      let unread : checked.db ≡ w.db = (ReadOnly-validate_access_token token).at env w in
      let db_after =
        db-read_session env checked tenant_id claims.subject claims.client_id ∙ unread in
      (
        valid,
        true_eq claims.tenant_id tenant_id same_tenant,
        subst
            (λ (db : Db).
              Table.find (is_session tenant_id claims.subject claims.client_id) db.sessions ≢ none)
            unread (read_session-ok env checked tenant_id claims.subject claims.client_id session),
        subst (λ (db : Db). IsActive (Table.find (is_account tenant_id claims.subject) db.accounts))
            db_after
            (live_account-ok env
              (read_session tenant_id claims.subject claims.client_id env checked).1 tenant_id
              claims.subject claims.client_id account),
      )
