-- ===== src/Store/BrowserSessions.antt =====
-- internal/oidc/browser_session_repository.go: PostgresBrowserSessionRepository.
use an.Prelude.{ℕ, String, ◌==◌, Bool, not, ◌&&◌, ◌||◌, ◌∷◌, ltb, if◌then◌else◌}
use an.Error.{Result, ok, err, pg_error, browser_session_not_found, tenant_mismatch}
use an.Rows.{BrowserSession}
use an.Table
use an.World.{Db}
use an.Exec.{
  M, pure, asks, query, statement, exec, exec_count, affect, rename_error, new_uuid, from_option,
  now, fail_if, pg_unique_violation, pg_foreign_key_violation, ◌>>=◌, ◌>>◌,
}
use an.Utils.Secrets.{sha256_hex, random_token}
use an.Store.AuthRequests.{constraint_error}
use an.Store.Accounts.{is_account}

abbrev pub has_hash : String → BrowserSession → Bool
has_hash hash row = row.token_hash == hash

-- PRIMARY KEY (id), UNIQUE (token_hash), account_id REFERENCES accounts (id)
unfoldable pub insert : BrowserSession → ℕ → Db → Result BrowserSession × Db
insert session time db =
    if Table.any (λ row. row.id == session.id || row.token_hash == session.token_hash)
      db.browser_sessions
    then (err (pg_error pg_unique_violation), db)
    else if not (Table.any (λ row. row.id == session.account_id) db.accounts)
    then (err (pg_error pg_foreign_key_violation), db)
    else let row = record session { created = time } in
      (ok row, record db { browser_sessions = row ∷ db.browser_sessions })

-- The stored session and the plaintext of its cookie
unfoldable pub create : BrowserSession → M (BrowserSession × String)
unfolding insert constraint_error new_uuid
create session = do
  id ← new_uuid
  plaintext ← random_token
  hash ← asks (λ env. sha256_hex env plaintext)
  stored ←
      rename_error (constraint_error "browser session")
        (statement (insert (record session { id = id; token_hash = hash })))
  pure (stored, plaintext)

unfoldable pub read : String → String → M BrowserSession
read tenant_id token = do
  hash ← asks (λ env. sha256_hex env token)
  session ← query (λ _ db.
      from_option browser_session_not_found (Table.find (has_hash hash) db.browser_sessions))
  fail_if (not (session.tenant_id == tenant_id)) tenant_mismatch
  time ← now
  fail_if (ltb session.expires time) browser_session_not_found
  pure session

-- WHERE tenant_id = $1 AND token_hash = $2
abbrev pub is_cookie : String → String → BrowserSession → Bool
is_cookie tenant_id hash row = row.tenant_id == tenant_id && row.token_hash == hash

unfoldable pub delete : String → String → M (Unit {0})
delete tenant_id token = do
  hash ← asks (λ env. sha256_hex env token)
  affect browser_session_not_found
      (λ db. Table.count (is_cookie tenant_id hash) db.browser_sessions)
      (λ _ db. record db {
        browser_sessions = Table.delete (is_cookie tenant_id hash) db.browser_sessions;
      })

-- WHERE tenant_id = $1 AND account_id = $2
abbrev pub belongs : String → String → BrowserSession → Bool
belongs tenant_id account_id row = row.tenant_id == tenant_id && row.account_id == account_id

unfoldable pub delete_all : String → String → M (Unit {0})
delete_all tenant_id account_id = do
  parses ← asks (λ env. env.uuid_parse account_id)
  fail_if (not parses) browser_session_not_found
  exec λ _ db. record db {
    browser_sessions = Table.delete (belongs tenant_id account_id) db.browser_sessions;
  }

-- account_id IN (SELECT id FROM accounts WHERE tenant_id = $1 AND email = $2)
unfoldable pub delete_all_for_email : String → String → M (Unit {0})
delete_all_for_email tenant_id email = exec λ _ db. record db {
  browser_sessions =
      Table.delete
        (λ row.
          row.tenant_id == tenant_id
          && Table.any
              (λ account. is_account tenant_id email account && account.id == row.account_id)
              db.accounts)
        db.browser_sessions;
}

unfoldable pub delete_expired : M ℕ
delete_expired =
    exec_count (λ time db. Table.count (λ row. ltb row.expires time) db.browser_sessions)
      (λ time db. record db {
        browser_sessions = Table.delete (λ row. ltb row.expires time) db.browser_sessions;
      })
