-- ===== src/Store/OidcTokens.antt =====
-- internal/oidc/token_repository.go: PostgresTokenRepository.
use an.Prelude.{
  ℕ, ◌+◌, String, ◌==◌, Bool, true, not, ◌&&◌, ◌||◌, Option, none, some, List, ◌∷◌, ltb,
  if◌then◌else◌,
}
use an.Error.{Result, ok, err, pg_error, token_not_found, tenant_mismatch}
use an.Rows.{RefreshToken, AccessToken, AccountRow}
use an.Table
use an.World.{Db}
use an.Exec.{
  M, pure, asks, query, statement, exec, exec_count, affect, rename_error, new_uuid, from_option,
  now, fail_if, pg_unique_violation, pg_foreign_key_violation, ◌>>=◌, ◌>>◌,
}
use an.Utils.Secrets.{sha256_hex, random_token}
use an.Store.AuthRequests.{constraint_error}

abbrev pub has_access_id : String → AccessToken → Bool
has_access_id id row = row.id == id

abbrev pub has_refresh_id : String → RefreshToken → Bool
has_refresh_id id row = row.id == id

abbrev pub has_hash : String → RefreshToken → Bool
has_hash hash row = row.token_hash == hash

abbrev pub is_access : String → String → AccessToken → Bool
is_access tenant_id id row = row.tenant_id == tenant_id && row.id == id

abbrev pub is_refresh : String → String → RefreshToken → Bool
is_refresh tenant_id id row = row.tenant_id == tenant_id && row.id == id

-- An absent foreign key is NULL.
unfoldable pub nullable_id : String → Option String
nullable_id id = if id == "" then none else some id

-- REFERENCES oidc_refresh_tokens (id)
abbrev refers : Option String → List RefreshToken → Bool
refers none rows = true
refers (some id) rows = Table.any (has_refresh_id id) rows

unfoldable pub insert_access : AccessToken → ℕ → Db → Result AccessToken × Db
insert_access token time db =
    if Table.any (has_access_id token.id) db.access_tokens
    then (err (pg_error pg_unique_violation), db)
    else if not (refers token.refresh_token_id db.refresh_tokens)
    then (err (pg_error pg_foreign_key_violation), db)
    else let row = record token { created = time } in
      (ok row, record db { access_tokens = row ∷ db.access_tokens })

unfoldable pub create_access_token : AccessToken → M AccessToken
unfolding constraint_error
create_access_token token = do
  id ← new_uuid
  rename_error (constraint_error "access token")
      (statement (insert_access (record token { id = id })))

unfoldable pub read_access_token : String → String → M AccessToken
read_access_token tenant_id id = do
  parses ← asks (λ env. env.uuid_parse id)
  fail_if (not parses) (token_not_found id)
  token ←
      query
        (λ _ db. from_option (token_not_found id) (Table.find (has_access_id id) db.access_tokens))
  fail_if (not (token.tenant_id == tenant_id)) tenant_mismatch
  time ← now
  fail_if (ltb token.expires time) (token_not_found id)
  pure token

unfoldable pub delete_access_token : String → String → M (Unit {0})
delete_access_token tenant_id id = do
  parses ← asks (λ env. env.uuid_parse id)
  fail_if (not parses) (token_not_found id)
  affect (token_not_found id) (λ db. Table.count (is_access tenant_id id) db.access_tokens)
      (λ _ db. record db { access_tokens = Table.delete (is_access tenant_id id) db.access_tokens })

-- PRIMARY KEY (id), UNIQUE (token_hash)
unfoldable pub insert_refresh : RefreshToken → ℕ → Db → Result RefreshToken × Db
insert_refresh token time db =
    if Table.any (λ row. row.id == token.id || row.token_hash == token.token_hash) db.refresh_tokens
    then (err (pg_error pg_unique_violation), db)
    else let row = record token { created = time } in
      (ok row, record db { refresh_tokens = row ∷ db.refresh_tokens })

-- The stored grant and the plaintext token, of which only the hash is stored
unfoldable pub create_refresh_token : RefreshToken → M (RefreshToken × String)
unfolding constraint_error
create_refresh_token token = do
  id ← new_uuid
  plaintext ← random_token
  hash ← asks (λ env. sha256_hex env plaintext)
  stored ←
      rename_error (constraint_error "refresh token")
        (statement (insert_refresh (record token { id = id; token_hash = hash })))
  pure (stored, plaintext)

unfoldable pub read_refresh_row : (RefreshToken → Bool) → String → String → M RefreshToken
read_refresh_row p tenant_id not_found = do
  token ← query (λ _ db. from_option (token_not_found not_found) (Table.find p db.refresh_tokens))
  fail_if (not (token.tenant_id == tenant_id)) tenant_mismatch
  time ← now
  fail_if (ltb token.expires time) (token_not_found not_found)
  pure token

unfoldable pub read_refresh_token : String → String → M RefreshToken
read_refresh_token tenant_id token = do
  hash ← asks (λ env. sha256_hex env token)
  read_refresh_row (has_hash hash) tenant_id "refresh token"

unfoldable pub read_refresh_token_by_id : String → String → M RefreshToken
read_refresh_token_by_id tenant_id id = do
  parses ← asks (λ env. env.uuid_parse id)
  fail_if (not parses) (token_not_found id)
  read_refresh_row (has_refresh_id id) tenant_id id

-- ON DELETE CASCADE: the access tokens whose grant is not in the table any more
abbrev pub is_orphan : List RefreshToken → AccessToken → Bool
is_orphan grants token = not (refers token.refresh_token_id grants)

-- A DELETE on the refresh tokens, with the cascade
unfoldable pub drop_refresh : (RefreshToken → Bool) → Db → Db
drop_refresh p db =
    let left = Table.delete p db.refresh_tokens in
    record db {
      refresh_tokens = left;
      access_tokens = Table.delete (is_orphan left) db.access_tokens;
    }

unfoldable pub delete_refresh_token : String → String → M (Unit {0})
unfolding drop_refresh
delete_refresh_token tenant_id id = do
  parses ← asks (λ env. env.uuid_parse id)
  fail_if (not parses) (token_not_found id)
  affect (token_not_found id) (λ db. Table.count (is_refresh tenant_id id) db.refresh_tokens)
      (λ _ db. drop_refresh (is_refresh tenant_id id) db)

-- WHERE tenant_id = $1 AND subject = $2 AND client_id = $3
abbrev pub grants_refresh : String → String → String → RefreshToken → Bool
grants_refresh tenant_id subject client_id row =
    row.tenant_id == tenant_id && row.subject == subject && row.client_id == client_id

abbrev pub grants_access : String → String → String → AccessToken → Bool
grants_access tenant_id subject client_id row =
    row.tenant_id == tenant_id && row.subject == subject && row.client_id == client_id

unfoldable pub delete_grants : String → String → String → M (Unit {0})
unfolding drop_refresh
delete_grants tenant_id subject client_id = do
  exec (λ _ db. drop_refresh (grants_refresh tenant_id subject client_id) db)
  exec λ _ db. record db {
    access_tokens = Table.delete (grants_access tenant_id subject client_id) db.access_tokens;
  }

-- subject IN (SELECT id::text FROM accounts WHERE tenant_id = $1 AND email = $2)
abbrev pub names_account : String → String → String → AccountRow → Bool
names_account tenant_id email subject row =
    row.tenant_id == tenant_id && row.email == email && row.id == subject

abbrev pub is_subject : String → String → List AccountRow → String → Bool
is_subject tenant_id email accounts subject =
    Table.any (names_account tenant_id email subject) accounts

unfoldable pub delete_grants_for_email : String → String → M (Unit {0})
unfolding drop_refresh
delete_grants_for_email tenant_id email = do
  exec λ _ db.
      drop_refresh
        (λ row. row.tenant_id == tenant_id && is_subject tenant_id email db.accounts row.subject) db
  exec λ _ db. record db {
    access_tokens =
        Table.delete
          (λ row. row.tenant_id == tenant_id && is_subject tenant_id email db.accounts row.subject)
          db.access_tokens;
  }
  exec λ _ db. record db {
    auth_requests =
        Table.delete
          (λ row. row.tenant_id == tenant_id && is_subject tenant_id email db.accounts row.subject)
          db.auth_requests;
  }

unfoldable pub delete_expired : M ℕ
unfolding drop_refresh
delete_expired = do
  access ←
      exec_count (λ time db. Table.count (λ row. ltb row.expires time) db.access_tokens)
        (λ time db. record db {
          access_tokens = Table.delete (λ row. ltb row.expires time) db.access_tokens;
        })
  refresh ←
      exec_count (λ time db. Table.count (λ row. ltb row.expires time) db.refresh_tokens)
        (λ time db. drop_refresh (λ row. ltb row.expires time) db)
  pure (access + refresh)
