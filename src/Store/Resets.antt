-- ===== src/Store/Resets.antt =====
-- internal/accounts/password_reset_repository.go: PostgresPasswordResetRepository.
use an.Prelude.{ℕ, String, ◌==◌, Bool, ◌&&◌, List, ◌∷◌, ltb, if◌then◌else◌}
use an.Error.{reset_token_invalid, reset_token_expired}
use an.Rows.{PasswordReset}
use an.Table
use an.Exec.{M, pure, query, exec, exec_count, from_option, now, fail_if, ◌>>=◌, ◌>>◌}

abbrev pub is_reset : String → String → PasswordReset → Bool
is_reset tenant_id email row = row.tenant_id == tenant_id && row.email == email

-- INSERT … ON CONFLICT (tenant_id, email) DO UPDATE
unfoldable pub put : PasswordReset → List PasswordReset → List PasswordReset
put row rows =
    let same = is_reset row.tenant_id row.email in
    if Table.any same rows
    then Table.update same
        (λ old. record old {
          token_hash = row.token_hash;
          expires = row.expires;
          created = row.created;
        })
        rows
    else row ∷ rows

unfoldable pub upsert : String → String → String → ℕ → M (Unit {0})
unfolding put
upsert tenant_id email token_hash expires = exec λ time db. record db {
  password_resets =
      put
        (record {
          tenant_id = tenant_id;
          email = email;
          token_hash = token_hash;
          expires = expires;
          created = time;
        })
        db.password_resets;
}

-- The stored hash; an expired row is an error.
unfoldable pub read : String → String → M String
read tenant_id email = do
  row ← query (λ _ db.
      from_option reset_token_invalid (Table.find (is_reset tenant_id email) db.password_resets))
  time ← now
  fail_if (ltb row.expires time) reset_token_expired
  pure row.token_hash

unfoldable pub delete : String → String → M (Unit {0})
delete tenant_id email = exec λ _ db. record db {
  password_resets = Table.delete (is_reset tenant_id email) db.password_resets;
}

-- WHERE expires < now()
abbrev pub is_expired : ℕ → PasswordReset → Bool
is_expired time row = ltb row.expires time

unfoldable pub delete_expired : M ℕ
delete_expired =
    exec_count (λ time db. Table.count (is_expired time) db.password_resets)
      (λ time db. record db { password_resets = Table.delete (is_expired time) db.password_resets })
